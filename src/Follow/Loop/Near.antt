-- ===== src/Follow/Loop/Near.antt =====
-- The map through passes and rewinds, over an honest node: it is never behind its cursor, and never
-- ahead of the highest block that it has reached.
use poulpy_eth_pir_demo.Base.{
  ℕ, ◌+◌, ◌-◌, ◌≤◌, ◌≡◌, refl, sym, subst, ◌∙◌, ◌⊎◌, inl, inr, max, leb, List, arith, Bool-cases,
}
use poulpy_eth_pir_demo.Base.Run.{Result, ok, err}
use poulpy_eth_pir_demo.Tokens.{Address}
use poulpy_eth_pir_demo.Balances.{BalanceMap, Reading}
use poulpy_eth_pir_demo.Chain.Events.{Log}
use poulpy_eth_pir_demo.Chain.Events.Words.{IsHolder}
use poulpy_eth_pir_demo.Chain.Node.{Node, Fault}
use poulpy_eth_pir_demo.Chain.Tip.{is_reorgable}
use poulpy_eth_pir_demo.Chain.Rpc.Exact.{AnswersAt}
use poulpy_eth_pir_demo.Follow.Apply.{Outputs, apply_range}
use poulpy_eth_pir_demo.Follow.Apply.Exact.{said}
use poulpy_eth_pir_demo.Follow.Apply.Ranges.{AnswersOwner, TellsOf, apply_range-exact}
use poulpy_eth_pir_demo.Follow.Watch.{Watched, repair_if_reorged}
use poulpy_eth_pir_demo.Follow.Watch.Near.{Repaired, repair_if_reorged-Repaired}
use poulpy_eth_pir_demo.Follow.Syncer.{Sync, FollowConfig, sync}
use poulpy_eth_pir_demo.Follow.Syncer.Ends.{Post, Post-map, Keeps, Always, RangeKept, Got}
use poulpy_eth_pir_demo.Follow.Syncer.Chunks.{Within, Done}
use poulpy_eth_pir_demo.Follow.Syncer.Exact.{IsHonest, said-moved, pruned-said, sync-Done}
use poulpy_eth_pir_demo.Follow.Loop.{Follower, Rounds, repair_if_needed, pass, round}
use poulpy_eth_pir_demo.Follow.Loop.Armed.{watched, rewatched}
use poulpy_eth_pir_demo.Follow.Loop.Right.{IsRight, Runs, here, later}
use poulpy_eth_pir_demo.Follow.Loop.Kept.{pass-Keeps, settle_pass-Held, on_inner-Keeps}

-- A node that answers with what is on the chain, and whose logs of a range tell of an address if its
-- balances change anywhere in the range.
pub record IsThorough (node : Node) (truth : ℕ → Address → Reading) (treasury : ℕ → Address)
    (j : Address) : Type 0 where
  pub balances : (block : ℕ) → AnswersAt node block (truth block)
  pub owners : AnswersOwner node treasury
  pub tells :
      (cursor hi : ℕ) (logs : List Log)
      → cursor + 1 ≤ hi
      → Got node (cursor + 1) hi logs
      → ((b : ℕ) → cursor ≤ b → b ≤ hi → truth b j ≡ truth hi j) ⊎ TellsOf treasury logs j

pub IsThorough-IsHonest :
    {node : Node} {truth : ℕ → Address → Reading} {treasury : ℕ → Address} {j : Address}
    → IsThorough node truth treasury j
    → IsHonest node truth treasury j
IsThorough-IsHonest {truth = truth} {treasury = treasury} {j = j} thorough = record {
  balances = thorough.balances;
  owners = thorough.owners;
  tells = λ cursor hi logs order got.
      at_ends cursor hi logs order (thorough.tells cursor hi logs order got);
}
  where
    at_ends :
        (cursor hi : ℕ) (logs : List Log)
        → cursor + 1 ≤ hi
        → ((b : ℕ) → cursor ≤ b → b ≤ hi → truth b j ≡ truth hi j) ⊎ TellsOf treasury logs j
        → (truth hi j ≡ truth cursor j) ⊎ TellsOf treasury logs j
    at_ends cursor hi logs order (inl constant) =
        inl (sym (constant cursor (omega arith) (omega arith)))
    at_ends cursor hi logs order (inr told) = inr told

module _ (node : Node) (cfg : FollowConfig) (truth : ℕ → Address → Reading) (treasury : ℕ → Address)
    (j : Address) (top : ℕ) where
  open node use {World}

  -- What the address has at a block from the cursor on, and not past the top or the cursor.
  abbrev From : ℕ → Reading → Type 0
  From cursor r = (b : ℕ) × (cursor ≤ b) × ((b ≤ cursor) ⊎ (b ≤ top)) × (r ≡ truth b j)

  abbrev Near : BalanceMap → Type 0
  Near m = From m.cursor (said j m)

  module _ (holder : IsHolder j) (honest : IsThorough node truth treasury j) where
    ranged-Near :
        (lo hi : ℕ) (logs : List Log) (o : Outputs)
        → o.map.cursor + 1 ≡ lo
        → lo ≤ hi
        → Got node lo hi logs
        → Near o.map
        → Keeps Always (apply_range node logs hi o) (λ r w. From hi (said j r.0.map)) Always
    ranged-Near lo hi logs o next order got near = record {
      post = λ w p.
          Post-map Always (apply_range node logs hi o w)
            (λ r w' exact. settle r.0.map (exact j holder) (told next) near)
            ((apply_range-exact node treasury honest.owners truth hi (honest.balances hi) logs
                o).post
              w tt);
    }
      where
        Constant : Type 0
        Constant = (b : ℕ) → o.map.cursor ≤ b → b ≤ hi → truth b j ≡ truth hi j

        told : o.map.cursor + 1 ≡ lo → Constant ⊎ TellsOf treasury logs j
        told e =
            honest.tells o.map.cursor hi logs (omega arith)
              (subst (λ n. Got node n hi logs) (sym e) got)

        now : (m : BalanceMap) → said j m ≡ truth hi j → From hi (said j m)
        now m e = (hi, omega arith, inl (omega arith), e)

        settle :
            (m : BalanceMap)
            → ((said j m ≡ truth hi j) ⊎ (said j m ≡ said j o.map))
              × (TellsOf treasury logs j → said j m ≡ truth hi j)
            → Constant ⊎ TellsOf treasury logs j
            → Near o.map
            → From hi (said j m)
        settle m (inl e, f) t n = now m e
        settle m (inr e, f) (inr t) n = now m (f t)
        settle m (inr e, f) (inl constant) (b, low, high, is) = elim (Bool-cases (leb b hi)) [
          | inl inside ↦ now m (e ∙ is ∙ constant b low (ground (arith, inside)))
          | inr past ↦ (b, ground (arith, past), inr (ground (arith, past, high, next)), e ∙ is)
        ]

    abbrev staying_near : RangeKept node
    staying_near = record {
      Holds = λ m changed. Near m;
      Applied = λ hi m changed. From hi (said j m);
      moved = λ m changed hi h. subst (From hi) (sym (said-moved j m hi)) h;
      ranged = ranged-Near;
    }

    sync-Near :
        1 ≤ cfg.chunk
        → (target : ℕ) (t : Sync World) → t.map.cursor + 1 ≤ target
        → Near t.map
        → Post (λ a u. Near u.map) (λ u. Near u.map) (sync node cfg (t.map.cursor + 1) target t)
    sync-Near chunk target t h near = settle (sync node cfg (t.map.cursor + 1) target t) (
        sync-Done node cfg (t.map.cursor + 1) target staying_near
          (λ candidates m changed. pruned-said From j candidates m) t refl h chunk near)
      where
        settle :
            (r : Result Fault (Unit {0}) × Sync World)
            → Post
                (λ a u. Done node cfg (t.map.cursor + 1) target staying_near u)
                (Within node cfg (t.map.cursor + 1) target staying_near)
                r
            → Post (λ a u. Near u.map) (λ u. Near u.map) r
        settle (ok a, u) (at_end, n) = n
        settle (err e, u) (ne, (low, high, n)) = (ne, n)

    -- What the map says may now be ahead of the cursor, but not of the top.
    Repaired-Near :
        (m : BalanceMap) (s : Watched World)
        → m.cursor ≤ top
        → Near m
        → Repaired node truth honest.balances j m cfg.reorg_window s
        → Near s.map
    Repaired-Near m s below near (inl left) = subst Near (sym left) near
    Repaired-Near m s below near (inr (moved, inl read)) =
        (m.cursor - cfg.reorg_window, omega (arith, moved), inl (omega (arith, moved)), read)
    Repaired-Near m s below (b, low, high, is) (inr (moved, inr same)) =
        (b, omega (arith, moved, low), inr (ground (arith, high, below)), same ∙ is)

    repair-Near :
        Keeps
          (λ t. (t.map.cursor ≤ top) × Near t.map)
          (repair_if_needed node cfg)
          (λ a t. Near t.map)
          (λ t. Near t.map)
    unfolding repair_if_needed
    repair-Near = record {
      post = λ s (below, near). elim (Bool-cases (is_reorgable cfg.tip)) [
        | inr final ↦ rw final near
        | inl live ↦ rw live (
            go s below near (repair_if_reorged node cfg.reorg_window (watched node cfg s)) (
              (repair_if_reorged-Repaired node truth honest.balances j s.map cfg.reorg_window).post
                (watched node cfg s) refl))
      ];
    }
      where
        go :
            (s : Sync World)
            → s.map.cursor ≤ top
            → Near s.map
            → (r : Result Fault (Unit {0}) × Watched World)
            → Post
                (λ t u. Repaired node truth honest.balances j s.map cfg.reorg_window u)
                (λ u. u.map ≡ s.map)
                r
            → Post (λ a t. Near t.map) (λ t. Near t.map) (r.0, rewatched node cfg s r.1)
        go s below near (ok t, u) q = Repaired-Near s.map u below near q
        go s below near (err e, u) (real, left) = (real, subst Near (sym left) near)

    pub pass-Near :
        1 ≤ cfg.chunk
        → (s : Follower World) → s.inner.map.cursor ≤ top
        → Near s.inner.map
        → Post (λ t u. Near u.inner.map) (λ u. Near u.inner.map) (pass node cfg s)
    pass-Near chunk s below near =
        (pass-Keeps node cfg Near _ (on_inner-Keeps node cfg Near _ _ _ _ (λ t i. i) repair-Near)
            (sync-Near chunk)).post
          s (below, near)

-- The highest block that the cursor has been at between the rounds.
abbrev pub highest :
    {node : Node} {cfg : FollowConfig} {r r' : Rounds node.World} → Runs node cfg r r' → ℕ
highest {r = r} here = r.follower.inner.map.cursor
highest (later {t = t} before done) = max (highest before) t.follower.inner.map.cursor

cursor_le_highest :
    {node : Node} {cfg : FollowConfig} {r r' : Rounds node.World} (runs : Runs node cfg r r')
    → r'.follower.inner.map.cursor ≤ highest runs
cursor_le_highest here = omega arith
cursor_le_highest (later before done) = omega arith

-- Let the chunk be positive, and the node honest about a 20-byte address that is not zero, its logs
-- telling of it whenever its balances change. Let the map say of the address what it has at the
-- cursor. Whatever the tip, whatever the node answers when it is asked for a block's hash, whichever
-- passes fail and wherever: after any number of passes the map says of the address what it has at
-- some block from the cursor on, and no later than the highest that the cursor has been at between
-- passes, as long as the program does not panic.
pub Runs-Near :
    (node : Node) (cfg : FollowConfig) (truth : ℕ → Address → Reading) (treasury : ℕ → Address)
    (j : Address) {r r' : Rounds node.World}
    → 1 ≤ cfg.chunk
    → IsHolder j
    → IsThorough node truth treasury j
    → (runs : Runs node cfg r r') → IsRight truth j r.follower.inner.map
    → (b : ℕ) × (r'.follower.inner.map.cursor ≤ b)
      × (b ≤ highest runs)
      × (said j r'.follower.inner.map ≡ truth b j)
unfolding round
Runs-Near node cfg truth treasury j {r} chunk holder honest here right =
    (r.follower.inner.map.cursor, omega arith, omega arith, right)
Runs-Near node cfg truth treasury j {r' = r'} chunk holder honest (later {s = s} before done)
      right =
    let (b, low, high, is) = Runs-Near node cfg truth treasury j chunk holder honest before right in
    let (b', low', high', is') =
      settle_pass-Held node cfg (Near node cfg truth treasury j (highest before)) s.failures
        (pass node cfg s.follower) r'
        (pass-Near node cfg truth treasury j (highest before) holder honest chunk s.follower
          (cursor_le_highest before) (b, low, inr high, is))
        done in
    (b', low', ground (arith, high'), is')
