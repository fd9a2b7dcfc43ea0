-- ===== src/Serve/Started.antt =====
-- What the PIR side holds while the server runs.
use poulpy_eth_pir_demo.Base.{
  ℕ, ◌≤◌, ◌≡◌, refl, ◌∙◌, Option, none, some, true, false, List, arith, Bool-cases, Option-cases,
  inl, inr,
}
use poulpy_eth_pir_demo.Base.Equality.{byte_list_eq}
use poulpy_eth_pir_demo.Base.Table
use poulpy_eth_pir_demo.Base.Run.{Result, ok, err}
use poulpy_eth_pir_demo.Tokens.{Address, Hash}
use poulpy_eth_pir_demo.Record.{Entry}
use poulpy_eth_pir_demo.Balances.{BalanceMap, Reading}
use poulpy_eth_pir_demo.Balances
use poulpy_eth_pir_demo.Balances.Invariant.{HoldsBalances}
use poulpy_eth_pir_demo.Snapshot.{ErrorKind}
use poulpy_eth_pir_demo.Chain.Node.{Node}
use poulpy_eth_pir_demo.Chain.Events.Words.{IsHolder}
use poulpy_eth_pir_demo.Publish.Current.{PirSnapshot}
use poulpy_eth_pir_demo.Publish.Directory.{from_blob}
use poulpy_eth_pir_demo.Publish.Store
use poulpy_eth_pir_demo.Publish.Store.{Files, Loaded, save_index}
use poulpy_eth_pir_demo.Publish.Worker.{
  Server, Worker, PirConfig, run_thread, open_server, start_worker, save_checkpoint,
  publish_directory, expose,
}
use poulpy_eth_pir_demo.Follow.Apply.Exact.{balances_of}
use poulpy_eth_pir_demo.Follow.Syncer.{Sync, FollowConfig}
use poulpy_eth_pir_demo.Follow.Syncer.Exact.{IsHonest}
use poulpy_eth_pir_demo.Follow.Loop.{Channel, Follower}
use poulpy_eth_pir_demo.Follow.Loop.InLine.{Follows, Passes, here, later, absorbed, Passes-Follows}
use poulpy_eth_pir_demo.Follow.Loop.Right.{IsRight, sync-IsRight, pass-IsRight_armed}
use poulpy_eth_pir_demo.Follow.Loop.Armed.{HasNoReorgs}
use poulpy_eth_pir_demo.Options.{
  ServeFlags, Serving, serve_in_range, follow_args, serving_of, follow_config, progress_config,
  pir_config,
}
use poulpy_eth_pir_demo.Serve.{
  snapshot, CatchesUp, begin_following, start_pir, check_endpoint, NotStarted, pir_not_ready,
}
use poulpy_eth_pir_demo.Serve.Caught.{CatchesUp-Held, sync-balances, snapshot-Serves}

module _ (server : Server) (cfg : PirConfig) where
  open server use {State}

  abbrev Begins : PirSnapshot → Option (Worker State) → Type 0
  Begins initial none = Unit
  Begins initial (some w) = w.current ≡ initial

  expose-current :
      (blob : List ℕ) (w : Worker State) → (expose server cfg blob w).current ≡ w.current
  unfolding expose
  expose-current blob w = elim (Option-cases (from_blob server.read_from blob)) [
    | inl other ↦ rw (other, expose) refl
    | inr (d, parsed) ↦ rw (parsed, expose) refl
  ]

  publish_directory-current :
      (w : Worker State) → (publish_directory server cfg w).current ≡ w.current
  unfolding publish_directory
  publish_directory-current w = elim (Option-cases (server.try_full w.server)) [
    | inl pending ↦ rw (pending, publish_directory) refl
    | inr (blob, full) ↦ elim (Bool-cases (server.can_write_index w.server)) [
      | inl writes ↦
          rw (full, publish_directory, writes)
            (expose-current blob (record w { files = save_index blob w.files }))
      | inr fails ↦ rw (full, publish_directory, fails) refl
    ]
  ]

  save_checkpoint-current : (w : Worker State) → (save_checkpoint server cfg w).current ≡ w.current
  unfolding save_checkpoint
  save_checkpoint-current w = elim (Option-cases (server.checkpoint w.server)) [
    | inl gone ↦ rw (gone, save_checkpoint) refl
    | inr (c, there) ↦ rw (there, save_checkpoint) refl
  ]

  open_server-Begins :
      (loaded : Result ErrorKind (Option Loaded)) (initial : PirSnapshot) (files : Files)
      → Begins initial
          (open_server server cfg loaded initial (start_worker server cfg initial files))
  unfolding open_server start_worker
  open_server-Begins (err e) initial files = tt
  open_server-Begins (ok (some saved)) initial files =
      elim (Option-cases (server.restore saved.directory saved.keys initial)) [
        | inl refused ↦ rw (refused, open_server) tt
        | inr (s, restored) ↦ rw (restored, open_server) refl
      ]
  open_server-Begins (ok none) initial files = elim (Option-cases (server.init initial)) [
    | inl refused ↦ rw (refused, open_server) tt
    | inr (s, fresh) ↦
        rw (fresh, open_server) (save_checkpoint-current (start_worker server cfg initial files s))
  ]

  -- The thread begins with the records that it is given.
  run_thread-Begins :
      (directory_version : List ℕ → Result ErrorKind ℕ) (initial : PirSnapshot) (files : Files)
      → Begins initial (run_thread server cfg directory_version initial files)
  unfolding run_thread
  run_thread-Begins directory_version initial files =
      go
        (open_server server cfg (Store.load directory_version files) initial
          (start_worker server cfg initial files))
        (open_server-Begins (Store.load directory_version files) initial files)
    where
      go :
          (o : Option (Worker State))
          → Begins initial o
          → Begins initial (elim o as (λ x. Option (Worker State)) [
            | none ↦ none
            | some w ↦
                let w' = publish_directory server cfg w in
                let (t, s) = server.now w'.server in
                some (record w' {
                  server = s;
                  len_at_compaction = server.server_len w'.server;
                  last_publish = t;
                })
          ])
      go none b = tt
      go (some w) b = publish_directory-current w ∙ b

Passes-IsRight :
    {node : Node} {cfg : FollowConfig} {hash_of : ℕ → Option Hash} {s t : Follower node.World}
    (truth : ℕ → Address → Reading) (treasury : ℕ → Address) (j : Address) (copy : PirSnapshot)
    → HasNoReorgs node cfg hash_of
    → 1 ≤ cfg.chunk
    → IsHolder j
    → IsHonest node truth treasury j
    → Passes node cfg s t
    → Follows cfg hash_of copy s
    → IsRight truth j s.inner.map
    → IsRight truth j t.inner.map
Passes-IsRight truth treasury j copy no_reorgs chunk holder honest here follows right = right
Passes-IsRight {node} {cfg} {hash_of} truth treasury j copy no_reorgs chunk holder honest
      (later {t = t} before done) follows right =
    rw done at (
      pass-IsRight_armed node cfg truth treasury j hash_of no_reorgs chunk holder honest t
        (Passes-IsRight truth treasury j copy no_reorgs chunk holder honest before follows right)
        (Passes-Follows copy no_reorgs chunk before follows).armed)

module _ (node : Node) (server : Server) (directory_version : List ℕ → Result ErrorKind ℕ)
    (serving : Serving) (files : Files) where
  open node use {World}

  -- The thread has the map's records, and the follower nothing sent.
  started :
      (s : Sync World) (w : Worker server.State) (f : Follower World)
      → start_pir node server directory_version serving files s ≡ ok (w, f)
      → (w.current ≡ snapshot s.map) × (f ≡ begin_following node s)
  unfolding start_pir
  started s w f e =
      go (run_thread server cfg directory_version (snapshot s.map) files)
        (run_thread-Begins server cfg directory_version (snapshot s.map) files)
        (check_endpoint node serving) e
    where
      cfg : PirConfig
      cfg = pir_config serving.rebuild_every serving.compact_after serving.compact_tail_percent

      go :
          (o : Option (Worker server.State))
          → Begins server cfg (snapshot s.map) o
          → (r : Result (NotStarted node) (Unit {0}))
          → (elim o as (λ x. Result (NotStarted node) (Worker server.State × Follower World)) [
            | none ↦ err pir_not_ready
            | some w' ↦
                elim r as (λ x. Result (NotStarted node) (Worker server.State × Follower World)) [
                  | ok t ↦ ok (w', begin_following node s)
                  | err e ↦ err e
                ]
          ])
            ≡ ok (w, f)
          → (w.current ≡ snapshot s.map) × (f ≡ begin_following node s)
      go none b r e = absurd (cc e)
      go (some w') b (err x) e = absurd (cc e)
      go (some w') b (ok t) e = (cc (b, e), cc e)

begin_following-Follows :
    (node : Node) (cfg : FollowConfig) (hash_of : ℕ → Option Hash) (s : Sync node.World)
    → HoldsBalances s.map
    → Follows cfg hash_of (snapshot s.map) (begin_following node s)
unfolding begin_following
begin_following-Follows node cfg hash_of s balances = record {
  channel = _;
  connected = refl;
  serves = snapshot-Serves s.map balances;
  balances = balances;
  armed = inr (inl refl);
}

-- A record that says what an address has, if it has something.
shown :
    (o : Option Entry) (r : Reading)
    → balances_of o ≡ r
    → Balances.is_zero r ≡ false
    → (e : Entry) × (o ≡ some e) × (balances_of (some e) ≡ r)
shown none r is h = absurd (unfold Balances.is_zero in ground (arith, is, h))
shown (some e) r is h = (e, refl, is)

-- Let the flags of `serve` be in range, the tip be finalized or the node give each block one hash only,
-- and the node be honest about a 20-byte address that is not zero. Let the map be opened with no address twice and no record without a
-- balance, and say of the address what it has at the map's cursor. Once the map has caught up, after
-- whatever failures, and the PIR thread and the endpoint have started, after any number of passes
-- that succeed the thread's records, with the updates absorbed that it was sent, hold the balances
-- that the address has at the map's cursor, if it has any.
pub serve-published :
    (node : Node) (server : Server) (directory_version : List ℕ → Result ErrorKind ℕ)
    (files : Files) (flags : ServeFlags) (hash_of : ℕ → Option Hash) (truth : ℕ → Address → Reading)
    (treasury : ℕ → Address) (j : Address) {s s' : Sync node.World} {w : Worker server.State}
    {f t : Follower node.World}
    → serve_in_range flags ≡ true
    → HasNoReorgs node (progress_config (follow_args flags)) hash_of
    → IsHolder j
    → IsHonest node truth treasury j
    → HoldsBalances s.map
    → IsRight truth j s.map
    → CatchesUp node (progress_config (follow_args flags)) s' s
    → start_pir node server directory_version (serving_of flags) files s' ≡ ok (w, f)
    → Passes node (progress_config (follow_args flags)) f t
    → Balances.is_zero (truth t.inner.map.cursor j) ≡ false
    → (tx : Channel) × (t.updates ≡ some tx)
      × (e : Entry) × (Table.get j (absorbed tx.sent w.current) ≡ some e)
      × (balances_of (some e) ≡ truth t.inner.map.cursor j)
serve-published node server directory_version files flags hash_of truth treasury j {s} {s'} {w} {f}
      {t} range no_reorgs holder honest balances right caught begun passes has =
    let cfg = progress_config (follow_args flags) in
    let chunk : 1 ≤ cfg.chunk =
      unfold serve_in_range in
      unfold progress_config in unfold follow_config in unfold follow_args in ground arith in
    let balances' =
      CatchesUp-Held node cfg HoldsBalances (sync-balances node cfg chunk) caught balances in
    let right' =
      CatchesUp-Held node cfg (IsRight truth j)
        (sync-IsRight node cfg truth treasury j chunk holder honest) caught right in
    let (same, from_there) =
      started node server directory_version (serving_of flags) files s' w f begun in
    let follows : Follows cfg hash_of (snapshot s'.map) f =
      rw from_there (begin_following-Follows node cfg hash_of s' balances') in
    let at_start : IsRight truth j f.inner.map = rw from_there (unfold begin_following in right') in
    let now = Passes-Follows (snapshot s'.map) no_reorgs chunk passes follows in
    let right_now =
      Passes-IsRight truth treasury j (snapshot s'.map) no_reorgs chunk holder honest passes follows
        at_start in
    let (e, held, is) =
      shown (Balances.get j t.inner.map) (truth t.inner.map.cursor j) right_now has in
    (now.channel, now.connected, e, rw same (now.serves j e held), is)
