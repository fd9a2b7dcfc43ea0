-- ===== src/Follow/Watch.antt =====
-- src/follow/watch.rs: the reorg tripwire, with the addresses of the blocks that a reorg could undo.
-- `record` is `record_touched` here.
pub mod Right
pub mod Near
pub mod Steady
use poulpy_eth_pir_demo.Base.{
  ℕ, ◌-◌, Bool, false, Option, none, some, List, [], ◌∷◌, ◌++◌, length, nat_eq, ltb, if◌then◌else◌,
}
use poulpy_eth_pir_demo.Base.Equality.{◌==◌, byte_list_eq}
use poulpy_eth_pir_demo.Base.Table
use poulpy_eth_pir_demo.Base.Table.{Table}
use poulpy_eth_pir_demo.Base.Run.{ok, err, Run, pure, ◌>>=◌, ◌>>◌}
use poulpy_eth_pir_demo.Tokens.{Address, Hash}
use poulpy_eth_pir_demo.Balances.{BalanceMap, Reading}
use poulpy_eth_pir_demo.Balances
use poulpy_eth_pir_demo.Chain.Touch.{no_touch}
use poulpy_eth_pir_demo.Chain.Node.{Node, Fault, panic}
use poulpy_eth_pir_demo.Chain.Rpc.{read_balances}
use poulpy_eth_pir_demo.Chain.Tip.{block_hash}

pub record ChainWatch : Type 0 where
  pub cursor_hash : Option Hash
  pub recent : List (ℕ × List Address)

abbrev pub no_watch : ChainWatch
no_watch = record { cursor_hash = none; recent = [] }

unfoldable pub record_touched : ℕ → List Address → ChainWatch → ChainWatch
record_touched through addrs watch =
    if nat_eq (length addrs) 0
    then watch
    else record watch { recent = watch.recent ++ ((through, addrs) ∷ []) }

unfoldable pub drop_before : ℕ → List (ℕ × List Address) → List (ℕ × List Address)
drop_before keep_from [] = []
drop_before keep_from ((through, addrs) ∷ rest) =
    let dropped = drop_before keep_from rest in
    if ltb through keep_from then dropped else (through, addrs) ∷ rest

-- `-` stops at 0, as `saturating_sub` does.
unfoldable pub trim : ℕ → ℕ → ChainWatch → ChainWatch
trim cursor window watch = record watch { recent = drop_before (cursor - window) watch.recent }

unfoldable pub add_all : List Address → Table Address (Unit {0}) → Table Address (Unit {0})
add_all [] seen = seen
add_all (a ∷ rest) seen = add_all rest (Table.insert a tt seen)

unfoldable pub add_recent :
    List (ℕ × List Address) → Table Address (Unit {0}) → Table Address (Unit {0})
add_recent [] seen = seen
add_recent ((through, addrs) ∷ rest) seen = add_recent rest (add_all addrs seen)

unfoldable pub addresses : ChainWatch → List Address
addresses watch = Table.keys (add_recent watch.recent [])

-- Balances at the block to go back to, with no block seen; `none` is the panic of `apply`.
unfoldable pub apply_stale : Table Address Reading → BalanceMap → Option BalanceMap
apply_stale [] m = some m
apply_stale ((addr, reading) ∷ rest) m = elim (Balances.apply addr reading no_touch m) [
  | none ↦ none
  | some (m', applied) ↦ apply_stale rest m'
]

-- What a repair changes: the world, the watch and the map.
pub record Watched (World : Type 0) : Type 0 where
  pub world : World
  pub watch : ChainWatch
  pub map : BalanceMap

module _ (node : Node) where
  open node use {World}

  abbrev pub on_watched_world : {A : Type 0} → Run World Fault A → Run (Watched World) Fault A
  on_watched_world m s = let (r, w) = m s.world in (r, record s { world = w })

  unfoldable pub stale_into : Option BalanceMap → Run (Watched World) Fault (Unit {0})
  stale_into none s = (err panic, s)
  stale_into (some m) s = (ok tt, record s { map = m })

  unfoldable pub correct_stale_addresses : List Address → ℕ → Run (Watched World) Fault (Unit {0})
  correct_stale_addresses [] rewind_to = pure tt
  correct_stale_addresses (a ∷ rest) rewind_to = do
    readings ← on_watched_world (read_balances node (a ∷ rest) rewind_to)
    λ s. stale_into (apply_stale readings s.map) s

  -- The map goes back, and the watch forgets.
  unfoldable pub rewind : ℕ → Run (Watched World) Fault (Unit {0})
  rewind rewind_to s = (
    ok tt,
    record s {
      map = record (s.map) { cursor = rewind_to };
      watch = record { cursor_hash = none; recent = [] };
    },
  )

  unfoldable pub repair : ℕ → Run (Watched World) Fault (Unit {0})
  repair window s =
      let rewind_to = s.map.cursor - window in
      (correct_stale_addresses (addresses s.watch) rewind_to >> rewind rewind_to) s

  unfoldable pub same_hash : Option Hash → Hash → Bool
  same_hash none known = false
  same_hash (some h) known = h == known

  unfoldable pub check_hash : Option Hash → ℕ → Run (Watched World) Fault (Unit {0})
  check_hash none window s = (ok tt, s)
  check_hash (some known) window s =
      (do
        now ← on_watched_world (block_hash node s.map.cursor)
        if same_hash now known then pure tt else repair window)
        s

  unfoldable pub repair_if_reorged : ℕ → Run (Watched World) Fault (Unit {0})
  repair_if_reorged window s = check_hash s.watch.cursor_hash window s

  unfoldable pub set_hash : Option Hash → Run (Watched World) Fault (Unit {0})
  set_hash h s = (ok tt, record s { watch = record (s.watch) { cursor_hash = h } })

  unfoldable pub store_cursor_hash : ℕ → Run (Watched World) Fault (Unit {0})
  store_cursor_hash cursor = do h ← on_watched_world (block_hash node cursor); set_hash h
