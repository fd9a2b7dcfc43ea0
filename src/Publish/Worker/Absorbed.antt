-- ===== src/Publish/Worker/Absorbed.antt =====
-- The worker's copy after it has absorbed a batch.
use poulpy_eth_pir_demo.Base.{
  ◌≡◌, refl, subst, ◌∙◌, [], ◌∷◌, Option, none, some, Bool, true, false, Bool-cases, inl, inr,
  if◌then◌else◌,
}
use poulpy_eth_pir_demo.Base.Equality.{◌==◌, byte_list_eq, bytes_eq_iff}
use poulpy_eth_pir_demo.Base.Table
use poulpy_eth_pir_demo.Base.Table.{Table, Unique}
use poulpy_eth_pir_demo.Base.Run.{Result, ok, err}
use poulpy_eth_pir_demo.Tokens.{Address}
use poulpy_eth_pir_demo.Record.{Entry}
use poulpy_eth_pir_demo.Publish.Current.{UpdateBatch, told, get-record_current_value}
use poulpy_eth_pir_demo.Publish.Worker.{
  Server, PirConfig, Worker, absorb, absorb_one, record_absorbed,
}

module _ (server : Server) (cfg : PirConfig) where
  open server use {State, update}

  -- The server's state when the update of an address comes up.
  abbrev pub offered : Address → UpdateBatch → Worker State → State
  offered j [] w = w.server
  offered j ((addr, e) ∷ rest) w =
      if addr == j then w.server else offered j rest (absorb_one server cfg addr e w)

  abbrev pub is_ok : Result (Unit {0}) (Unit {0}) → Bool
  is_ok (ok t) = true
  is_ok (err e) = false

  -- What the copy holds of an address: the update's, with none if it has no balance, if the server
  -- accepts it, and else what it held.
  abbrev pub taken : Address → Option Entry → State → Option Entry → Option Entry
  taken j none s held = held
  taken j (some e) s held = if is_ok (update j e s).0 then told (some e) held else held

  get-absorb_one :
      (addr j : Address) (e : Entry) (w : Worker State)
      → Table.get j (absorb_one server cfg addr e w).current ≡ (
          if is_ok (update addr e w.server).0
          then (if addr == j then told (some e) (Table.get j w.current) else Table.get j w.current)
          else Table.get j w.current)
  unfolding absorb_one record_absorbed
  get-absorb_one addr j e w = go (update addr e w.server)
    where
      go :
          (r : Result (Unit {0}) (Unit {0}) × State)
          → Table.get j
              (elim r.0 as (λ x. Worker State) [
                | ok t ↦ record_absorbed server cfg addr e (record w { server = r.1 })
                | err x ↦ record w { server = r.1 }
              ]).current
            ≡ (if is_ok r.0
                then (if addr == j
                    then told (some e) (Table.get j w.current)
                    else Table.get j w.current)
                else Table.get j w.current)
      go (ok t, s) = get-record_current_value addr j e w.current
      go (err x, s) = refl

  same_either : {o : Option Entry} (b : Bool) → (if b then o else o) ≡ o
  same_either true = refl
  same_either false = refl

  -- After a batch that names no address twice, the worker's copy holds of each address what the batch
  -- says of it, with no record where no balance is left, if the server accepts that update when it
  -- comes up, and what it held before if the server rejects it or there is none.
  pub get-absorb :
      (batch : UpdateBatch) (w : Worker State) (j : Address)
      → Unique batch
      → Table.get j (absorb server cfg batch w).current
        ≡ taken j (Table.get j batch) (offered j batch w) (Table.get j w.current)
  unfolding absorb Table.get
  get-absorb [] w j once = refl
  get-absorb ((addr, e) ∷ rest) w j (fresh, once) = elim (Bool-cases (addr == j)) [
    | inl here ↦
        let same : addr ≡ j = (bytes_eq_iff addr j).0 here in
        let gone : Table.get j rest ≡ none = subst (λ a. Table.get a rest ≡ none) same fresh in
        let one = rw here at (get-absorb_one addr j e w) in
        let next = absorb_one server cfg addr e w in
        rw (here, get-absorb rest next j once, gone)
          (subst
            (λ (a : Address). Table.get j next.current ≡ (
              if is_ok (update a e w.server).0
              then told (some e) (Table.get j w.current)
              else Table.get j w.current))
            same one)
    | inr there ↦
        let one : Table.get j (absorb_one server cfg addr e w).current ≡ Table.get j w.current =
          rw there at (get-absorb_one addr j e w) ∙ same_either _ in
        rw (there, get-absorb rest (absorb_one server cfg addr e w) j once, one) refl
  ]
