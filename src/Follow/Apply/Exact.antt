-- ===== src/Follow/Apply/Exact.antt =====
-- What the map says of an address after a range is what an honest node says at the range's end.
use poulpy_eth_pir_demo.Base.{
  ℕ, Bool, true, false, ◌≡◌, refl, sym, ap, ◌∙◌, inl, inr, Option, none, some, [], ◌∷◌, All,
  if◌then◌else◌, arith, Bool-cases, Option-cases,
}
use poulpy_eth_pir_demo.Base.Equality.{◌==◌, byte_list_eq, bytes_eq_iff}
use poulpy_eth_pir_demo.Base.Table
use poulpy_eth_pir_demo.Base.Table.{Table, Unique, or_default, is_some}
use poulpy_eth_pir_demo.Tokens.{Address}
use poulpy_eth_pir_demo.Record.{Entry}
use poulpy_eth_pir_demo.Balances.{Reading, BalanceMap, is_zero}
use poulpy_eth_pir_demo.Balances
use poulpy_eth_pir_demo.Balances.Apply.{refreshed, after, get-after}
use poulpy_eth_pir_demo.Chain.Touch.{Touch, no_touch}
use poulpy_eth_pir_demo.Chain.Events.{Touched}
use poulpy_eth_pir_demo.Chain.Node.{Node}
use poulpy_eth_pir_demo.Chain.Rpc.{read_balances}
use poulpy_eth_pir_demo.Chain.Rpc.Exact.{AnswersAt, is_among, read_balances-exact}
use poulpy_eth_pir_demo.Follow.Apply.Next
use poulpy_eth_pir_demo.Follow.Apply.Next.{map-next}
use poulpy_eth_pir_demo.Follow.Apply.Covers.{apply_reading-inversion}
use poulpy_eth_pir_demo.Follow.Apply.{
  Outputs, apply_reading, apply_readings, or_panic, apply_touched,
}
use poulpy_eth_pir_demo.Follow.Syncer.Ends.{Keeps, Always, bind-Keeps, or_panic-Keeps}

-- The balances that the map says an address has: none if it holds no record.
abbrev pub balances_of : Option Entry → Reading
balances_of none = record { usdt = 0; usdc = 0 }
balances_of (some e) = record { usdt = e.usdt; usdc = e.usdc }

abbrev pub said : Address → BalanceMap → Reading
said j m = balances_of (Balances.get j m)

refreshed-balances :
    (known : Option Entry) (r : Reading) (seen : Touch)
    → balances_of (if is_zero r then none else some (refreshed known r seen)) ≡ r
unfolding is_zero
refreshed-balances known r seen = ground arith

-- A reading sets what the map says of its address.
pub after-said :
    (known : Option Entry) (addr : Address) (r : Reading) (seen : Touch) (m : BalanceMap)
    (j : Address)
    → said j (after known addr r seen m) ≡ (if addr == j then r else said j m)
after-said known addr r seen m j =
    ap balances_of (get-after known addr j r seen m) ∙ settle (addr == j)
  where
    settle :
        (here : Bool)
        → balances_of (
            if here
            then if is_zero r then none else some (refreshed known r seen)
            else Balances.get j m)
          ≡ (if here then r else said j m)
    settle true = refreshed-balances known r seen
    settle false = refl

next-said :
    (seen : Touch) (addr : Address) (r : Reading) (o : Outputs) (j : Address)
    → said j (Next.next seen addr r o).map ≡ (if addr == j then r else said j o.map)
next-said seen addr r o j =
    ap (said j) (map-next seen addr r o) ∙ after-said (Next.known seen addr r o) addr r seen o.map j

module _ (truth : Address → Reading) where
  abbrev pub IsTrue : Address × Reading → Type 0
  IsTrue (addr, r) = r ≡ truth addr

  apply_readings-said :
      (touched : Touched) (readings : Table Address Reading) (o o' : Outputs)
      → All IsTrue readings
      → apply_readings touched readings o ≡ some o'
      → (j : Address)
      → said j o'.map ≡ (if Table.contains_key j readings then truth j else said j o.map)
  unfolding apply_readings Table.contains_key Table.get
  apply_readings-said touched [] o o' right h j = ap (λ (p : Outputs). said j p.map) (sym same_pass)
    where
      same_pass : o ≡ o'
      same_pass = ground (arith, h)
  apply_readings-said touched ((addr, r) ∷ rest) o o' (here, right) h j =
      let seen : Touch = or_default no_touch (Table.get addr touched) in
      elim (Option-cases (apply_reading seen addr r o)) [
        | inl panicked ↦ absurd (ground (arith, h, panicked))
        | inr (o₁, done) ↦
            let step : said j o₁.map ≡ (if addr == j then r else said j o.map) =
              ap (λ (p : Outputs). said j p.map) (apply_reading-inversion seen addr r o o₁ done)
              ∙ next-said seen addr r o j in
            elim (Bool-cases (addr == j)) [
              | inl same ↦ ground (
                arith,
                apply_readings-said touched rest o₁ o' right (ground (arith, h, done)) j,
                step,
                here ∙ ap truth ((bytes_eq_iff addr j).0 same),
              )
              | inr other ↦ ground (
                arith,
                apply_readings-said touched rest o₁ o' right (ground (arith, h, done)) j,
                step,
              )
            ]
      ]

is_among-keys :
    {V : Type 0} (j : Address) (m : Table Address V)
    → is_among j (Table.keys m) ≡ Table.contains_key j m
unfolding Table.contains_key Table.get
is_among-keys j [] = refl
is_among-keys j ((a, v) ∷ m) = ground (arith, is_among-keys j m)

module _ (node : Node) (at : ℕ) (truth : Address → Reading) (honest : AnswersAt node at truth) where
  -- An address touched has its balances at the block; of another the map says what it said.
  abbrev pub Updates : Touched → Outputs → Outputs → Type 0
  Updates touched o o' =
      (j : Address)
      → said j o'.map ≡ (if Table.contains_key j touched then truth j else said j o.map)

  pub apply_touched-Updates :
      (touched : Touched) (o : Outputs)
      → Keeps Always (apply_touched node at touched o) (λ r w. Updates touched o r.0) Always
  unfolding apply_touched
  apply_touched-Updates touched o =
      bind-Keeps (read_balances node (Table.keys touched) at) _
        (read_balances-exact truth node at (Table.keys touched) honest)
        (λ readings. record {
          post = λ w (once, has).
              (bind-Keeps {Q = λ o' w. Updates touched o o'}
                  (or_panic node (apply_readings touched readings o)) _
                  (or_panic-Keeps node _ (λ o' e j. settle readings o' once has e j))
                  (λ o'. record { post = λ w q. q })).post
                w tt;
        })
    where
      settle :
          (readings : Table Address Reading) (o' : Outputs)
          → Unique readings
          → ((j : Address)
              → Table.get j readings
                ≡ (if is_among j (Table.keys touched) then some (truth j) else none))
          → apply_readings touched readings o ≡ some o'
          → Updates touched o o'
      settle readings o' once has e j =
          unfold Table.contains_key in
          ground (
            arith,
            apply_readings-said truth touched readings o o'
                (Table.All-get (IsTrue truth) readings once (λ i r p. ground (arith, p, has i))) e
                j,
            has j,
            is_among-keys j touched,
          )
