-- ===== src/Report/Read.antt =====
-- What the JSON of a report says can be read off it.
use poulpy_eth_pir_demo.Base.{
  ℕ, ◌/◌, ◌^◌, ◌≡◌, ◌≢◌, refl, ap, sym, ◌∙◌, Bool, true, false, Option, none, some, List, [], ◌∷◌,
  All, All-append, append_assoc, inl, inr, arith,
}
use poulpy_eth_pir_demo.Text.{Text, ascii, to_decimal}
use poulpy_eth_pir_demo.Text.Decimal.{
  to_decimal_padded-IsDigit, to_decimal-injective, digits_without, to_decimal_without,
}
use poulpy_eth_pir_demo.Text.Filled.{Gap, fill, Fits, fill-injective}
use poulpy_eth_pir_demo.Record.{Entry, format_units, decimals}
use poulpy_eth_pir_demo.Report.{
  Report, token_balance, found, not_held, as_of_block, bool_text, to_json,
}

-- A report, with an entry if the server holds one.
abbrev pub report_on : Text → Option Entry → Report
report_on address none = not_held address
report_on address (some e) = found address e

abbrev gaps : List Gap
gaps =
    (ascii "{\"address\":\"", b'"')
    ∷ (ascii ",\"held\":", b',')
    ∷ (ascii "\"asOfBlock\":", b',')
    ∷ (ascii "\"usdt\":{\"symbol\":\"USDT\",\"amount\":\"", b'"')
    ∷ (ascii ",\"raw\":\"", b'"')
    ∷ (ascii ",\"lastChangeBlock\":", b'}')
    ∷ (ascii ",\"usdc\":{\"symbol\":\"USDC\",\"amount\":\"", b'"')
    ∷ (ascii ",\"raw\":\"", b'"')
    ∷ (ascii ",\"lastChangeBlock\":", b'}')
    ∷ []

abbrev values : Report → List Text
values r =
    r.address
    ∷ bool_text r.held
    ∷ to_decimal (as_of_block r)
    ∷ r.usdt.amount
    ∷ to_decimal r.usdt.raw
    ∷ to_decimal r.usdt.last_change_block
    ∷ r.usdc.amount
    ∷ to_decimal r.usdc.raw
    ∷ to_decimal r.usdc.last_change_block
    ∷ []

json_filled : (r : Report) → to_json r ≡ fill (ascii "}") gaps (values r)
unfolding to_json
json_filled r = simp append_assoc

amount_without : (v : ℕ) → All (λ c. c ≢ b'"') (format_units v)
unfolding format_units
amount_without v =
    All-append (λ c. c ≢ b'"') (to_decimal (v / 10 ^ decimals)) _
      (to_decimal_without b'"' _ (inl (omega arith)))
      (omega arith, digits_without b'"' _ (inl (omega arith)) (to_decimal_padded-IsDigit 6 _))

bool_without : (b : Bool) → All (λ c. c ≢ b',') (bool_text b)
unfolding bool_text
bool_without true = omega arith
bool_without false = omega arith

IsFrom : Report → Type 0
IsFrom r = (r.usdt.amount ≡ format_units r.usdt.raw) × (r.usdc.amount ≡ format_units r.usdc.raw)

report_on-IsFrom : (a : Text) (o : Option Entry) → IsFrom (report_on a o)
unfolding found not_held token_balance IsFrom
report_on-IsFrom a none = (refl, refl)
report_on-IsFrom a (some e) = (refl, refl)

address-report_on : (a : Text) (o : Option Entry) → (report_on a o).address ≡ a
unfolding found not_held
address-report_on a none = refl
address-report_on a (some e) = refl

report_Fits : (r : Report) → IsFrom r → All (λ c. c ≢ b'"') r.address → Fits gaps (values r)
unfolding IsFrom
report_Fits r (usdt, usdc) h =
    let held = bool_without r.held in
    let as_of = to_decimal_without b',' (as_of_block r) (inl (omega arith)) in
    let usdt_amount : All (λ c. c ≢ b'"') r.usdt.amount = rw usdt (amount_without r.usdt.raw) in
    let usdt_raw = to_decimal_without b'"' r.usdt.raw (inl (omega arith)) in
    let usdt_block = to_decimal_without b'}' r.usdt.last_change_block (inr (omega arith)) in
    let usdc_amount : All (λ c. c ≢ b'"') r.usdc.amount = rw usdc (amount_without r.usdc.raw) in
    let usdc_raw = to_decimal_without b'"' r.usdc.raw (inl (omega arith)) in
    let usdc_block = to_decimal_without b'}' r.usdc.last_change_block (inr (omega arith)) in
    (
      h,
      (
        held,
        (
          as_of,
          (usdt_amount, (usdt_raw, (usdt_block, (usdc_amount, (usdc_raw, (usdc_block, tt)))))),
        ),
      ),
    )

same_entry : (e f : Entry) (a b : Text) → values (found a e) ≡ values (found b f) → e ≡ f
unfolding found token_balance
same_entry e f a b same =
    let usdt : e.usdt ≡ f.usdt = to_decimal-injective _ _ (cc same) in
    let usdt_block : e.usdt_block ≡ f.usdt_block = to_decimal-injective _ _ (cc same) in
    let usdc : e.usdc ≡ f.usdc = to_decimal-injective _ _ (cc same) in
    let usdc_block : e.usdc_block ≡ f.usdc_block = to_decimal-injective _ _ (cc same) in
    λ k. record {
      usdt = usdt k;
      usdt_block = usdt_block k;
      usdc = usdc k;
      usdc_block = usdc_block k;
    }

same_answer :
    (a b : Text) (o p : Option Entry) → values (report_on a o) ≡ values (report_on b p) → o ≡ p
unfolding found not_held bool_text
same_answer a b none none same = refl
same_answer a b none (some f) same = absurd (ground (arith, same))
same_answer a b (some e) none same = absurd (ground (arith, same))
same_answer a b (some e) (some f) same = ap some (same_entry e f a b same)

-- Two reports with the same JSON are about the same address and say the same of it: that the server
-- holds no record, or the same balances and blocks. The addresses are texts without a quote.
pub to_json-injective :
    (a b : Text) (o p : Option Entry)
    → All (λ c. c ≢ b'"') a
    → All (λ c. c ≢ b'"') b
    → to_json (report_on a o) ≡ to_json (report_on b p)
    → (a ≡ b) × (o ≡ p)
to_json-injective a b o p ha hb e =
    let same : values (report_on a o) ≡ values (report_on b p) =
      fill-injective (ascii "}") gaps _ _
        (report_Fits (report_on a o) (report_on-IsFrom a o) (rw (address-report_on a o) ha))
        (report_Fits (report_on b p) (report_on-IsFrom b p) (rw (address-report_on b p) hb))
        (sym (json_filled (report_on a o)) ∙ e ∙ json_filled (report_on b p)) in
    let about : (report_on a o).address ≡ (report_on b p).address = cc same in
    (sym (address-report_on a o) ∙ about ∙ address-report_on b p, same_answer a b o p same)
