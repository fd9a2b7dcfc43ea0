-- ===== src/Follow/Logs.antt =====
-- src/follow/logs.rs: the logs of a block range, narrowed where the provider caps its answers.
pub mod Narrowing
use poulpy_eth_pir_demo.Base.{
  ℕ, zero, suc, ◌+◌, ◌-◌, ◌/◌, max, Bool, true, false, ◌&&◌, ◌||◌, List, [], ◌∷◌, map, nat_eq, leb,
  ltb, if◌then◌else◌,
}
use poulpy_eth_pir_demo.Text.{ascii, to_ascii_lowercase}
use poulpy_eth_pir_demo.Base.Run.{Result, ok, err}
use poulpy_eth_pir_demo.Chain.Events.{Log}
use poulpy_eth_pir_demo.Chain.Node.{Node, Fault, Message, rpc, stuck}

unfoldable pub starts_with : List ℕ → List ℕ → Bool
starts_with [] text = true
starts_with (p ∷ pat) [] = false
starts_with (p ∷ pat) (c ∷ text) = nat_eq p c && starts_with pat text

unfoldable pub contains : List ℕ → List ℕ → Bool
contains pat [] = starts_with pat []
contains pat (c ∷ text) = starts_with pat (c ∷ text) || contains pat text

unfoldable pub any_contained : List (List ℕ) → List ℕ → Bool
any_contained [] text = false
any_contained (pat ∷ rest) text = contains pat text || any_contained rest text

abbrev pub result_cap_patterns : List (List ℕ)
result_cap_patterns =
    ascii "more than"
    ∷ ascii "query returned"
    ∷ ascii "too many results"
    ∷ ascii "response size"
    ∷ ascii "limit exceeded"
    ∷ ascii "limited to"
    ∷ ascii "block range"
    ∷ ascii "range is too large"
    ∷ ascii "too large"
    ∷ ascii "exceeds"
    ∷ []

unfoldable pub is_result_cap_message : Message → Bool
is_result_cap_message message = any_contained result_cap_patterns (to_ascii_lowercase message)

-- The new end of the range, and the new chunk.
unfoldable pub narrow_range : ℕ → ℕ → ℕ → ℕ × ℕ
narrow_range from hi chunk = (from + (hi - from) / 2, max (chunk / 2) 1)

module _ (node : Node) where
  open node use {World, get_logs}

  -- What the node answers, and the chunk, which a failed call may have narrowed too.
  abbrev pub Fetched : Type 0
  Fetched = Result Fault (List Log × ℕ) × World × ℕ

  -- Each round narrows the range, so `to - from` rounds after the first are enough.
  unfoldable pub fetch_loop : ℕ → ℕ → ℕ → ℕ → World → Fetched
  fetch_loop zero from hi chunk w = (err stuck, w, chunk)
  fetch_loop (suc fuel) from hi chunk w =
      let (r, w') = get_logs from hi w in
      let (hi', chunk') = narrow_range from hi chunk in
      let again = fetch_loop fuel from hi' chunk' w' in
      elim r [
        | ok logs ↦ (ok (logs, hi), w', chunk)
        | err e ↦ if is_result_cap_message e && ltb from hi then again else (err (rpc e), w', chunk)
      ]

  unfoldable pub fetch_logs : ℕ → ℕ → ℕ → World → Fetched
  fetch_logs from to chunk w = fetch_loop (suc (to - from)) from to chunk w
