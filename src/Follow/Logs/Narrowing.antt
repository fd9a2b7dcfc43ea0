-- ===== src/Follow/Logs/Narrowing.antt =====
-- Fetching logs ends, whatever the provider answers, within the range asked for.
use poulpy_eth_pir_demo.Base.{
  ℕ, zero, suc, ◌+◌, ◌-◌, ◌/◌, ◌≤◌, ◌<◌, max, ◌&&◌, List, ◌≡◌, ◌≢◌, refl, arith, ltb, if◌then◌else◌,
  Bool-cases, inl, inr,
}
use poulpy_eth_pir_demo.Base.Run.{Result, ok, err}
use poulpy_eth_pir_demo.Chain.Events.{Log}
use poulpy_eth_pir_demo.Chain.Node.{Node, Message, rpc, stuck}
use poulpy_eth_pir_demo.Follow.Logs.{
  narrow_range, fetch_loop, fetch_logs, is_result_cap_message, Fetched,
}

module _ (node : Node) (from : ℕ) where
  open node use {World, get_logs}

  -- A range within the one asked for, the logs that the provider gave for it, and the chunk still
  -- positive and no larger; or an error, which is not that the loop was cut off.
  abbrev pub IsFetched : ℕ → ℕ → Fetched node → Type 0
  IsFetched to chunk (ok (logs, hi), w', chunk') =
      (from ≤ hi)
      × (hi ≤ to)
      × (1 ≤ chunk')
      × (chunk' ≤ chunk)
      × ((w : World) × (get_logs from hi w ≡ (ok logs, w')))
  IsFetched to chunk (err e, w', chunk') = (e ≢ stuck) × (1 ≤ chunk') × (chunk' ≤ chunk)

  rpc-ne-stuck : (e : Message) → rpc e ≢ stuck
  rpc-ne-stuck e h = cc

  IsFetched-le :
      (hi to c chunk : ℕ) (f : Fetched node)
      → hi ≤ to
      → c ≤ chunk
      → IsFetched hi c f
      → IsFetched to chunk f
  IsFetched-le hi to c chunk (ok (logs, h), w', c') p q (a, b, d, e, g) =
      (a, omega arith, d, omega arith, g)
  IsFetched-le hi to c chunk (err e, w', c') p q (a, b, d) = (a, b, omega arith)

  fetch_answered :
      (fuel hi chunk : ℕ) (w w' : World) (logs : List Log)
      → get_logs from hi w ≡ (ok logs, w')
      → fetch_loop node (suc fuel) from hi chunk w ≡ (ok (logs, hi), w', chunk)
  unfolding fetch_loop
  fetch_answered fuel hi chunk w w' logs e = ground (arith, e)

  fetch_refused :
      (fuel hi chunk : ℕ) (w w' : World) (m : Message)
      → get_logs from hi w ≡ (err m, w')
      → fetch_loop node (suc fuel) from hi chunk w ≡ (
          if is_result_cap_message m && ltb from hi
          then fetch_loop node fuel from (from + (hi - from) / 2) (max (chunk / 2) 1) w'
          else (err (rpc m), w', chunk))
  unfolding fetch_loop narrow_range
  fetch_refused fuel hi chunk w w' m e = ground (arith, e)

  fetch_loop_lem :
      (fuel hi chunk : ℕ) (w : World)
      → from ≤ hi
      → 1 ≤ chunk
      → hi - from < fuel
      → IsFetched hi chunk (fetch_loop node fuel from hi chunk w)
  fetch_loop_lem zero hi chunk w h c f = absurd (omega arith)
  fetch_loop_lem (suc fuel) hi chunk w h c f =
      go (λ hi' chunk' w'. fetch_loop_lem fuel hi' chunk' w') (get_logs from hi w) refl
    where
      go :
          ((hi' chunk' : ℕ) (w' : World)
            → from ≤ hi'
            → 1 ≤ chunk'
            → hi' - from < fuel
            → IsFetched hi' chunk' (fetch_loop node fuel from hi' chunk' w'))
          → (a : Result Message (List Log) × World) → get_logs from hi w ≡ a
          → IsFetched hi chunk (fetch_loop node (suc fuel) from hi chunk w)
      go rec (ok logs, w') e =
          rw (fetch_answered fuel hi chunk w w' logs e) (h, omega arith, c, omega arith, (w, e))
      go rec (err m, w') e = elim (Bool-cases (is_result_cap_message m && ltb from hi)) [
        | inl again ↦
            rw (fetch_refused fuel hi chunk w w' m e, again)
              (let wide : from < hi = ground arith in
                IsFetched-le (from + (hi - from) / 2) hi (max (chunk / 2) 1) chunk _ (omega arith)
                  (omega arith)
                  (rec (from + (hi - from) / 2) (max (chunk / 2) 1) w' (omega arith) (omega arith)
                    (omega arith)))
        | inr done ↦
            rw (fetch_refused fuel hi chunk w w' m e, done) (rpc-ne-stuck m, c, omega arith)
      ]

  -- Fetching the logs of a range that is not empty, with a positive chunk, ends whatever the
  -- provider answers. It gives the provider's logs for a front part of the range, or an error of
  -- the provider; and the chunk stays positive and does not grow.
  pub fetch_logs-IsFetched :
      (to chunk : ℕ) (w : World)
      → from ≤ to
      → 1 ≤ chunk
      → IsFetched to chunk (fetch_logs node from to chunk w)
  unfolding fetch_logs
  fetch_logs-IsFetched to chunk w h c =
      fetch_loop_lem (suc (to - from)) to chunk w h c (omega arith)
