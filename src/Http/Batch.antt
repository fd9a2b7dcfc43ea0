-- ===== src/Http/Batch.antt =====
-- src/http/batch.rs: queries that arrive close together answered in one pass. The channels belong to
-- tokio: a receiver is a state, with what it says when it is asked. A query's reply is named by the
-- number of its client.
pub mod Size
use poulpy_eth_pir_demo.Base.{
  ℕ, zero, suc, ◌+◌, ◌-◌, max, Bool, true, false, Option, none, some, List, [], ◌∷◌, ◌++◌, map,
  length, ltb, if◌then◌else◌,
}
use poulpy_eth_pir_demo.Base.Run.{Result, ok, err}

pub record BatchConfig : Type 0 where
  pub window : ℕ
  pub max_queries : ℕ
  pub queue_depth : ℕ

pub record Job : Type 0 where
  pub query : List ℕ
  pub reply : ℕ

pub data Rejected : Type 0 where
  overloaded stopped : Rejected

-- What `try_recv` says.
pub data Polled : Type 0 where
  ready : Job → Polled
  empty disconnected : Polled

-- The receiving half: asking at once, and waiting to the deadline (`none`: the window closed, or
-- every sender went away).
pub record Receiver : Type 1 where
  pub State : Type 0
  pub try_recv : State → Polled × State
  pub recv_until : ℕ → State → Option Job × State
  pub now : State → ℕ

module _ (rx : Receiver) where
  open rx use {State, try_recv, recv_until, now}

  -- What is waiting, or else the first to come before the deadline; `none` ends the batch.
  unfoldable pub next_job : ℕ → State → Option Job × State
  next_job deadline s = wait_if_empty (try_recv s)
    where
      wait_if_empty : Polled × State → Option Job × State
      wait_if_empty (ready job, s') = (some job, s')
      wait_if_empty (disconnected, s') = (none, s')
      wait_if_empty (empty, s') = recv_until deadline s'

  -- Each round adds a job or is the last, so as many rounds as a batch may have jobs are enough.
  unfoldable pub collect_loop : ℕ → ℕ → ℕ → List Job → State → List Job × State
  collect_loop zero limit deadline batch s = (batch, s)
  collect_loop (suc fuel) limit deadline batch s =
      let (next, s') = next_job deadline s in
      let more = λ (job : Job). collect_loop fuel limit deadline (batch ++ (job ∷ [])) s' in
      if ltb (length batch) limit
      then elim next [ some job ↦ more job | none ↦ (batch, s') ]
      else (batch, s)

  unfoldable pub collect : BatchConfig → Job → State → List Job × State
  collect cfg first s =
      collect_loop cfg.max_queries cfg.max_queries (now s + cfg.window) (first ∷ []) s

abbrev pub Answer : Type 0
Answer = Result (List ℕ) (List ℕ)

unfoldable pub send_each : List Job → List Answer → List (ℕ × Answer)
send_each [] results = []
send_each (job ∷ jobs) [] = []
send_each (job ∷ jobs) (r ∷ results) = (job.reply, r) ∷ send_each jobs results

unfoldable pub send_failure : List ℕ → List Job → List (ℕ × Answer)
send_failure message [] = []
send_failure message (job ∷ jobs) = (job.reply, err message) ∷ send_failure message jobs

unfoldable pub queries_of : List Job → List (List ℕ)
queries_of [] = []
queries_of (job ∷ jobs) = job.query ∷ queries_of jobs

-- The replies sent; the responder belongs to the eth-pir crate, and a panic of it is an error too.
unfoldable pub answer :
    (List (List ℕ) → Result (List ℕ) (List Answer)) → List Job → List (ℕ × Answer)
answer respond batch = elim (respond (queries_of batch)) [
  | ok results ↦ send_each batch results
  | err message ↦ send_failure message batch
]

-- A queue with a limit, of which the worker holds the other end.
pub record Queue : Type 0 where
  pub waiting : List Job
  pub is_open : Bool

unfoldable pub try_send : BatchConfig → Job → Queue → Result Rejected (Unit {0}) × Queue
try_send cfg job q =
    if q.is_open
    then (if ltb (length q.waiting) (max cfg.queue_depth 1)
        then (ok tt, record q { waiting = q.waiting ++ (job ∷ []) })
        else (err overloaded, q))
    else (err stopped, q)
