-- ===== src/Http/Batch/Size.antt =====
-- A batch is never too large, and loses no query.
use poulpy_eth_pir_demo.Base.{
  ℕ, zero, suc, ◌+◌, ◌≤◌, max, true, false, Option, none, some, List, [], ◌∷◌, ◌++◌, length, ◌≡◌,
  refl, ap, ltb, arith, length-append, append_assoc, append-nil, ◌⊎◌, inl, inr, Bool-cases,
  if◌then◌else◌,
}
use poulpy_eth_pir_demo.Base.Run.{Result, ok, err}
use poulpy_eth_pir_demo.Http.Batch.{
  BatchConfig, Job, Receiver, collect, collect_loop, next_job, Answer, answer, send_each,
  send_failure, queries_of,
}

module _ (rx : Receiver) where
  open rx use {State, try_recv, recv_until, now}

  -- What a batch has become: it still begins with what it was, and has no more jobs than the
  -- limit, or else none were added.
  pub record IsGrown (limit : ℕ) (batch batch' : List Job) : Type 0 where
    pub size_le : length batch' ≤ max limit (length batch)
    pub added : List Job
    pub front : batch' ≡ batch ++ added

  IsGrown-refl : (limit : ℕ) (batch : List Job) → IsGrown limit batch batch
  IsGrown-refl limit batch = record {
    size_le = omega arith;
    added = [];
    front = cc (append-nil batch);
  }

  IsGrown-step :
      (limit : ℕ) (batch b' : List Job) (job : Job)
      → ltb (length batch) limit ≡ true
      → IsGrown limit (batch ++ (job ∷ [])) b'
      → IsGrown limit batch b'
  IsGrown-step limit batch b' job h g = record {
    size_le = ground (arith, length-append batch (job ∷ []), g.size_le);
    added = job ∷ g.added;
    front = cc (g.front, append_assoc batch (job ∷ []) g.added);
  }

  collect_loop-IsGrown :
      (fuel limit deadline : ℕ) (batch : List Job) (s : State)
      → IsGrown limit batch (collect_loop rx fuel limit deadline batch s).0
  unfolding collect_loop
  collect_loop-IsGrown zero limit deadline batch s = IsGrown-refl limit batch
  collect_loop-IsGrown (suc fuel) limit deadline batch s =
      go (Bool-cases (ltb (length batch) limit)) (next_job rx deadline s)
        (λ b s'. collect_loop-IsGrown fuel limit deadline b s')
    where
      go :
          (ltb (length batch) limit ≡ true) ⊎ (ltb (length batch) limit ≡ false)
          → (n : Option Job × State)
          → ((b : List Job) (s' : State)
              → IsGrown limit b (collect_loop rx fuel limit deadline b s').0)
          → IsGrown limit batch
              (if◌then◌else◌ {A = List Job × State}
                (ltb (length batch) limit)
                (elim (n.0) [
                  | some job ↦ collect_loop rx fuel limit deadline (batch ++ (job ∷ [])) n.1
                  | none ↦ (batch, n.1)
                ])
                (batch, s)).0
      go (inl h) (some job, s') rec =
          rw h (IsGrown-step limit batch _ job h (rec (batch ++ (job ∷ [])) s'))
      go (inl h) (none, s') rec = rw h (IsGrown-refl limit batch)
      go (inr h) n rec = rw h (IsGrown-refl limit batch)

  -- Whatever comes and whenever: a batch begins with the query that opened it, and has no more
  -- queries than the configured number, or than one if that is 0.
  pub collect-IsGrown :
      (cfg : BatchConfig) (first : Job) (s : State)
      → IsGrown cfg.max_queries (first ∷ []) (collect rx cfg first s).0
  unfolding collect
  collect-IsGrown cfg first s =
      collect_loop-IsGrown cfg.max_queries cfg.max_queries (now s + cfg.window) (first ∷ []) s

abbrev pub replies_of : List Job → List ℕ
replies_of [] = []
replies_of (job ∷ jobs) = job.reply ∷ replies_of jobs

abbrev pub replied : List (ℕ × Answer) → List ℕ
replied [] = []
replied ((reply, a) ∷ rest) = reply ∷ replied rest

length-queries_of : (jobs : List Job) → length (queries_of jobs) ≡ length jobs
unfolding queries_of
length-queries_of [] = refl
length-queries_of (job ∷ jobs) = ap suc (length-queries_of jobs)

send_each-replied :
    (jobs : List Job) (results : List Answer)
    → length results ≡ length jobs
    → replied (send_each jobs results) ≡ replies_of jobs
unfolding send_each
send_each-replied [] results h = refl
send_each-replied (job ∷ jobs) [] h = absurd (omega arith)
send_each-replied (job ∷ jobs) (r ∷ results) h =
    ap (◌∷◌ job.reply) (send_each-replied jobs results (omega arith))

send_failure-replied :
    (message : List ℕ) (jobs : List Job) → replied (send_failure message jobs) ≡ replies_of jobs
unfolding send_failure
send_failure-replied message [] = refl
send_failure-replied message (job ∷ jobs) = ap (◌∷◌ job.reply) (send_failure-replied message jobs)

-- Every query of a batch is replied to, once and in order, whether the pass succeeds or fails, if
-- the responder gives a result for each query when it succeeds.
pub answer-replied :
    (respond : List (List ℕ) → Result (List ℕ) (List Answer)) (batch : List Job)
    → ((queries : List (List ℕ)) (results : List Answer)
        → respond queries ≡ ok results
        → length results ≡ length queries)
    → replied (answer respond batch) ≡ replies_of batch
unfolding answer
answer-replied respond batch total = go (respond (queries_of batch)) refl
  where
    go :
        (r : Result (List ℕ) (List Answer))
        → respond (queries_of batch) ≡ r
        → replied (elim r [
          | ok results ↦ send_each batch results
          | err message ↦ send_failure message batch
        ])
          ≡ replies_of batch
    go (ok results) e =
        send_each-replied batch results
          (cc (total (queries_of batch) results e, length-queries_of batch))
    go (err message) e = send_failure-replied message batch
