-- ===== src/Http/Routes/Burst.antt =====
-- A client's queries at one instant: its burst goes through, whatever the others ask.
use poulpy_eth_pir_demo.Base.{
  ℕ, zero, suc, ◌+◌, ◌-◌, ◌^◌, ◌≤◌, ◌<◌, max, true, false, List, [], ◌∷◌, length, ◌≡◌, refl, ap,
  ◌∙◌, arith, if◌then◌else◌, Bool-cases, inl, inr,
}
use poulpy_eth_pir_demo.Base.Equality.{◌==◌, byte_list_eq, eq_self}
use poulpy_eth_pir_demo.Base.Table
use poulpy_eth_pir_demo.Base.Table.{or_default}
use poulpy_eth_pir_demo.Base.Run.{Result, ok, err}
use poulpy_eth_pir_demo.Text.{ascii}
use poulpy_eth_pir_demo.Http.Batch.{Rejected, Answer}
use poulpy_eth_pir_demo.Http.Limit.{
  RateLimit, IpAddr, Floats, Bucket, Clients, max_tracked, enabled, make_room, fresh_bucket, refill,
  check_at, check_admitted, spend_token,
}
use poulpy_eth_pir_demo.Http.Limit.Room.{insert_le}
use poulpy_eth_pir_demo.Http.Reply.{Reply, problem}
use poulpy_eth_pir_demo.Http.Routes.{too_many, respond, submit_checked, query}

-- Floating-point numbers count exactly as far as a burst of 32 bits goes.
pub record CountsExactly (floats : Floats) : Type 0 where
  pub refilled_now :
      (n burst per_minute : ℕ)
      → n ≤ burst
      → burst < 2 ^ 32
      → floats.refilled (floats.of_nat n) 0 (floats.per_second per_minute) (floats.of_nat burst)
        ≡ floats.of_nat n
  pub has_none : floats.has_token (floats.of_nat 0) ≡ false
  pub has_some : (n : ℕ) → suc n < 2 ^ 32 → floats.has_token (floats.of_nat (suc n)) ≡ true
  pub spend_one : (n : ℕ) → suc n < 2 ^ 32 → floats.spend (floats.of_nat (suc n)) ≡ floats.of_nat n

module _ (floats : Floats) (exact : CountsExactly floats) (limit : RateLimit) (client : IpAddr)
    (now : ℕ) where
  abbrev pub burst : ℕ
  burst = max limit.burst 1

  abbrev pub bucket : ℕ → Bucket floats
  bucket n = record { tokens = floats.of_nat n; last = now }

  -- The client has so many tokens left.
  abbrev pub Left : ℕ → Clients floats → Type 0
  Left n clients =
      or_default (fresh_bucket floats (floats.of_nat burst) now) (Table.get client clients)
      ≡ bucket n

  make_room-roomy :
      (peer : IpAddr) (clients : Clients floats)
      → length clients < max_tracked
      → make_room floats peer now clients ≡ (ok tt, clients)
  unfolding make_room
  make_room-roomy peer clients room = ground arith

  refill-now : (n : ℕ) → n ≤ burst → burst < 2 ^ 32 → refill floats limit now (bucket n) ≡ bucket n
  unfolding refill
  refill-now n h small =
      let none_passed : now - now ≡ 0 = omega arith in
      let kept : floats.refilled (floats.of_nat n) (now - now) (floats.per_second limit.per_minute)
            (floats.of_nat burst)
          ≡ floats.of_nat n =
        rw none_passed (exact.refilled_now n burst limit.per_minute h small) in
      ap (λ (t : floats.F). record { tokens = t; last = now }) kept

  check_at-none :
      (clients : Clients floats)
      → enabled limit ≡ true
      → length clients < max_tracked
      → burst < 2 ^ 32
      → Left 0 clients
      → check_at floats limit client now clients ≡ (
        err (floats.wait_for (floats.of_nat 0) (floats.per_second limit.per_minute)),
        Table.insert client (bucket 0) clients,
      )
  unfolding check_at check_admitted spend_token
  check_at-none clients on room small left =
      rw
        (
          on,
          make_room-roomy client clients room,
          left,
          refill-now 0 (omega arith) small,
          exact.has_none,
        )
        refl

  check_at-some :
      (n : ℕ) (clients : Clients floats)
      → enabled limit ≡ true
      → length clients < max_tracked
      → suc n ≤ burst
      → burst < 2 ^ 32
      → Left (suc n) clients
      → check_at floats limit client now clients ≡ (ok tt, Table.insert client (bucket n) clients)
  unfolding check_at check_admitted spend_token
  check_at-some n clients on room h small left =
      rw
        (
          on,
          make_room-roomy client clients room,
          left,
          refill-now (suc n) h small,
          exact.has_some n (omega arith),
          exact.spend_one n (omega arith),
        )
        refl

  -- Another's query leaves the client's bucket, and adds one client at most.
  check_at-other :
      (peer : IpAddr) (clients : Clients floats)
      → length clients < max_tracked
      → (peer == client) ≡ false
      → (Table.get client (check_at floats limit peer now clients).1 ≡ Table.get client clients)
        × (length (check_at floats limit peer now clients).1 ≤ length clients + 1)
  unfolding check_at check_admitted spend_token
  check_at-other peer clients room other = elim (Bool-cases (enabled limit)) [
    | inr off ↦ rw off (refl, omega arith)
    | inl on ↦
        let b =
          refill floats limit now
            (or_default (fresh_bucket floats (floats.of_nat burst) now) (Table.get peer clients)) in
        rw (on, make_room-roomy peer clients room)
          (elim (Bool-cases (floats.has_token b.tokens)) [
            | inl some_left ↦ rw some_left (
              Table.get-insert peer client _ clients ∙ rw other refl,
              ground (
                arith,
                insert_le floats peer (record b { tokens = floats.spend b.tokens }) clients,
              ),
            )
            | inr spent ↦ rw spent (
              Table.get-insert peer client _ clients ∙ rw other refl,
              ground (arith, insert_le floats peer b clients),
            )
          ])
  ]

module _ (floats : Floats) (submit : List ℕ → Result Rejected Answer) (limit : RateLimit)
    (client : IpAddr) (now : ℕ) where
  -- The replies that one client gets when queries, each with its sender, come in in order.
  unfoldable pub replies : List (IpAddr × List ℕ) → Clients floats → List Reply
  replies [] clients = []
  replies ((peer, body) ∷ rest) clients =
      let (reply, clients') = query floats submit limit body peer now clients in
      let more = replies rest clients' in if peer == client then reply ∷ more else more

-- The bodies of one client's queries.
abbrev pub bodies_of : IpAddr → List (IpAddr × List ℕ) → List (List ℕ)
bodies_of client [] = []
bodies_of client ((peer, body) ∷ rest) =
    let more = bodies_of client rest in if peer == client then body ∷ more else more

-- Replies to a client with so many tokens: an empty body is refused and costs nothing, as many
-- others as there are tokens are answered, and the rest are told to wait.
abbrev pub AsLimited : (List ℕ → Result Rejected Answer) → ℕ → List (List ℕ) → List Reply → Type 0
AsLimited submit n [] [] = Unit {0}
AsLimited submit n ([] ∷ bodies) (reply ∷ more) =
    (reply ≡ problem 400 (ascii "empty query")) × AsLimited submit n bodies more
AsLimited submit zero ((b ∷ bs) ∷ bodies) (reply ∷ more) =
    (reply.status ≡ 429) × AsLimited submit zero bodies more
AsLimited submit (suc n) ((b ∷ bs) ∷ bodies) (reply ∷ more) =
    (reply ≡ respond (submit (b ∷ bs))) × AsLimited submit n bodies more
AsLimited submit n bodies replies = ⊥

module _ (floats : Floats) (exact : CountsExactly floats) (submit : List ℕ → Result Rejected Answer)
    (limit : RateLimit) (client : IpAddr) (now : ℕ) where
  Left-insert :
      (n : ℕ) (clients : Clients floats)
      → Left floats exact limit client now n
          (Table.insert client (bucket floats exact limit client now n) clients)
  Left-insert n clients =
      rw
        (
          Table.get-insert client client (bucket floats exact limit client now n) clients,
          eq_self client,
        )
        refl

  length-insert :
      (n : ℕ) (clients : Clients floats)
      → length (Table.insert client (bucket floats exact limit client now n) clients)
        ≤ length clients + 1
  length-insert n clients =
      ground (arith, insert_le floats client (bucket floats exact limit client now n) clients)

  query-body :
      (b : ℕ) (bs : List ℕ) (peer : IpAddr) (clients : Clients floats)
      → query floats submit limit (b ∷ bs) peer now clients
        ≡ submit_checked floats submit (b ∷ bs) (check_at floats limit peer now clients)
  unfolding query
  query-body b bs peer clients = ground arith

  submit_checked-clients :
      (body : List ℕ) (r : Result ℕ (Unit {0}) × Clients floats)
      → (submit_checked floats submit body r).1 ≡ r.1
  unfolding submit_checked
  submit_checked-clients body (ok t, clients) = refl
  submit_checked-clients body (err wait, clients) = refl

  -- A query of the client's own, and what comes after it.
  own_query :
      (n b : ℕ) (bs : List ℕ) (bodies : List (List ℕ)) (clients : Clients floats)
      → (more : Clients floats → List Reply) → enabled limit ≡ true
      → length clients < max_tracked
      → n ≤ max limit.burst 1
      → max limit.burst 1 < 2 ^ 32
      → Left floats exact limit client now n clients
      → ((m : ℕ)
          → m ≤ max limit.burst 1
          → AsLimited submit m bodies
              (more (Table.insert client (bucket floats exact limit client now m) clients)))
      → AsLimited submit n ((b ∷ bs) ∷ bodies) (
          (query floats submit limit (b ∷ bs) client now clients).0
          ∷ more (query floats submit limit (b ∷ bs) client now clients).1)
  unfolding submit_checked too_many
  own_query zero b bs bodies clients more on room h small left rest =
      rw
        (
          query-body b bs client clients,
          check_at-none floats exact limit client now clients on room small left,
        )
        (refl, rest 0 (omega arith))
  own_query (suc n) b bs bodies clients more on room h small left rest =
      rw
        (
          query-body b bs client clients,
          check_at-some floats exact limit client now n clients on room h small left,
        )
        (refl, rest n (omega arith))

  -- If a limiter that is enabled has room in its table for the queries to come, and counts
  -- so many tokens for a client at an instant, as many of the client's queries at this instant
  -- are answered as the batcher answers, whatever other clients ask in between; its later ones
  -- get 429, and its empty ones are refused and cost no token. A client that is not in the table
  -- has its burst of tokens, at least one. The arithmetic on tokens is exact on counts of 32 bits.
  pub queries-AsLimited :
      (schedule : List (IpAddr × List ℕ)) (n : ℕ) (clients : Clients floats)
      → enabled limit ≡ true
      → max limit.burst 1 < 2 ^ 32
      → n ≤ max limit.burst 1
      → length clients + length schedule ≤ max_tracked
      → Left floats exact limit client now n clients
      → AsLimited submit n
          (bodies_of client schedule)
          (replies floats submit limit client now schedule clients)
  unfolding replies query
  queries-AsLimited [] n clients on small h room left = tt
  queries-AsLimited ((peer, []) ∷ rest) n clients on small h room left =
      elim (Bool-cases (peer == client)) [
        | inl own ↦ rw own (refl, queries-AsLimited rest n clients on small h (omega arith) left)
        | inr other ↦ rw other (queries-AsLimited rest n clients on small h (omega arith) left)
      ]
  queries-AsLimited ((peer, b ∷ bs) ∷ rest) n clients on small h room left =
      elim (Bool-cases (peer == client)) [
        | inl own ↦
            rw ((byte_list_eq.same_iff peer client).0 own, eq_self client)
              (own_query n b bs (bodies_of client rest) clients
                (replies floats submit limit client now rest) on (omega arith) h small left
                (λ m h'.
                  queries-AsLimited rest m _ on small h' (omega (arith, length-insert m clients))
                    (Left-insert m clients)))
        | inr other ↦
            let (kept, grown) =
              check_at-other floats exact limit client now peer clients (omega arith) other in
            rw
              (
                other,
                query-body b bs peer clients,
                submit_checked-clients (b ∷ bs) (check_at floats limit peer now clients),
              )
              (queries-AsLimited rest n _ on small h (omega arith) (rw kept left))
      ]
