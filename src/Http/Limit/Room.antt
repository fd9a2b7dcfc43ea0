-- ===== src/Http/Limit/Room.antt =====
-- The limiter tracks no more clients than it is meant to, and one client's query leaves the others'.
use poulpy_eth_pir_demo.Base.{
  ℕ, ◌+◌, ◌≤◌, ◌<◌, true, [], ◌∷◌, length, ◌≡◌, ltb, arith, if◌then◌else◌, Bool-cases, inl, inr,
  ◌⊎◌,
}
use poulpy_eth_pir_demo.Base.Equality.{byte_list_eq}
use poulpy_eth_pir_demo.Base.Table
use poulpy_eth_pir_demo.Base.Table.{Table, or_default, is_some}
use poulpy_eth_pir_demo.Base.Run.{Result, ok, err}
use poulpy_eth_pir_demo.Http.Limit.{
  RateLimit, IpAddr, Floats, Bucket, Clients, max_tracked, make_room, retain_recent, check_at,
  check_admitted, spend_token,
}

module _ (floats : Floats) where
  retain_le :
      (now : ℕ) (clients : Clients floats)
      → length (retain_recent floats now clients) ≤ length clients
  unfolding retain_recent
  retain_le now [] = omega arith
  retain_le now ((ip, b) ∷ rest) = ground (arith, retain_le now rest)

  pub insert_le :
      (ip : IpAddr) (b : Bucket floats) (clients : Clients floats)
      → length (Table.insert ip b clients)
        ≤ (if Table.contains_key ip clients then length clients else length clients + 1)
  unfolding Table.insert Table.contains_key Table.get
  insert_le ip b [] = omega arith
  insert_le ip b ((j, c) ∷ rest) = ground (arith, insert_le ip b rest)

  spend_token_le :
      (limit : RateLimit) (client : IpAddr) (b : Bucket floats) (clients : Clients floats)
      → Table.contains_key client clients ≡ true ⊎ length clients < max_tracked
      → length clients ≤ max_tracked
      → length (spend_token floats limit client b clients).1 ≤ max_tracked
  unfolding spend_token
  spend_token_le limit client b clients (inl room) h = ground (
    arith,
    insert_le client b clients,
    insert_le client (record b { tokens = floats.spend b.tokens }) clients,
  )
  spend_token_le limit client b clients (inr room) h = ground (
    arith,
    insert_le client b clients,
    insert_le client (record b { tokens = floats.spend b.tokens }) clients,
  )

  -- The table after `make_room`, and what room there is in it if it is not refused.
  abbrev IsRoomy : IpAddr → Result ℕ (Unit {0}) × Clients floats → Type 0
  IsRoomy client (ok t, clients) =
      (length clients ≤ max_tracked)
      × (Table.contains_key client clients ≡ true ⊎ length clients < max_tracked)
  IsRoomy client (err wait, clients) = length clients ≤ max_tracked

  make_room-IsRoomy :
      (client : IpAddr) (now : ℕ) (clients : Clients floats)
      → length clients ≤ max_tracked
      → IsRoomy client (make_room floats client now clients)
  unfolding make_room
  make_room-IsRoomy client now clients h = elim (Bool-cases (Table.contains_key client clients)) [
    | inl there ↦ rw there (h, inl there)
    | inr fresh ↦ elim (Bool-cases (ltb (length clients) max_tracked)) [
      | inl room ↦ rw (fresh, room) (h, inr (ground arith))
      | inr full ↦ elim (Bool-cases (ltb (length (retain_recent floats now clients)) max_tracked)) [
        | inl room ↦ rw (fresh, full, room) (ground arith, inr (ground arith))
        | inr full' ↦ rw (fresh, full, full') (omega (arith, retain_le now clients))
      ]
    ]
  ]

  check_admitted_le :
      (limit : RateLimit) (client : IpAddr) (now : ℕ) (r : Result ℕ (Unit {0}) × Clients floats)
      → IsRoomy client r
      → length (check_admitted floats limit client now r).1 ≤ max_tracked
  unfolding check_admitted
  check_admitted_le limit client now (ok t, clients) (h, room) =
      spend_token_le limit client _ clients room h
  check_admitted_le limit client now (err wait, clients) h = h

  -- If the table of clients is within its limit, it still is after a query was admitted or
  -- refused, whatever the arithmetic on tokens.
  pub check_at_le :
      (limit : RateLimit) (client : IpAddr) (now : ℕ) (clients : Clients floats)
      → length clients ≤ max_tracked
      → length (check_at floats limit client now clients).1 ≤ max_tracked
  unfolding check_at
  check_at_le limit client now clients h = ground (
    arith,
    check_admitted_le limit client now (make_room floats client now clients)
        (make_room-IsRoomy client now clients h),
  )
