-- ===== src/Client/Pending.antt =====
-- A query's response is decoded for the address that was queried, once.
use poulpy_eth_pir_demo.Base.{ℕ, ◌+◌, ◌%◌, ◌^◌, none, some, List, [], ◌≡◌, refl, ap, arith}
use poulpy_eth_pir_demo.Base.Equality.{number_eq, eq_self}
use poulpy_eth_pir_demo.Base.Table
use poulpy_eth_pir_demo.Base.Table.{get-insert_self, get-remove}
use poulpy_eth_pir_demo.Base.Run.{ok, err}
use poulpy_eth_pir_demo.Tokens.{Address}
use poulpy_eth_pir_demo.Client.{
  Pir, unknown_query, Client, parse_address, query, query_for, decode, decode_pending, report_of,
  resync,
}

module _ (inner : Pir) where
  open inner use {State, Lookup, try_query_bytes, try_decrypt_bytes, try_resync, to_checksum}

  decode_at :
      (id : ℕ) (response : List ℕ) (p : Lookup × List ℕ) (c : Client inner)
      → Table.get id c.pending ≡ some p
      → decode inner id response c
        ≡ decode_pending inner response p (record c { pending = Table.remove id c.pending })
  unfolding decode
  decode_at id response p c h = rw (decode, h)

  decode_unknown :
      (id : ℕ) (response : List ℕ) (c : Client inner)
      → Table.get id c.pending ≡ none
      → decode inner id response c ≡ (err (unknown_query id), c)
  unfolding decode
  decode_unknown id response c h = rw (decode, h)

  -- The client after a query that was built.
  queried : Address → List ℕ → Lookup → State → Client inner → Client inner
  queried addr bytes lookup s c = record {
    client = s;
    pending = Table.insert c.next_id (lookup, to_checksum addr) c.pending;
    next_id = (c.next_id + 1) % 2 ^ 32;
  }

  query_ok :
      (text bytes : List ℕ) (addr : Address) (lookup : Lookup) (s : State) (c : Client inner)
      → parse_address inner text ≡ ok addr
      → try_query_bytes addr c.client ≡ (ok (bytes, lookup), s)
      → query inner text c
        ≡ (ok (record { id = c.next_id; bytes = bytes }), queried addr bytes lookup s c)
  unfolding query query_for queried
  query_ok text bytes addr lookup s c p q = ground (arith, p, q)

  decode_pending_pending :
      (response : List ℕ) (p : Lookup × List ℕ) (c : Client inner)
      → (decode_pending inner response p c).1.pending ≡ c.pending
  unfolding decode_pending
  decode_pending_pending response (lookup, address) c = refl

  -- A query that parses and is encrypted is handed out under an id. The response under that id, if
  -- it comes next, is decrypted with that query's own secret, and the report names the address that
  -- was queried, whatever else is pending; and a second response under the id is refused.
  pub decode-query :
      (text bytes response again : List ℕ) (addr : Address) (lookup : Lookup) (s : State)
      (c : Client inner)
      → parse_address inner text ≡ ok addr
      → try_query_bytes addr c.client ≡ (ok (bytes, lookup), s)
      → let c' = (query inner text c).1 in
        ((query inner text c).0 ≡ ok (record { id = c.next_id; bytes = bytes }))
        × ((decode inner c.next_id response c').0
            ≡ report_of inner (to_checksum addr) (try_decrypt_bytes response lookup s).0)
        × ((decode inner c.next_id again (decode inner c.next_id response c').1).0
            ≡ err (unknown_query c.next_id))
  unfolding queried decode_pending
  decode-query text bytes response again addr lookup s c p q =
      rw (query_ok text bytes addr lookup s c p q) (
        refl,
        ap (λ r. r.0) first,
        rw first (ap (λ r. r.0) (decode_unknown c.next_id again _ gone)),
      )
    where
      c' : Client inner
      c' = queried addr bytes lookup s c

      first :
          decode inner c.next_id response c'
          ≡ decode_pending inner response
              (lookup, to_checksum addr)
              (record c' { pending = Table.remove c.next_id c'.pending })
      first =
          decode_at c.next_id response (lookup, to_checksum addr) c'
            (get-insert_self c.next_id (lookup, to_checksum addr) c.pending)

      gone : Table.get c.next_id (Table.remove c.next_id c'.pending) ≡ none
      gone = rw (get-remove c.next_id c.next_id c'.pending, eq_self c.next_id)

  -- If replacing the directory succeeds, no response to an earlier query is decoded any more.
  pub resync-decode :
      (directory response : List ℕ) (id : ℕ) (s : State) (c : Client inner)
      → try_resync directory c.client ≡ (ok tt, s)
      → ((resync inner directory c).0 ≡ ok tt)
        × ((decode inner id response (resync inner directory c).1).0 ≡ err (unknown_query id))
  unfolding resync Table.get
  resync-decode directory response id s c h =
      rw resynced (refl, ap (λ r. r.0) (decode_unknown id response _ refl))
    where
      resynced : resync inner directory c ≡ (ok tt, record c { client = s; pending = [] })
      resynced = ground (arith, h)
