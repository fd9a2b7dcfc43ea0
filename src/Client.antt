-- ===== src/Client.antt =====
-- client/src/lib.rs and client/src/error.rs: the client, which takes and gives bytes. The PIR client
-- and the text of its errors belong to the eth-pir crate and the parsing and writing of an address to
-- alloy, so they are a record that the definitions take. `with_shape`, which differs from `new` in a
-- call of eth-pir only, is not modelled.
pub mod Pending
use poulpy_eth_pir_demo.Base.{
  ℕ, ◌+◌, ◌%◌, ◌^◌, max, Bool, true, false, not, ◌&&◌, ◌||◌, Option, none, some, List, [], ◌∷◌,
  ◌++◌, length, nat_eq, leb, ltb, if◌then◌else◌,
}
use poulpy_eth_pir_demo.Base.Equality.{number_eq}
use poulpy_eth_pir_demo.Base.Table
use poulpy_eth_pir_demo.Base.Table.{Table, is_some}
use poulpy_eth_pir_demo.Base.Run.{Result, ok, err, Run}
use poulpy_eth_pir_demo.Tokens.{Address}
use poulpy_eth_pir_demo.Record.{Entry}
use poulpy_eth_pir_demo.Text.{Text, ascii, to_decimal}
use poulpy_eth_pir_demo.Report.{Report, found, not_held}

pub data SyncNeed : Type 0 where
  up_to_date full : SyncNeed
  tail : ℕ → SyncNeed

-- `EthPirError`, as far as the client tells errors apart.
pub data PirError : Type 0 where
  not_in_set other : PirError

pub data ClientError : Type 0 where
  bad_address : Text → ClientError
  unknown_query : ℕ → ClientError
  pir : PirError → ClientError

-- `EthPirClient`, and what alloy does with addresses.
pub record Pir : Type 1 where
  pub State : Type 0
  pub Lookup : Type 0
  pub try_new : List ℕ → Result PirError State
  pub version : State → ℕ
  pub tail_len : State → ℕ
  pub slot_of : Address → State → ℕ
  pub try_apply_tail : List ℕ → Run State PirError (Unit {0})
  pub try_resync : List ℕ → Run State PirError (Unit {0})
  pub try_query_bytes : Address → Run State PirError (List ℕ × Lookup)
  pub try_decrypt_bytes : List ℕ → Lookup → Run State PirError Entry
  pub parse_checksummed : List ℕ → Option Address
  pub parse_hex : List ℕ → Option Address
  pub to_checksum : Address → List ℕ
  pub error_text : PirError → Text

abbrev pub is_digit : ℕ → Bool
is_digit c = leb b'0' c && leb c b'9'

abbrev pub is_ascii_uppercase : ℕ → Bool
is_ascii_uppercase c = leb b'A' c && leb c b'Z'

abbrev pub is_ascii_lowercase : ℕ → Bool
is_ascii_lowercase c = leb b'a' c && leb c b'z'

unfoldable pub is_ascii_hexdigit : ℕ → Bool
is_ascii_hexdigit c = is_digit c || leb b'A' c && leb c b'F' || leb b'a' c && leb c b'f'

unfoldable pub all : (ℕ → Bool) → List ℕ → Bool
all p [] = true
all p (c ∷ cs) = p c && all p cs

unfoldable pub any : (ℕ → Bool) → List ℕ → Bool
any p [] = false
any p (c ∷ cs) = p c || any p cs

-- "0x" or "0X" in front is dropped.
unfoldable pub address_body : List ℕ → List ℕ
address_body [] = []
address_body (a ∷ []) = a ∷ []
address_body (a ∷ b ∷ rest) =
    if nat_eq a b'0' && (nat_eq b b'x' || nat_eq b b'X') then rest else a ∷ b ∷ rest

unfoldable pub or_bad_address : Text → Option Address → Result ClientError Address
or_bad_address s none = err (bad_address s)
or_bad_address s (some a) = ok a

pub record PendingQuery : Type 0 where
  pub id : ℕ
  pub bytes : List ℕ

module _ (inner : Pir) where
  open inner use {
    State, Lookup, try_new, version, tail_len, slot_of, try_apply_tail, try_resync, try_query_bytes,
    try_decrypt_bytes, parse_checksummed, parse_hex, to_checksum, error_text,
  }

  -- `Display` of an error.
  unfoldable pub error_message : ClientError → Text
  error_message (bad_address s) = ascii "not a valid Ethereum address: " ++ s
  error_message (unknown_query id) = ascii "no pending query with id " ++ to_decimal id
  error_message (pir e) = error_text e

  pub record Client : Type 0 where
    pub client : State
    pub pending : Table ℕ (Lookup × List ℕ)
    pub next_id : ℕ

  unfoldable pub parse_address : List ℕ → Result ClientError Address
  parse_address s =
      let body = address_body s in
      let prefixed = b'0' ∷ b'x' ∷ body in
      if not (nat_eq (length body) 40) || not (all is_ascii_hexdigit body)
      then err (bad_address s)
      else if any is_ascii_uppercase body && any is_ascii_lowercase body
      then or_bad_address (s ++ ascii " (EIP-55 checksum mismatch)") (parse_checksummed prefixed)
      else or_bad_address s (parse_hex prefixed)

  unfoldable pub new_client : List ℕ → Result ClientError Client
  new_client directory = elim (try_new directory) [
    | ok s ↦ ok (record { client = s; pending = []; next_id = 0 })
    | err e ↦ err (pir e)
  ]

  unfoldable pub sync_need : ℕ → ℕ → Client → SyncNeed
  sync_need server_version server_tail_len c =
      if not (nat_eq server_version (version c.client))
      then full
      else if ltb (tail_len c.client) server_tail_len
      then tail (tail_len c.client)
      else up_to_date

  unfoldable pub slot : List ℕ → Client → Result ClientError ℕ
  slot address c = elim (parse_address address) [ ok a ↦ ok (slot_of a c.client) | err e ↦ err e ]

  unfoldable pub apply_tail : List ℕ → Run Client ClientError (Unit {0})
  apply_tail bytes c =
      let (r, s) = try_apply_tail bytes c.client in
      let c' = record c { client = s } in elim r [ ok t ↦ (ok tt, c') | err e ↦ (err (pir e), c') ]

  unfoldable pub resync : List ℕ → Run Client ClientError (Unit {0})
  resync directory c =
      let (r, s) = try_resync directory c.client in
      let c' = record c { client = s } in
      elim r [ ok t ↦ (ok tt, record c' { pending = [] }) | err e ↦ (err (pir e), c') ]

  unfoldable pub query_for : Address → Run Client ClientError PendingQuery
  query_for addr c =
      let (r, s) = try_query_bytes addr c.client in
      let c' = record c { client = s } in
      elim r [
        | ok (bytes, lookup) ↦ (
          ok (record { id = c.next_id; bytes = bytes }),
          record c' {
            next_id = (c.next_id + 1) % 2 ^ 32;
            pending = Table.insert c.next_id (lookup, to_checksum addr) c.pending;
          },
        )
        | err e ↦ (err (pir e), c')
      ]

  unfoldable pub query : List ℕ → Run Client ClientError PendingQuery
  query address c = elim (parse_address address) [ ok addr ↦ query_for addr c | err e ↦ (err e, c) ]

  unfoldable pub report_of : List ℕ → Result PirError Entry → Result ClientError Report
  report_of address (ok e) = ok (found address e)
  report_of address (err not_in_set) = ok (not_held address)
  report_of address (err other) = err (pir other)

  unfoldable pub decode_pending : List ℕ → Lookup × List ℕ → Run Client ClientError Report
  decode_pending response (lookup, address) c =
      let (r, s) = try_decrypt_bytes response lookup c.client in
      (report_of address r, record c { client = s })

  unfoldable pub decode : ℕ → List ℕ → Run Client ClientError Report
  decode id response c = elim (Table.get id c.pending) [
    | none ↦ (err (unknown_query id), c)
    | some p ↦ decode_pending response p (record c { pending = Table.remove id c.pending })
  ]

  unfoldable pub cancel : ℕ → Client → Bool × Client
  cancel id c = (Table.contains_key id c.pending, record c { pending = Table.remove id c.pending })

  unfoldable pub pending_count : Client → ℕ
  pending_count c = length c.pending
