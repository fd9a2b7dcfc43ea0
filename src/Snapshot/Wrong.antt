-- ===== src/Snapshot/Wrong.antt =====
-- Files of the right lengths whose checksum is wrong are refused.
use poulpy_eth_pir_demo.Base.{
  ℕ, zero, suc, ◌*◌, ◌≡◌, ◌≢◌, refl, sym, ap, ◌∙◌, List, [], ◌∷◌, ◌++◌, length, arith, All,
  append-nil, append_assoc, length-append, length-take, length-drop, take-append-drop, take, drop,
  All-append,
}
use poulpy_eth_pir_demo.Base.Equality.{byte_list_eq}
use poulpy_eth_pir_demo.Base.Table
use poulpy_eth_pir_demo.Base.Table.{Table}
use poulpy_eth_pir_demo.Base.Bytes.{IsByte, IsU64, to_le_bytes, from_le_bytes}
use poulpy_eth_pir_demo.Base.Slices.{slice}
use poulpy_eth_pir_demo.Base.Run.{ok, err}
use poulpy_eth_pir_demo.Base.Reader.{read_exact-append, bind_step}
use poulpy_eth_pir_demo.Tokens.{Address}
use poulpy_eth_pir_demo.Record.{Entry}
use poulpy_eth_pir_demo.Record.RoundTrip.{fields, fields-IsByte}
use poulpy_eth_pir_demo.Snapshot.{
  Digest, snapshot_magic, start_digest, entry_from_row, seal, row_of, write_rows, row_size,
  read_row, read_rows, verify_checksum, load_from, unexpected_eof, invalid_data, eat,
}
use poulpy_eth_pir_demo.Snapshot.Rows.{IsRow, row-fields, length-row}
use poulpy_eth_pir_demo.Snapshot.Digest.{eat-append}
use poulpy_eth_pir_demo.Snapshot.RoundTrip.{read_u64-bytes, read_magic-snapshot}

read_row-bytes :
    (row rest : List ℕ) (digest : Digest)
    → length row ≡ 60
    → read_row digest (row ++ rest)
      ≡ (ok (slice 0 20 row, entry_from_row row, eat row digest), rest)
unfolding read_row
read_row-bytes row rest digest h =
    rw (read_exact-append row rest row_size unexpected_eof (sym h)) refl

-- Reading any rows eats them.
read_rows-bytes :
    (count : ℕ) (rows rest : List ℕ) (acc : Table Address Entry) (digest : Digest)
    → length rows ≡ count * 60
    → (inner : Table Address Entry) × (read_rows count acc digest (rows ++ rest)
        ≡ (ok (inner, eat rows digest), rest))
unfolding read_rows eat
read_rows-bytes zero [] rest acc digest h = (acc, refl)
read_rows-bytes zero (b ∷ rows) rest acc digest h = absurd (omega arith)
read_rows-bytes (suc count) rows rest acc digest h =
    let (inner, e) =
      read_rows-bytes count more rest (Table.insert (slice 0 20 row) (entry_from_row row) acc)
        (eat row digest) (omega (arith, length-drop 60 rows)) in
    (inner, first ∙ e ∙ ap (λ d. (ok (inner, d), rest)) eaten)
  where
    row : List ℕ
    row = take 60 rows

    more : List ℕ
    more = drop 60 rows

    parts : row ++ more ≡ rows
    parts = take-append-drop 60 rows

    first :
        read_rows (suc count) acc digest (rows ++ rest)
        ≡ read_rows count
            (Table.insert (slice 0 20 row) (entry_from_row row) acc)
            (eat row digest)
            (more ++ rest)
    first =
        ap (λ bytes. read_rows (suc count) acc digest (bytes ++ rest)) (sym parts)
        ∙ ap (read_rows (suc count) acc digest) (append_assoc row more rest)
        ∙ bind_step (read_row digest) _
            (read_row-bytes row (more ++ rest) digest (omega (arith, length-take 60 rows)))

    eaten : eat more (eat row digest) ≡ eat rows digest
    eaten = sym (eat-append row more digest) ∙ ap (λ bytes. eat bytes digest) parts

verify_checksum-wrong :
    (cursor count digest : ℕ) (footer : List ℕ)
    → length footer ≡ 8
    → from_le_bytes footer ≢ seal cursor count digest
    → verify_checksum cursor count digest footer ≡ (err invalid_data, [])
unfolding verify_checksum
verify_checksum-wrong cursor count digest footer h wrong =
    ap (λ f. verify_checksum cursor count digest f) (sym (append-nil footer))
    ∙ rw (read_exact-append footer [] 8 invalid_data (sym h)) (ground (arith, wrong))

-- A file of the right lengths whose checksum is not its digest is refused.
pub load_from-wrong :
    (cursor count : ℕ) (rows footer : List ℕ)
    → IsU64 cursor
    → IsU64 count
    → length rows ≡ count * 60
    → length footer ≡ 8
    → from_le_bytes footer ≢ seal cursor count (eat rows start_digest)
    → load_from
        (snapshot_magic ++ (to_le_bytes 8 cursor ++ (to_le_bytes 8 count ++ (rows ++ footer))))
      ≡ (err invalid_data, [])
unfolding load_from
load_from-wrong cursor count rows footer fits fits' long eight wrong =
    rw
      (
        read_magic-snapshot _,
        read_u64-bytes cursor _ fits,
        read_u64-bytes count _ fits',
        (read_rows-bytes count rows footer [] start_digest long).1,
        verify_checksum-wrong cursor count (eat rows start_digest) footer eight wrong,
      )
      refl

pub length-write_rows :
    (m : Table Address Entry) (digest : Digest)
    → All IsRow m
    → length (write_rows m digest).0 ≡ length m * 60
unfolding write_rows
length-write_rows [] digest h = refl
length-write_rows ((addr, e) ∷ m) digest (h, rest) = omega (
  arith,
  length-append (row_of addr e) (write_rows m (eat (row_of addr e) digest)).0,
  length-row addr e h,
  length-write_rows m (eat (row_of addr e) digest) rest,
)

pub digest-write_rows :
    (m : Table Address Entry) (digest : Digest)
    → (write_rows m digest).1 ≡ eat (write_rows m digest).0 digest
unfolding write_rows eat
digest-write_rows [] digest = refl
digest-write_rows ((addr, e) ∷ m) digest =
    digest-write_rows m _ ∙ sym (eat-append (row_of addr e) _ digest)

-- The address of a row is made of bytes.
abbrev pub HasBytes : Address × Entry → Type 0
HasBytes (addr, e) = All IsByte addr

pub write_rows-IsByte :
    (m : Table Address Entry) (digest : Digest)
    → All IsRow m
    → All HasBytes m
    → All IsByte (write_rows m digest).0
unfolding write_rows
write_rows-IsByte [] digest h bytes = tt
write_rows-IsByte ((addr, e) ∷ m) digest (row, rows) (b, bytes) =
    All-append IsByte (row_of addr e) _
      (rw (row-fields addr e row) (All-append IsByte addr (fields e) b (fields-IsByte e)))
      (write_rows-IsByte m _ rows bytes)
