-- ===== src/Snapshot/Rows.antt =====
-- The rows of a snapshot file read back.
use poulpy_eth_pir_demo.Base.{
  ℕ, ◌≡◌, refl, sym, ap, ◌∙◌, List, [], ◌∷◌, ◌++◌, length, replicate, arith, All, append-nil,
  append_assoc, length-append,
}
use poulpy_eth_pir_demo.Base.Equality.{byte_list_eq}
use poulpy_eth_pir_demo.Base.Table
use poulpy_eth_pir_demo.Base.Table.{Table}
use poulpy_eth_pir_demo.Base.Table.Fill.{insert_all}
use poulpy_eth_pir_demo.Base.Bytes.{to_le_bytes}
use poulpy_eth_pir_demo.Base.Slices.{slice, copy_into, copy_into_blank, slice_at}
use poulpy_eth_pir_demo.Base.Run.{Result, ok, continue}
use poulpy_eth_pir_demo.Base.Reader.{read_exact-append}
use poulpy_eth_pir_demo.Tokens.{Address}
use poulpy_eth_pir_demo.Record.{Entry}
use poulpy_eth_pir_demo.Record.RoundTrip.{
  IsSized, fields, length-fields, copy-fields, entry_at-fields,
}
use poulpy_eth_pir_demo.Snapshot.{
  Digest, row_of, write_rows, entry_from_row, read_row, read_rows, eat, unexpected_eof, row_size,
  ErrorKind,
}

-- A row of the map that the file's layout can hold.
abbrev pub IsRow : Address × Entry → Type 0
IsRow (addr, e) = (length addr ≡ 20) × IsSized e

module _ (addr : Address) (e : Entry) (row : IsRow (addr, e)) where
  pub row-fields : row_of addr e ≡ addr ++ fields e
  unfolding row_of
  row-fields =
      ap
        (λ buf. copy_into 56 (to_le_bytes 4 e.usdc_block) (
          copy_into 40 (to_le_bytes 16 e.usdc)
            (copy_into 36 (to_le_bytes 4 e.usdt_block) (copy_into 20 (to_le_bytes 16 e.usdt) buf))))
        (blank_after_address)
      ∙ copy-fields e addr 20 40 (sym row.0)
      ∙ ap (◌++◌ addr) (append-nil (fields e))
    where
      blank_after_address : copy_into 0 addr (replicate 60 0) ≡ addr ++ replicate 40 0
      blank_after_address = copy_into_blank [] addr 0 60 0 refl ∙ rw row.0

  pub length-row : length (row_of addr e) ≡ 60
  length-row = rw row-fields (omega (arith, length-append addr (fields e), length-fields e, row))

  entry-row : entry_from_row (row_of addr e) ≡ e
  unfolding entry_from_row
  entry-row = rw row-fields (
      rw (← append-nil (fields e))
        (let (p, q, r, s) = entry_at-fields e addr [] 20 (sym row.0) row.1 in ground arith))

  address-row : slice 0 20 (row_of addr e) ≡ addr
  address-row = rw row-fields (slice_at [] addr (fields e) 0 20 refl (omega (arith, row)))

  read_row-row :
      (digest : Digest) (rest : List ℕ)
      → read_row digest (row_of addr e ++ rest) ≡ (ok (addr, e, eat (row_of addr e) digest), rest)
  unfolding read_row
  read_row-row digest rest =
      rw (read_exact-append (row_of addr e) rest row_size unexpected_eof (sym length-row))
        (rw (address-row, entry-row))

-- Reading as many rows as were written inserts each of them, in order, and eats the same bytes.
pub read_rows-write_rows :
    (m acc : Table Address Entry) (digest : Digest) (rest : List ℕ)
    → All IsRow m
    → read_rows (length m) acc digest ((write_rows m digest).0 ++ rest)
      ≡ (ok (insert_all acc m, (write_rows m digest).1), rest)
unfolding read_rows write_rows insert_all
read_rows-write_rows [] acc digest rest h = refl
read_rows-write_rows ((addr, e) ∷ m) acc digest rest h =
    ap
      (λ (r : Result ErrorKind (Address × Entry × Digest) × List ℕ).
        continue r.0 (λ x. read_rows (length m) (Table.insert x.0 x.1 acc) x.2) r.1)
      (ap (read_row digest) (append_assoc row rows rest)
        ∙ read_row-row addr e h.0 digest (rows ++ rest))
    ∙ read_rows-write_rows m (Table.insert addr e acc) (eat row digest) rest h.1
  where
    row : List ℕ
    row = row_of addr e

    rows : List ℕ
    rows = (write_rows m (eat row digest)).0
