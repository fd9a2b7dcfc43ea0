-- ===== src/Snapshot/RoundTrip.antt =====
-- A snapshot that was written is read back as it was, and a file that was cut short is refused.
use poulpy_eth_pir_demo.Base.{
  ℕ, ◌≡◌, refl, sym, ap, ◌∙◌, List, [], ◌∷◌, ◌++◌, length, arith, All, append-nil, append_assoc,
  length-append, true, false,
}
use poulpy_eth_pir_demo.Base.Equality.{bytes_eq, byte_list_eq}
use poulpy_eth_pir_demo.Base.Table.{Unique}
use poulpy_eth_pir_demo.Base.Table.Fill.{insert_all_lem}
use poulpy_eth_pir_demo.Base.Bytes.{
  IsU64, to_le_bytes, length-to_le_bytes, from_le_bytes-to_le_bytes,
}
use poulpy_eth_pir_demo.Base.Run.{Result, ok, err}
use poulpy_eth_pir_demo.Base.Reader.{read_exact-append}
use poulpy_eth_pir_demo.Balances.{BalanceMap}
use poulpy_eth_pir_demo.Snapshot.{
  ErrorKind, snapshot_magic, legacy_magic, start_digest, seal, write_rows, write_snapshot_file,
  read_magic, read_u64, read_rows, verify_checksum, load_from, load, unexpected_eof, invalid_data,
}
use poulpy_eth_pir_demo.Snapshot.Rows.{IsRow, read_rows-write_rows}
use poulpy_eth_pir_demo.Snapshot.Digest.{eat-IsU64}
use poulpy_eth_pir_demo.Snapshot.Local.{load_from-IsLocal}

-- A map that the file's layout can hold: each address once, 20 bytes long, and every number within
-- its width.
pub record IsStorable (m : BalanceMap) : Type 0 where
  pub once : Unique m.inner
  pub rows : All IsRow m.inner
  pub cursor_fits : IsU64 m.cursor
  pub count_fits : IsU64 (length m.inner)

pub read_u64-bytes :
    (v : ℕ) (rest : List ℕ) → IsU64 v → read_u64 (to_le_bytes 8 v ++ rest) ≡ (ok v, rest)
unfolding read_u64
read_u64-bytes v rest h =
    rw (read_exact-append (to_le_bytes 8 v) rest 8 unexpected_eof (sym (length-to_le_bytes 8 v)))
      (rw (from_le_bytes-to_le_bytes 8 v h))

pub read_magic-snapshot : (rest : List ℕ) → read_magic (snapshot_magic ++ rest) ≡ (ok true, rest)
unfolding read_magic bytes_eq
read_magic-snapshot rest = rw (read_exact-append snapshot_magic rest 8 unexpected_eof refl)

read_magic-legacy : (rest : List ℕ) → read_magic (legacy_magic ++ rest) ≡ (ok false, rest)
unfolding read_magic bytes_eq
read_magic-legacy rest = rw (read_exact-append legacy_magic rest 8 unexpected_eof refl)

pub write_rows-IsU64 : (m : _) (h : ℕ) → IsU64 h → IsU64 (write_rows m h).1
unfolding write_rows
write_rows-IsU64 [] h fits = fits
write_rows-IsU64 ((addr, e) ∷ m) h fits = write_rows-IsU64 m _ (eat-IsU64 _ h fits)

verify_checksum-bytes :
    (cursor count h : ℕ) (rest : List ℕ)
    → IsU64 h
    → verify_checksum cursor count h (to_le_bytes 8 (seal cursor count h) ++ rest) ≡ (ok tt, rest)
unfolding verify_checksum seal
verify_checksum-bytes cursor count h rest fits =
    let s : ℕ = seal cursor count h in
    let s_fits : IsU64 s =
      eat-IsU64 (to_le_bytes 8 count) _ (eat-IsU64 (to_le_bytes 8 cursor) h fits) in
    rw
      (
        read_exact-append (to_le_bytes 8 s) rest 8 invalid_data (sym (length-to_le_bytes 8 s)),
        from_le_bytes-to_le_bytes 8 s s_fits,
      )
      (ground arith)

module _ (m : BalanceMap) (storable : IsStorable m) where
  abbrev rows : List ℕ
  rows = (write_rows m.inner start_digest).0

  abbrev digest : ℕ
  digest = (write_rows m.inner start_digest).1

  read_rows-all :
      (rest : List ℕ)
      → read_rows (length m.inner) [] start_digest (rows ++ rest) ≡ (ok (m.inner, digest), rest)
  read_rows-all rest =
      read_rows-write_rows m.inner [] start_digest rest storable.rows
      ∙ rw (insert_all_lem m.inner storable.once)

  -- The file's four parts, and what stands behind the rows.
  load_from-parts :
      (rest : List ℕ)
      → load_from (
          snapshot_magic
          ++ (to_le_bytes 8 m.cursor
              ++ (to_le_bytes 8 (length m.inner)
                  ++ (rows ++ (to_le_bytes 8 (seal m.cursor (length m.inner) digest) ++ rest)))))
        ≡ (ok m, rest)
  unfolding load_from
  load_from-parts rest = rw (
    read_magic-snapshot _,
    read_u64-bytes m.cursor _ storable.cursor_fits,
    read_u64-bytes (length m.inner) _ storable.count_fits,
    read_rows-all _,
    verify_checksum-bytes m.cursor (length m.inner) digest rest digest_fits,
  )
    where
      digest_fits : IsU64 digest
      digest_fits = write_rows-IsU64 m.inner start_digest (omega arith)

  load_from-legacy :
      (rest : List ℕ)
      → load_from (
          legacy_magic
          ++ (to_le_bytes 8 m.cursor ++ (to_le_bytes 8 (length m.inner) ++ (rows ++ rest))))
        ≡ (ok m, rest)
  unfolding load_from
  load_from-legacy rest = rw (
    read_magic-legacy _,
    read_u64-bytes m.cursor _ storable.cursor_fits,
    read_u64-bytes (length m.inner) _ storable.count_fits,
    read_rows-all _,
  )

  load_from-write : (rest : List ℕ) → load_from (write_snapshot_file m ++ rest) ≡ (ok m, rest)
  unfolding write_snapshot_file
  load_from-write rest =
      ap load_from
        {y = snapshot_magic
          ++ (to_le_bytes 8 m.cursor
              ++ (to_le_bytes 8 (length m.inner)
                  ++ (rows ++ (to_le_bytes 8 (seal m.cursor (length m.inner) digest) ++ rest))))}
        (simp append_assoc)
      ∙ load_from-parts rest

  -- Let a map name each address once, with 20 bytes, and let its numbers fit their widths.
  -- Loading the file written for it gives that map, with its rows in order.
  pub load-write_snapshot_file : load (write_snapshot_file m) ≡ ok m
  unfolding load
  load-write_snapshot_file =
      ap (λ (r : Result ErrorKind BalanceMap × List ℕ). r.0)
        (ap load_from (sym (append-nil _)) ∙ load_from-write [])

  -- Let a map name each address once, with 20 bytes, and let its numbers fit their widths. A
  -- file of the older format with its rows, without a checksum, gives the map, whatever follows
  -- the rows.
  pub load-legacy :
      (rest : List ℕ)
      → load (
          legacy_magic
          ++ (to_le_bytes 8 m.cursor
              ++ (to_le_bytes 8 (length m.inner) ++ ((write_rows m.inner start_digest).0 ++ rest))))
        ≡ ok m
  unfolding load
  load-legacy rest = ap (λ (r : Result ErrorKind BalanceMap × List ℕ). r.0) (load_from-legacy rest)

  -- Let a map name each address once, with 20 bytes, and let its numbers fit their widths. The
  -- file written for it, cut short anywhere, is refused: loading a proper front part of it is an
  -- error.
  pub load-truncated :
      (front back : List ℕ) (b : ℕ)
      → write_snapshot_file m ≡ front ++ (b ∷ back)
      → (k : ErrorKind) × (load front ≡ err k)
  unfolding load
  load-truncated front back b cut = go (load_from front).0 refl
    where
      go :
          (r : Result ErrorKind BalanceMap)
          → (load_from front).0 ≡ r
          → (k : ErrorKind) × ((load_from front).0 ≡ err k)
      go (err k) e = (k, e)
      go (ok m') e = absurd (omega (arith, length-append (load_from front).1 (b ∷ back), left_over))
        where
          whole : load_from (front ++ (b ∷ back)) ≡ (ok m, [])
          whole = ap load_from (sym cut ∙ sym (append-nil _)) ∙ load_from-write []

          longer : load_from (front ++ (b ∷ back)) ≡ (ok m', (load_from front).1 ++ (b ∷ back))
          longer =
              load_from-IsLocal.extend front (b ∷ back) (load_from front).1 m'
                (λ i. (e i, (load_from front).1))

          left_over : length ((load_from front).1 ++ (b ∷ back)) ≡ 0
          left_over =
              ap (λ (r : Result ErrorKind BalanceMap × List ℕ). length r.1) (sym longer ∙ whole)
