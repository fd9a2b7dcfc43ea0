-- ===== src/Snapshot.antt =====
-- src/map/snapshot.rs: the snapshot file, written and read as byte strings. `usize` has 64 bits.
-- The capacity hint for a map is not modelled, nor the text of an error beyond its kind.
pub mod Rows
pub mod Local
pub mod Digest
pub mod Wrong
pub mod OneByte
pub mod Changed
pub mod RoundTrip
use Prim.Native.Nat.{bit_xor}
use poulpy_eth_pir_demo.Base.{
  ℕ, zero, suc, ◌*◌, ◌%◌, ◌^◌, Bool, true, false, List, [], ◌∷◌, ◌++◌, length, replicate, take,
  nat_eq, if◌then◌else◌,
}
use poulpy_eth_pir_demo.Base.Equality.{◌==◌, byte_list_eq}
use poulpy_eth_pir_demo.Base.Table
use poulpy_eth_pir_demo.Base.Table.{Table}
use poulpy_eth_pir_demo.Base.Bytes.{to_le_bytes, from_le_bytes}
use poulpy_eth_pir_demo.Base.Slices.{slice, copy_into}
use poulpy_eth_pir_demo.Base.Run.{Result, Run, pure, fail, ◌>>=◌, ◌>>◌}
use poulpy_eth_pir_demo.Base.Reader.{Reader, read_exact}
use poulpy_eth_pir_demo.Tokens.{Address}
use poulpy_eth_pir_demo.Record.{Entry}
use poulpy_eth_pir_demo.Balances.{BalanceMap}

-- `std::io::ErrorKind`, as far as the program tells kinds apart.
pub data ErrorKind : Type 0 where
  not_found unexpected_eof invalid_data other : ErrorKind

-- "USDTPIR3" and "USDTPIR2"
abbrev pub snapshot_magic : List ℕ
snapshot_magic = 85 ∷ 83 ∷ 68 ∷ 84 ∷ 80 ∷ 73 ∷ 82 ∷ 51 ∷ []

abbrev pub legacy_magic : List ℕ
legacy_magic = 85 ∷ 83 ∷ 68 ∷ 84 ∷ 80 ∷ 73 ∷ 82 ∷ 50 ∷ []

abbrev pub row_size : ℕ
row_size = 60

abbrev pub Digest : Type 0
Digest = ℕ

abbrev pub start_digest : Digest
start_digest = 0xcbf2_9ce4_8422_2325

unfoldable pub eat : List ℕ → Digest → Digest
eat [] h = h
eat (b ∷ bs) h = eat bs (bit_xor h b * 0x100_0000_01b3 % 2 ^ 64)

unfoldable pub seal : ℕ → ℕ → Digest → ℕ
seal cursor count h = eat (to_le_bytes 8 count) (eat (to_le_bytes 8 cursor) h)

unfoldable pub row_of : Address → Entry → List ℕ
row_of addr e =
    let row = replicate row_size 0 in
    let row = copy_into 0 addr row in
    let row = copy_into 20 (to_le_bytes 16 e.usdt) row in
    let row = copy_into 36 (to_le_bytes 4 e.usdt_block) row in
    let row = copy_into 40 (to_le_bytes 16 e.usdc) row in
    copy_into 56 (to_le_bytes 4 e.usdc_block) row

-- The bytes written, and the digest of them all.
unfoldable pub write_rows : Table Address Entry → Digest → List ℕ × Digest
write_rows [] digest = ([], digest)
write_rows ((addr, e) ∷ rest) digest =
    let row = row_of addr e in
    let (rows, digest') = write_rows rest (eat row digest) in (row ++ rows, digest')

unfoldable pub write_snapshot_file : BalanceMap → List ℕ
write_snapshot_file m =
    let (rows, digest) = write_rows m.inner start_digest in
    snapshot_magic
    ++ (to_le_bytes 8 m.cursor
        ++ (to_le_bytes 8 (length m.inner)
            ++ (rows ++ to_le_bytes 8 (seal m.cursor (length m.inner) digest))))

abbrev Read : Type 0 → Type 0
Read A = Reader ErrorKind A

unfoldable pub read_magic : Read Bool
read_magic = do
  magic ← read_exact 8 unexpected_eof
  if magic == snapshot_magic
      then pure true
      else if magic == legacy_magic
      then pure false
      else fail invalid_data

unfoldable pub read_u64 : Read ℕ
read_u64 = do buf ← read_exact 8 unexpected_eof; pure (from_le_bytes buf)

unfoldable pub entry_from_row : List ℕ → Entry
entry_from_row row = record {
  usdt = from_le_bytes (slice 20 36 row);
  usdt_block = from_le_bytes (slice 36 40 row);
  usdc = from_le_bytes (slice 40 56 row);
  usdc_block = from_le_bytes (slice 56 60 row);
}

-- The row's address and record, and the digest with the row eaten.
unfoldable pub read_row : Digest → Read (Address × Entry × Digest)
read_row digest = do
  row ← read_exact row_size unexpected_eof
  pure (slice 0 20 row, entry_from_row row, eat row digest)

unfoldable pub read_rows : ℕ → Table Address Entry → Digest → Read (Table Address Entry × Digest)
read_rows zero inner digest = pure (inner, digest)
read_rows (suc count) inner digest = do
  (addr, entry, digest') ← read_row digest
  read_rows count (Table.insert addr entry inner) digest'

-- A footer that is missing or cut short is reported as invalid data.
unfoldable pub verify_checksum : ℕ → ℕ → Digest → Read (Unit {0})
verify_checksum cursor count digest = do
  footer ← read_exact 8 invalid_data
  if nat_eq (from_le_bytes footer) (seal cursor count digest) then pure tt else fail invalid_data

unfoldable pub load_from : Read BalanceMap
load_from = do
  checksummed ← read_magic
  cursor ← read_u64
  count ← read_u64
  (inner, digest) ← read_rows count [] start_digest
  if checksummed then verify_checksum cursor count digest else pure tt
  pure (record { inner = inner; cursor = cursor })

unfoldable pub load : List ℕ → Result ErrorKind BalanceMap
load file = (load_from file).0
