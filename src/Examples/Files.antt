-- ===== src/Examples/Files.antt =====
-- Runs of the snapshot file.
use poulpy_eth_pir_demo.Base.{ℕ, ◌≡◌, refl, List, [], ◌∷◌, ◌++◌, length, take, drop, arith, inr}
use poulpy_eth_pir_demo.Base.Equality.{byte_list_eq, bytes_eq}
use poulpy_eth_pir_demo.Base.Table
use poulpy_eth_pir_demo.Base.Bytes.{to_le_bytes}
use poulpy_eth_pir_demo.Base.Slices.{copy_into}
use poulpy_eth_pir_demo.Base.Run.{ok, err}
use poulpy_eth_pir_demo.Balances.{BalanceMap}
use poulpy_eth_pir_demo.Snapshot.{
  ErrorKind, invalid_data, write_snapshot_file, write_rows, row_of, eat, seal, load, legacy_magic,
  start_digest,
}
use poulpy_eth_pir_demo.Snapshot.RoundTrip.{
  IsStorable, load-write_snapshot_file, load-legacy, load-truncated,
}
use poulpy_eth_pir_demo.Snapshot.Changed.{load-changed}
use poulpy_eth_pir_demo.Examples.Records.{alice, bob, some_entry}

abbrev two_holders : BalanceMap
two_holders = record { inner = (alice, some_entry) ∷ (bob, some_entry) ∷ []; cursor = 21000000 }

two_holders-IsStorable : IsStorable two_holders
unfolding Table.get bytes_eq
two_holders-IsStorable = record {
  once = (refl, (refl, tt));
  rows = omega arith;
  cursor_fits = omega arith;
  count_fits = omega arith;
}

load-write_snapshot_file_example : load (write_snapshot_file two_holders) ≡ ok two_holders
load-write_snapshot_file_example = load-write_snapshot_file two_holders two_holders-IsStorable

load-legacy_example :
    load (
      legacy_magic
      ++ (to_le_bytes 8 two_holders.cursor
          ++ (to_le_bytes 8 (length two_holders.inner)
              ++ ((write_rows two_holders.inner start_digest).0 ++ []))))
    ≡ ok two_holders
load-legacy_example = load-legacy two_holders two_holders-IsStorable []

abbrev cut_front : List ℕ
cut_front = take 100 (write_snapshot_file two_holders)

-- Byte 100 is inside the second row.
cut_here :
    write_snapshot_file two_holders ≡ cut_front ++ (9 ∷ drop 101 (write_snapshot_file two_holders))
unfolding write_snapshot_file write_rows row_of eat seal to_le_bytes copy_into
cut_here = refl

load-truncated_example : (k : ErrorKind) × (load cut_front ≡ err k)
load-truncated_example =
    load-truncated two_holders two_holders-IsStorable cut_front
      (drop 101 (write_snapshot_file two_holders)) 9 cut_here

load-changed_example :
    load (cut_front ++ (8 ∷ drop 101 (write_snapshot_file two_holders))) ≡ err invalid_data
unfolding write_snapshot_file write_rows row_of eat seal to_le_bytes copy_into
load-changed_example =
    load-changed two_holders two_holders-IsStorable (omega arith) cut_front
      (drop 101 (write_snapshot_file two_holders)) 9 8 cut_here (inr (omega arith)) (omega arith)
      (λ h. cc)
