-- ===== src/Snapshot/Local.antt =====
-- Loading a snapshot does not look past the file's last field.
use poulpy_eth_pir_demo.Base.{ℕ, zero, suc}
use poulpy_eth_pir_demo.Base.Equality.{byte_list_eq}
use poulpy_eth_pir_demo.Base.Table
use poulpy_eth_pir_demo.Base.Table.{Table}
use poulpy_eth_pir_demo.Base.Reader.{IsLocal, local_rules, bind-IsLocal}
use poulpy_eth_pir_demo.Tokens.{Address}
use poulpy_eth_pir_demo.Record.{Entry}
use poulpy_eth_pir_demo.Snapshot.{
  Digest, read_magic, read_u64, read_row, read_rows, verify_checksum, load_from,
}

read_magic-IsLocal : IsLocal read_magic
unfolding read_magic
read_magic-IsLocal = search local_rules

pub read_u64-IsLocal : IsLocal read_u64
unfolding read_u64
read_u64-IsLocal = search local_rules

read_row-IsLocal : (digest : Digest) → IsLocal (read_row digest)
unfolding read_row
read_row-IsLocal digest = search local_rules

read_rows-IsLocal :
    (count : ℕ) (inner : Table Address Entry) (digest : Digest)
    → IsLocal (read_rows count inner digest)
unfolding read_rows
read_rows-IsLocal zero inner digest = search local_rules
read_rows-IsLocal (suc count) inner digest =
    bind-IsLocal (read_row digest) _ (read_row-IsLocal digest)
      (λ r. read_rows-IsLocal count (Table.insert r.0 r.1 inner) r.2)

verify_checksum-IsLocal :
    (cursor count : ℕ) (digest : Digest) → IsLocal (verify_checksum cursor count digest)
unfolding verify_checksum
verify_checksum-IsLocal cursor count digest = search local_rules

pub load_from-IsLocal : IsLocal load_from
unfolding load_from
load_from-IsLocal =
    search
      (
        local_rules, read_magic-IsLocal, read_u64-IsLocal, read_rows-IsLocal,
        verify_checksum-IsLocal,
      )
      depth 12
