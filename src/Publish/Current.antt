-- ===== src/Publish/Current.antt =====
-- src/publish/worker.rs: the worker's own copy of the records that it has absorbed.
use poulpy_eth_pir_demo.Base.{Option, none, some, [], ◌∷◌, ◌≡◌, refl, if◌then◌else◌, arith}
use poulpy_eth_pir_demo.Base.Equality.{◌==◌, byte_list_eq, bytes_eq_iff}
use poulpy_eth_pir_demo.Base.Table
use poulpy_eth_pir_demo.Base.Table.{Table, Unique}
use poulpy_eth_pir_demo.Tokens.{Address}
use poulpy_eth_pir_demo.Record.{Entry, is_zero}

-- One pass worth of changed entries.
abbrev pub UpdateBatch : Type 0
UpdateBatch = Table Address Entry

abbrev pub PirSnapshot : Type 0
PirSnapshot = Table Address Entry

unfoldable pub record_current_value : Address → Entry → PirSnapshot → PirSnapshot
record_current_value addr entry current =
    if is_zero entry then Table.remove addr current else Table.insert addr entry current

-- A batch whose updates the server all accepts.
unfoldable pub record_batch : UpdateBatch → PirSnapshot → PirSnapshot
record_batch [] current = current
record_batch ((addr, entry) ∷ rest) current =
    record_batch rest (record_current_value addr entry current)

-- What the copy holds of an address, from what the batch says and what was held.
abbrev pub told : Option Entry → Option Entry → Option Entry
told none held = held
told (some e) held = if is_zero e then none else some e

pub get-record_current_value :
    (addr j : Address) (e : Entry) (current : PirSnapshot)
    → Table.get j (record_current_value addr e current)
      ≡ (if addr == j then told (some e) (Table.get j current) else Table.get j current)
unfolding record_current_value
get-record_current_value addr j e current =
    ground (arith, Table.get-remove addr j current, Table.get-insert addr j e current)

-- A batch that names no address twice leaves each address with what it says, or else as it was.
pub get-record_batch :
    (batch : UpdateBatch) (current : PirSnapshot) (j : Address)
    → Unique batch
    → Table.get j (record_batch batch current) ≡ told (Table.get j batch) (Table.get j current)
unfolding record_batch Table.get
get-record_batch [] current j u = refl
get-record_batch ((addr, e) ∷ rest) current j u = ground (
  arith,
  get-record_batch rest (record_current_value addr e current) j u.1,
  get-record_current_value addr j e current,
  bytes_eq_iff addr j,
)
