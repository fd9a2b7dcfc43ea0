-- ===== src/Publish/Store.antt =====
-- src/keyword_store/mod.rs: the two files of the keyword index, as byte strings. A file is there or
-- not. Parsing the blob of the index belongs to the poulpy-pir crate, so `directory_version` is a
-- parameter. `usize` has 64 bits.
pub mod RoundTrip
use poulpy_eth_pir_demo.Base.{
  ℕ, zero, suc, Option, none, some, List, [], ◌∷◌, ◌++◌, length, nat_eq, if◌then◌else◌,
}
use poulpy_eth_pir_demo.Base.Equality.{◌==◌, byte_list_eq}
use poulpy_eth_pir_demo.Base.Bytes.{to_le_bytes}
use poulpy_eth_pir_demo.Base.Run.{Result, ok, err, Run, pure, fail, ◌>>=◌}
use poulpy_eth_pir_demo.Base.Reader.{Reader, read_exact}
use poulpy_eth_pir_demo.Snapshot.{ErrorKind, unexpected_eof, invalid_data, read_u64}
use poulpy_eth_pir_demo.Tokens.{Address}

-- "USDTKWI1" and "USDTKWK1"
abbrev pub index_magic : List ℕ
index_magic = 85 ∷ 83 ∷ 68 ∷ 84 ∷ 75 ∷ 87 ∷ 73 ∷ 49 ∷ []

abbrev pub keys_magic : List ℕ
keys_magic = 85 ∷ 83 ∷ 68 ∷ 84 ∷ 75 ∷ 87 ∷ 75 ∷ 49 ∷ []

-- The files at the two paths.
pub record Files : Type 0 where
  pub index : Option (List ℕ)
  pub keys : Option (List ℕ)

pub record Loaded : Type 0 where
  pub directory : List ℕ
  pub keys : List Address
  pub version : ℕ

-- The type of the eth-pir crate that the program saves.
pub record KeywordCheckpoint : Type 0 where
  pub directory : List ℕ
  pub keys : List Address
  pub version : ℕ

unfoldable pub index_file : List ℕ → List ℕ
index_file directory = index_magic ++ (to_le_bytes 8 (length directory) ++ directory)

unfoldable pub write_keys : List Address → List ℕ
write_keys [] = []
write_keys (key ∷ rest) = key ++ write_keys rest

unfoldable pub keys_file : KeywordCheckpoint → List ℕ
keys_file c =
    keys_magic ++ (to_le_bytes 8 c.version ++ (to_le_bytes 8 (length c.keys) ++ write_keys c.keys))

unfoldable pub save_index : List ℕ → Files → Files
save_index directory d = record d { index = some (index_file directory) }

-- The first of the two writes of a checkpoint.
unfoldable pub save_keys : KeywordCheckpoint → Files → Files
save_keys c d = record d { keys = some (keys_file c) }

-- The states of the disk that a checkpoint goes through, in order.
unfoldable pub save_checkpoint : KeywordCheckpoint → Files → List Files
save_checkpoint c d = let d' = save_keys c d in d ∷ d' ∷ save_index c.directory d' ∷ []

unfoldable pub expect_magic : List ℕ → Reader ErrorKind (Unit {0})
expect_magic want = do
  magic ← read_exact 8 unexpected_eof
  if magic == want then pure tt else fail invalid_data

unfoldable pub read_blob : Reader ErrorKind (List ℕ)
read_blob = do _ ← expect_magic index_magic; len ← read_u64; read_exact len unexpected_eof

unfoldable pub read_key_rows : ℕ → Reader ErrorKind (List Address)
read_key_rows zero = pure []
read_key_rows (suc count) = do
  key ← read_exact 20 unexpected_eof
  rest ← read_key_rows count
  pure (key ∷ rest)

unfoldable pub read_keys_body : Reader ErrorKind (List Address × ℕ)
read_keys_body = do
  _ ← expect_magic keys_magic
  version ← read_u64
  count ← read_u64
  keys ← read_key_rows count
  pure (keys, version)

-- `none` if the file is not there.
unfoldable pub read_file :
    {A : Type 0} → Reader ErrorKind A → Option (List ℕ) → Result ErrorKind (Option A)
read_file m none = ok none
read_file m (some f) = elim ((m f).0) [ ok a ↦ ok (some a) | err e ↦ err e ]

unfoldable pub read_index : Files → Result ErrorKind (Option (List ℕ))
read_index d = read_file read_blob d.index

unfoldable pub read_keys : Files → Result ErrorKind (Option (List Address × ℕ))
read_keys d = read_file read_keys_body d.keys

module _ (directory_version : List ℕ → Result ErrorKind ℕ) where
  unfoldable pub match_versions : List ℕ → List Address → ℕ → ℕ → Option Loaded
  match_versions directory keys keys_version version =
      if nat_eq version keys_version
      then some (record { directory = directory; keys = keys; version = version })
      else none

  unfoldable pub match_halves :
      Option (List ℕ) → Option (List Address × ℕ) → Result ErrorKind (Option Loaded)
  match_halves (some directory) (some (keys, keys_version)) = elim (directory_version directory) [
    | ok version ↦ ok (match_versions directory keys keys_version version)
    | err e ↦ err e
  ]
  match_halves (some directory) none = ok none
  match_halves none keys = ok none

  unfoldable pub load : Files → Result ErrorKind (Option Loaded)
  load d = elim (read_index d) [
    | ok directory ↦ elim (read_keys d) [ ok keys ↦ match_halves directory keys | err e ↦ err e ]
    | err e ↦ err e
  ]
