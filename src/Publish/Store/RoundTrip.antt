-- ===== src/Publish/Store/RoundTrip.antt =====
-- The keyword index is read back as it was saved, and a crash between the two files is noticed.
use poulpy_eth_pir_demo.Base.{
  ℕ, ◌≡◌, ◌≢◌, refl, subst, ◌∙◌, List, [], ◌∷◌, ◌++◌, length, arith, All, append-nil, none, some,
}
use poulpy_eth_pir_demo.Base.Equality.{bytes_eq, byte_list_eq}
use poulpy_eth_pir_demo.Base.Bytes.{IsU64, to_le_bytes}
use poulpy_eth_pir_demo.Base.Run.{Result, ok}
use poulpy_eth_pir_demo.Base.Reader.{read_exact, read_exact-append}
use poulpy_eth_pir_demo.Snapshot.{ErrorKind, unexpected_eof}
use poulpy_eth_pir_demo.Snapshot.RoundTrip.{read_u64-bytes}
use poulpy_eth_pir_demo.Tokens.{Address}
use poulpy_eth_pir_demo.Publish.Store.{
  Files, Loaded, KeywordCheckpoint, index_magic, keys_magic, index_file, keys_file, write_keys,
  save_index, save_keys, expect_magic, read_blob, read_key_rows, read_keys_body, read_file,
  read_index, read_keys, match_versions, match_halves, load,
}

-- A checkpoint that the two layouts can hold.
pub record IsStorable (c : KeywordCheckpoint) : Type 0 where
  pub directory_fits : IsU64 (length c.directory)
  pub version_fits : IsU64 c.version
  pub count_fits : IsU64 (length c.keys)
  pub keys_fit : All (λ (key : Address). 20 ≡ length key) c.keys

expect_magic-index :
    (rest : List ℕ) → expect_magic index_magic (index_magic ++ rest) ≡ (ok tt, rest)
unfolding expect_magic bytes_eq
expect_magic-index rest = rw (read_exact-append index_magic rest 8 unexpected_eof refl)

expect_magic-keys : (rest : List ℕ) → expect_magic keys_magic (keys_magic ++ rest) ≡ (ok tt, rest)
unfolding expect_magic bytes_eq
expect_magic-keys rest = rw (read_exact-append keys_magic rest 8 unexpected_eof refl)

read_key_rows-write_keys :
    (keys : List Address)
    → All (λ (key : Address). 20 ≡ length key) keys
    → read_key_rows (length keys) (write_keys keys) ≡ (ok keys, [])
unfolding read_key_rows write_keys
read_key_rows-write_keys [] h = refl
read_key_rows-write_keys (key ∷ rest) (h, hs) =
    rw (
      read_exact-append key (write_keys rest) 20 unexpected_eof h,
      read_key_rows-write_keys rest hs,
    )

read_exact_all : (xs : List ℕ) (e : ErrorKind) → read_exact (length xs) e xs ≡ (ok xs, [])
read_exact_all xs e =
    subst (λ (ys : List ℕ). read_exact (length xs) e ys ≡ (ok xs, [])) (append-nil xs)
      (read_exact-append xs [] (length xs) e refl)

read_blob-file :
    (directory : List ℕ)
    → IsU64 (length directory)
    → read_blob (index_file directory) ≡ (ok directory, [])
unfolding read_blob index_file
read_blob-file directory h = rw (
  expect_magic-index (to_le_bytes 8 (length directory) ++ directory),
  read_u64-bytes (length directory) directory h,
  read_exact_all directory unexpected_eof,
)

read_keys_body-file :
    (c : KeywordCheckpoint)
    → IsStorable c
    → read_keys_body (keys_file c) ≡ (ok (c.keys, c.version), [])
unfolding read_keys_body keys_file
read_keys_body-file c storable = rw (
  expect_magic-keys
      (to_le_bytes 8 c.version ++ (to_le_bytes 8 (length c.keys) ++ write_keys c.keys)),
  read_u64-bytes c.version (to_le_bytes 8 (length c.keys) ++ write_keys c.keys)
      storable.version_fits,
  read_u64-bytes (length c.keys) (write_keys c.keys) storable.count_fits,
  read_key_rows-write_keys c.keys storable.keys_fit,
)

module _ (directory_version : List ℕ → Result ErrorKind ℕ) where
  -- Any index beside the keys of any checkpoint.
  load_pair :
      (directory : List ℕ) (version : ℕ) (c : KeywordCheckpoint)
      → IsU64 (length directory)
      → IsStorable c
      → directory_version directory ≡ ok version
      → load directory_version
          (record { index = some (index_file directory); keys = some (keys_file c) })
        ≡ ok (match_versions directory_version directory c.keys c.version version)
  unfolding load read_index read_keys read_file match_halves
  load_pair directory version c fits storable e =
      ground (arith, read_blob-file directory fits, read_keys_body-file c storable, e)

  -- A checkpoint is read back as it was saved. If the program stops between its two files, beside
  -- the index of another version, nothing is read, so the index is built anew. And an index of the
  -- checkpoint's version that is published later is read with the checkpoint's keys.
  pub load-save_checkpoint :
      (c : KeywordCheckpoint) (before later : List ℕ) (version : ℕ) (files : Files)
      → IsStorable c
      → directory_version c.directory ≡ ok c.version
      → IsU64 (length before)
      → directory_version before ≡ ok version
      → version ≢ c.version
      → files.index ≡ some (index_file before)
      → IsU64 (length later)
      → directory_version later ≡ ok c.version
      → let half = save_keys c files in
        let loaded : List ℕ → Loaded =
          λ directory. record { directory = directory; keys = c.keys; version = c.version } in
        (load directory_version half ≡ ok none)
        × (load directory_version (save_index c.directory half) ≡ ok (some (loaded c.directory)))
        × (load directory_version (save_index later (save_index c.directory half))
            ≡ ok (some (loaded later)))
  unfolding save_keys save_index match_versions
  load-save_checkpoint c before later version files storable e fits eb ne i fits' el = (
    rw i (load_pair before version c fits storable eb ∙ ground (arith, ne)),
    load_pair c.directory c.version c storable.directory_fits storable e ∙ ground arith,
    load_pair later c.version c fits' storable el ∙ ground arith,
  )
