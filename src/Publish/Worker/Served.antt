-- ===== src/Publish/Worker/Served.antt =====
-- The directory that clients are served is on the disk, through every round of the worker.
use poulpy_eth_pir_demo.Base.{
  ℕ, Bool, true, false, Option, none, some, List, ◌≡◌, refl, if◌then◌else◌, inl, inr, ◌⊎◌, arith,
}
use poulpy_eth_pir_demo.Publish.Directory.{Directory, Parsed, from_blob, directory_of}
use poulpy_eth_pir_demo.Publish.Store.{Files, index_file, save_index}
use poulpy_eth_pir_demo.Publish.Worker.{
  Server, PirConfig, Worker, publish, publish_directory, expose, serve_round, save_after_compaction,
  save_checkpoint, compact_if_needed, resync_from_current_map, record_resync,
}

-- The blob of the slot's directory is what the index file holds.
abbrev pub IsPersisted : Option Directory → Files → Type 0
IsPersisted none files = Unit
IsPersisted (some d) files = files.index ≡ some (index_file d.full)

module _ (server : Server) (cfg : PirConfig) where
  open server use {State, read_from, try_full, can_write_index}

  -- The slot is as it was, or holds what is on the disk.
  abbrev pub IsServed : Worker State → Worker State → Type 0
  IsServed w w' = (w'.slot ≡ w.slot) ⊎ IsPersisted w'.slot w'.files

  expose-IsServed :
      (blob : List ℕ) (w : Worker State)
      → w.files.index ≡ some (index_file blob)
      → IsServed w (expose server cfg blob w)
  unfolding expose from_blob directory_of
  expose-IsServed blob w e = go (read_from blob)
    where
      go :
          (r : Option Parsed)
          → IsServed w
              (elim (elim r as (λ x. Option Directory) [
                | none ↦ none
                | some parsed ↦ some (directory_of blob parsed)
              ])
                as (λ x. Worker State) [ none ↦ w | some d ↦ record w { slot = some d } ])
      go none = inl refl
      go (some parsed) = inr e

  publish_directory-IsServed : (w : Worker State) → IsServed w (publish_directory server cfg w)
  unfolding publish_directory save_index
  publish_directory-IsServed w = go (try_full w.server)
    where
      persist : Bool → List ℕ → Worker State
      persist b blob =
          if b then expose server cfg blob (record w { files = save_index blob w.files }) else w

      persist-IsServed : (b : Bool) (blob : List ℕ) → IsServed w (persist b blob)
      persist-IsServed true blob =
          expose-IsServed blob (record w { files = save_index blob w.files }) refl
      persist-IsServed false blob = inl refl

      go :
          (r : Option (List ℕ))
          → IsServed w (elim r [ none ↦ w | some blob ↦ persist (can_write_index w.server) blob ])
      go none = inl refl
      go (some blob) = persist-IsServed (can_write_index w.server) blob

  publish_slot : (w : Worker State) → (publish server cfg w).slot ≡ w.slot
  unfolding publish
  publish_slot w = ground arith

  compact_slot : (w : Worker State) → (compact_if_needed server cfg w).1.slot ≡ w.slot
  unfolding compact_if_needed resync_from_current_map record_resync
  compact_slot w = ground arith

  save_slot : (w : Worker State) → (save_checkpoint server cfg w).slot ≡ w.slot
  unfolding save_checkpoint
  save_slot w = ground arith

  save_after_compaction_slot :
      (w : Worker State) → (save_after_compaction server cfg w).slot ≡ w.slot
  unfolding save_after_compaction
  save_after_compaction_slot w =
      ground (arith, compact_slot w, save_slot (compact_if_needed server cfg w).1)

  -- A round of the worker, whatever the server answers and whichever writes fail: the directory that
  -- clients are served is the one they were served before, or its blob is in the index file.
  pub serve_round-IsServed : (w : Worker State) → IsServed w (serve_round server cfg w)
  unfolding serve_round
  serve_round-IsServed w = elim (publish_directory-IsServed before) [
    | inl same ↦ inl (cc (same, save_after_compaction_slot (publish server cfg w), publish_slot w))
    | inr persisted ↦ inr persisted
  ]
    where
      before : Worker State
      before = save_after_compaction server cfg (publish server cfg w)
