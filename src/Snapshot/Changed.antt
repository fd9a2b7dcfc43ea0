-- ===== src/Snapshot/Changed.antt =====
-- A snapshot file in which one byte was changed is refused.
use poulpy_eth_pir_demo.Base.{
  ℕ, ◌^◌, ◌≤◌, ◌<◌, ◌≡◌, ◌≢◌, ◌⊎◌, inl, inr, refl, sym, ap, ◌∙◌, subst, List, [], ◌∷◌, ◌++◌, length,
  arith, All, append_assoc, length-append,
}
use poulpy_eth_pir_demo.Base.Equality.{byte_list_eq}
use poulpy_eth_pir_demo.Base.Bytes.{
  IsByte, IsU64, to_le_bytes, from_le_bytes, length-to_le_bytes, to_le_bytes-IsByte,
  from_le_bytes-to_le_bytes, to_le_bytes-from_le_bytes, from_le_bytes-lt,
}
use poulpy_eth_pir_demo.Base.Run.{err}
use poulpy_eth_pir_demo.Balances.{BalanceMap}
use poulpy_eth_pir_demo.Snapshot.{
  snapshot_magic, start_digest, seal, write_rows, write_snapshot_file, load_from, load,
  invalid_data, eat,
}
use poulpy_eth_pir_demo.Snapshot.Digest.{eat-IsU64, eat-injective}
use poulpy_eth_pir_demo.Snapshot.RoundTrip.{IsStorable}
use poulpy_eth_pir_demo.Snapshot.Wrong.{
  HasBytes, load_from-wrong, length-write_rows, digest-write_rows, write_rows-IsByte,
}
use poulpy_eth_pir_demo.Snapshot.OneByte.{
  split, inside, changed-IsByte, length-changed, eat-changed, part-changed,
}

-- Where the bytes of the cursor, the rows and the checksum stand in a file.
abbrev pub IsCovered : ℕ → Type 0
IsCovered n = ((8 ≤ n) × (n < 16)) ⊎ (24 ≤ n)

module _ (m : BalanceMap) (storable : IsStorable m) (bytes : All HasBytes m.inner) where
  abbrev rows : List ℕ
  rows = (write_rows m.inner start_digest).0

  abbrev cursor_bytes : List ℕ
  cursor_bytes = to_le_bytes 8 m.cursor

  abbrev count_bytes : List ℕ
  count_bytes = to_le_bytes 8 (length m.inner)

  abbrev checksum : ℕ
  checksum = seal m.cursor (length m.inner) (eat rows start_digest)

  rows_fit : IsU64 (eat rows start_digest)
  rows_fit = eat-IsU64 rows start_digest (omega arith)

  checksum_fits : IsU64 checksum
  unfolding seal
  checksum_fits = eat-IsU64 count_bytes _ (eat-IsU64 cursor_bytes _ rows_fit)

  read_checksum : from_le_bytes (to_le_bytes 8 checksum) ≡ checksum
  read_checksum = from_le_bytes-to_le_bytes 8 checksum checksum_fits

  layout :
      write_snapshot_file m
      ≡ snapshot_magic ++ (cursor_bytes ++ (count_bytes ++ (rows ++ to_le_bytes 8 checksum)))
  unfolding write_snapshot_file
  layout = rw (digest-write_rows m.inner start_digest) refl

  module _ (front back : List ℕ) (b b' : ℕ) (small : IsByte b') (other : b ≢ b') where
    abbrev part' : List ℕ
    part' = front ++ (b' ∷ back)

    cursor-changed :
        cursor_bytes ≡ front ++ (b ∷ back)
        → load_from (snapshot_magic ++ (part' ++ (count_bytes ++ (rows ++ to_le_bytes 8 checksum))))
          ≡ (err invalid_data, [])
    unfolding seal
    cursor-changed at =
        ap
          (λ bs.
            load_from (snapshot_magic ++ (bs ++ (count_bytes ++ (rows ++ to_le_bytes 8 checksum)))))
          (sym same)
        ∙ load_from-wrong (from_le_bytes part') (length m.inner) rows (to_le_bytes 8 checksum)
            (subst (λ n. from_le_bytes part' < 256 ^ n) eight (from_le_bytes-lt part' part'_bytes))
            storable.count_fits (length-write_rows m.inner start_digest storable.rows)
            (length-to_le_bytes 8 checksum)
            (λ e.
              eat-changed cursor_bytes front back b b' at cursor_are_bytes small other
                (eat rows start_digest) rows_fit
                (eat-injective count_bytes _ _ (to_le_bytes-IsByte 8 (length m.inner))
                  (eat-IsU64 cursor_bytes _ rows_fit) (eat-IsU64 part' _ rows_fit)
                  (sym read_checksum
                    ∙ e
                    ∙ ap (λ bs. eat count_bytes (eat bs (eat rows start_digest))) same)))
      where
        cursor_are_bytes : All IsByte cursor_bytes
        cursor_are_bytes = to_le_bytes-IsByte 8 m.cursor

        part'_bytes : All IsByte part'
        part'_bytes = changed-IsByte cursor_bytes front back b b' at cursor_are_bytes small other

        eight : length part' ≡ 8
        eight =
            length-changed cursor_bytes front back b b' at cursor_are_bytes small other
            ∙ length-to_le_bytes 8 m.cursor

        same : to_le_bytes 8 (from_le_bytes part') ≡ part'
        same =
            ap (λ n. to_le_bytes n (from_le_bytes part')) (sym eight)
            ∙ to_le_bytes-from_le_bytes part' part'_bytes

    rows-changed :
        rows ≡ front ++ (b ∷ back)
        → load_from
            (snapshot_magic ++ (cursor_bytes ++ (count_bytes ++ (part' ++ to_le_bytes 8 checksum))))
          ≡ (err invalid_data, [])
    unfolding seal
    rows-changed at =
        load_from-wrong m.cursor (length m.inner) part' (to_le_bytes 8 checksum)
          storable.cursor_fits storable.count_fits
          (length-changed rows front back b b' at rows_bytes small other
            ∙ length-write_rows m.inner start_digest storable.rows)
          (length-to_le_bytes 8 checksum)
          (λ e.
            eat-changed rows front back b b' at rows_bytes small other start_digest (omega arith) (
              eat-injective cursor_bytes _ _ (to_le_bytes-IsByte 8 m.cursor) rows_fit part'_fits (
                eat-injective count_bytes _ _ (to_le_bytes-IsByte 8 (length m.inner))
                  (eat-IsU64 cursor_bytes _ rows_fit) (eat-IsU64 cursor_bytes _ part'_fits)
                  (sym read_checksum ∙ e))))
      where
        rows_bytes : All IsByte rows
        rows_bytes = write_rows-IsByte m.inner start_digest storable.rows bytes

        part'_fits : IsU64 (eat part' start_digest)
        part'_fits = eat-IsU64 part' start_digest (omega arith)

    checksum-changed :
        to_le_bytes 8 checksum ≡ front ++ (b ∷ back)
        → load_from (snapshot_magic ++ (cursor_bytes ++ (count_bytes ++ (rows ++ part'))))
          ≡ (err invalid_data, [])
    checksum-changed at =
        load_from-wrong m.cursor (length m.inner) rows part' storable.cursor_fits
          storable.count_fits (length-write_rows m.inner start_digest storable.rows) eight
          (λ e.
            part-changed (to_le_bytes 8 checksum) front back b b' at checksum_bytes small other (
              ap (to_le_bytes 8) (sym e)
              ∙ ap (λ n. to_le_bytes n (from_le_bytes part')) (sym eight)
              ∙ to_le_bytes-from_le_bytes part' (
                  changed-IsByte (to_le_bytes 8 checksum) front back b b' at checksum_bytes small
                    other)))
      where
        checksum_bytes : All IsByte (to_le_bytes 8 checksum)
        checksum_bytes = to_le_bytes-IsByte 8 checksum

        eight : length part' ≡ 8
        eight =
            length-changed (to_le_bytes 8 checksum) front back b b' at checksum_bytes small other
            ∙ length-to_le_bytes 8 checksum

  module _ (b b' : ℕ) (small : IsByte b') (other : b ≢ b') where
    behind_count :
        (front back : List ℕ)
        → rows ++ to_le_bytes 8 checksum ≡ front ++ (b ∷ back)
        → (load_from
            (snapshot_magic ++ (cursor_bytes ++ (count_bytes ++ (front ++ (b' ∷ back)))))).0
          ≡ err invalid_data
    behind_count front back e = elim (split rows (to_le_bytes 8 checksum) front back b e) [
      | inl (back', at, q) ↦
          ap (λ bs. (load_from (snapshot_magic ++ (cursor_bytes ++ (count_bytes ++ bs)))).0)
            (ap (λ bs. front ++ (b' ∷ bs)) q ∙ sym (append_assoc front (b' ∷ back') _))
          ∙ ap (λ r. r.0) (rows-changed front back' b b' small other at)
      | inr (front', p, at) ↦
          ap (λ bs. (load_from (snapshot_magic ++ (cursor_bytes ++ (count_bytes ++ bs)))).0)
            (ap (λ bs. bs ++ (b' ∷ back)) p ∙ append_assoc rows front' (b' ∷ back))
          ∙ ap (λ r. r.0) (checksum-changed front' back b b' small other at)
    ]

    behind_cursor :
        (front back : List ℕ)
        → count_bytes ++ (rows ++ to_le_bytes 8 checksum) ≡ front ++ (b ∷ back)
        → 8 ≤ length front
        → (load_from (snapshot_magic ++ (cursor_bytes ++ (front ++ (b' ∷ back))))).0
          ≡ err invalid_data
    behind_cursor front back e h = elim (split count_bytes _ front back b e) [
      | inl (back', at, q) ↦
          absurd (omega (arith, inside front back' b at, length-to_le_bytes 8 (length m.inner)))
      | inr (front', p, at) ↦
          ap (λ bs. (load_from (snapshot_magic ++ (cursor_bytes ++ bs))).0)
            (ap (λ bs. bs ++ (b' ∷ back)) p ∙ append_assoc count_bytes front' (b' ∷ back))
          ∙ behind_count front' back at
    ]

    behind_magic :
        (front back : List ℕ)
        → cursor_bytes ++ (count_bytes ++ (rows ++ to_le_bytes 8 checksum)) ≡ front ++ (b ∷ back)
        → (length front < 8) ⊎ (16 ≤ length front)
        → (load_from (snapshot_magic ++ (front ++ (b' ∷ back)))).0 ≡ err invalid_data
    behind_magic front back e h = elim (split cursor_bytes _ front back b e) [
      | inl (back', at, q) ↦
          ap (λ bs. (load_from (snapshot_magic ++ bs)).0)
            (ap (λ bs. front ++ (b' ∷ bs)) q ∙ sym (append_assoc front (b' ∷ back') _))
          ∙ ap (λ r. r.0) (cursor-changed front back' b b' small other at)
      | inr (front', p, at) ↦
          ap (λ bs. (load_from (snapshot_magic ++ bs)).0)
            (ap (λ bs. bs ++ (b' ∷ back)) p ∙ append_assoc cursor_bytes front' (b' ∷ back))
          ∙ behind_cursor front' back at (late front' p)
    ]
      where
        late : (front' : List ℕ) → front ≡ cursor_bytes ++ front' → 8 ≤ length front'
        late front' p =
            ground
              (arith, length-append cursor_bytes front', length-to_le_bytes 8 m.cursor, ap length p)

  -- Let a map name each address once, with 20 bytes, and let its numbers fit their widths. The file
  -- written for it, with one byte of its cursor, its rows or its checksum changed to another byte, is
  -- refused as invalid data.
  pub load-changed :
      (front back : List ℕ) (b b' : ℕ)
      → write_snapshot_file m ≡ front ++ (b ∷ back)
      → IsCovered (length front)
      → IsByte b'
      → b ≢ b'
      → load (front ++ (b' ∷ back)) ≡ err invalid_data
  unfolding load
  load-changed front back b b' file covered small other =
      elim (split snapshot_magic _ front back b (sym layout ∙ file)) [
        | inl (back', at, q) ↦ absurd (omega (arith, inside front back' b at, covered))
        | inr (front', p, at) ↦
            ap (λ bs. (load_from bs).0)
              (ap (λ bs. bs ++ (b' ∷ back)) p ∙ append_assoc snapshot_magic front' (b' ∷ back))
            ∙ behind_magic b b' small other front' back at
                (omega (arith, length-append snapshot_magic front', ap length p, covered))
      ]
