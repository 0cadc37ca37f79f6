-- ===== src/ExtentMgr/AddExtent.antt =====
-- What `AddExtent` does, on every branch.
use pancake_store.Base.{
  ℕ, zero, suc, ◌+◌, ◌≤◌, ◌<◌, ◌≡◌, ◌≢◌, ◌⊎◌, inl, inr, refl, sym, ◌∙◌, Bool, true, false, some,
  List, [], ◌∷◌, length, ◌==◌, arith, Bool-cases, get_elem?, take, replicate, ==→eq, ne→==,
}
use mathlib.Core.Bool.{true≢false}
use mathlib.Core.Option.{some-injective}
use pancake_store.Comm.ErrorCode.{
  ErrorCode, pancake_store_code_error, datanode_storage_fs_full,
  datanode_storage_extent_already_exists,
}
use pancake_store.Block.Host.{Host}
use pancake_store.Block.ExtentHeader.{ExtentHeaderBlock}
use pancake_store.Io.{File}
use pancake_store.ExtentMgr.{
  ExtentManager, Answer, found, exhausted, contains, find_unused, place_extent, add_extent,
}
use pancake_store.ExtentMgr.Cursor.{find_unused_complete}
use pancake_store.ExtentMgr.Add.{Places, place_extent-Places}

-- The bits in front are all set.
pub get_elem?_full :
    (n : ℕ) (bits : List Bool) (i : ℕ)
    → take n bits ≡ replicate n true
    → i < n
    → get_elem? bits i ≡ some true
get_elem?_full zero bits i e h = absurd (omega arith)
get_elem?_full (suc n) [] i e h = cc
get_elem?_full (suc n) (b ∷ bits) zero e h = cc
get_elem?_full (suc n) (b ∷ bits) (suc i) e h = get_elem?_full n bits i (cc) (omega arith)

module _ {S : Type 0} (host : Host) (file : File S) (m : ExtentManager) (device : S)
    (header : ExtentHeaderBlock) where
  -- An answer of `AddExtent` before anything is written.
  abbrev pub stopped : ErrorCode → ExtentManager → Answer S
  stopped e m' = record { code = e; manager = m'; device = device; header = header }

  -- Nothing was searched.
  pub early_stop :
      (contains m.extent_offset_map header.extent_id ≡ true
        → add_extent host file m device header
          ≡ some (stopped datanode_storage_extent_already_exists m))
      × (contains m.extent_offset_map header.extent_id ≡ false
          → (m.used_cnt == m.extent_block_count) ≡ true
          → add_extent host file m device header ≡ some (stopped datanode_storage_fs_full m))
  unfolding add_extent
  early_stop = (λ e. rw (e, add_extent) refl, λ e f. rw (e, f, add_extent) refl)

  -- The search has run.
  pub search_step :
      contains m.extent_offset_map header.extent_id ≡ false
      → (m.used_cnt == m.extent_block_count) ≡ false
      → ((c : ℕ)
          → find_unused m.extent_block_count m.bitmap_block_count m.bitmap m.cursor ≡ exhausted c
          → add_extent host file m device header
            ≡ some (stopped pancake_store_code_error (record m { cursor = c })))
        × ((i c : ℕ)
            → find_unused m.extent_block_count m.bitmap_block_count m.bitmap m.cursor ≡ found i c
            → add_extent host file m device header
              ≡ place_extent host file (record m { cursor = c }) device header i)
  unfolding add_extent
  search_step e f = (λ c s. rw (e, f, s, add_extent) refl, λ i c s. rw (e, f, s, add_extent) refl)

  -- On a manager whose bitmap has a bit for each extent block, of which there are at least as many
  -- as bitmap blocks and more than none of those, `AddExtent`, where it answers at all, does one
  -- of four things. It refuses an extent id that is in the map; it reports a full device when the
  -- used count is the number of extent blocks; it reports CODE_ERROR when all of the first
  -- `bitmap_block_count_` bits are set, changing only the cursor. Else it picks an index below
  -- `bitmap_block_count_` whose bit is clear: on OK that one bit is now set, the extent is in the
  -- map at the device offset of this block and the caller's header has the index; on an error the
  -- bitmap and the map are as before.
  pub add_extent_lem :
      (a : Answer S)
      → 0 < m.bitmap_block_count
      → m.bitmap_block_count ≤ m.extent_block_count
      → length m.bitmap ≡ m.extent_block_count
      → add_extent host file m device header ≡ some a
      → ((contains m.extent_offset_map header.extent_id ≡ true)
          × (a ≡ stopped datanode_storage_extent_already_exists m))
        ⊎ (((m.used_cnt ≡ m.extent_block_count) × (a ≡ stopped datanode_storage_fs_full m))
            ⊎ (((take m.bitmap_block_count m.bitmap ≡ replicate m.bitmap_block_count true)
                  × ((c : ℕ) × (a ≡ stopped pancake_store_code_error (record m { cursor = c }))))
                ⊎ ((contains m.extent_offset_map header.extent_id ≡ false)
                    × ((i : ℕ) × (i < m.bitmap_block_count)
                        × (get_elem? m.bitmap i ≡ some false)
                        × Places host file (record m { cursor = i + 1 }) header i a))))
  unfolding add_extent
  add_extent_lem a positive enough len e =
      elim (Bool-cases (contains m.extent_offset_map header.extent_id)) [
        | inl h ↦ inl (h, some-injective _ _ (sym e ∙ early_stop.0 h))
        | inr h ↦ elim (Bool-cases (m.used_cnt == m.extent_block_count)) [
          | inl u ↦ inr (inl (==→eq _ _ u, some-injective _ _ (sym e ∙ early_stop.1 h u)))
          | inr u ↦
              elim (find_unused_complete m.extent_block_count m.bitmap_block_count m.bitmap m.cursor
                positive (omega arith) enough) [
                  | inl t ↦
                      let (i, s, small, clear) = t in
                      inr (
                        inr (
                          inr (
                            h,
                            (
                              i,
                              small,
                              clear,
                              place_extent-Places host file (record m { cursor = i + 1 }) device
                                  header i a (sym ((search_step h u).1 i (i + 1) s) ∙ e),
                            ),
                          )))
                  | inr t ↦
                      let (c, s, full) = t in
                      inr (
                        inr (inl (full, (c, some-injective _ _ (sym e ∙ (search_step h u).0 c s)))))
                ]
        ]
      ]

  -- Such a manager answers CODE_ERROR to every new extent when the bits of its first
  -- `bitmap_block_count_` extent blocks are set, whatever the bits of the other extent blocks are,
  -- as long as the used count is not the number of extent blocks.
  pub add_extent_region_full :
      0 < m.bitmap_block_count
      → m.bitmap_block_count ≤ m.extent_block_count
      → length m.bitmap ≡ m.extent_block_count
      → contains m.extent_offset_map header.extent_id ≡ false
      → m.used_cnt ≢ m.extent_block_count
      → take m.bitmap_block_count m.bitmap ≡ replicate m.bitmap_block_count true
      → (c : ℕ) × (add_extent host file m device header
          ≡ some (stopped pancake_store_code_error (record m { cursor = c })))
  add_extent_region_full positive enough len fresh used full =
      elim (find_unused_complete m.extent_block_count m.bitmap_block_count m.bitmap m.cursor
        positive (omega arith) enough) [
          | inl t ↦
              let (i, s, small, clear) = t in
              absurd
                (true≢false (some-injective _ _ (sym (get_elem?_full _ _ i full small) ∙ clear)))
          | inr t ↦ let (c, s, _) = t in (c, (search_step fresh (ne→== _ _ used)).0 c s)
        ]
