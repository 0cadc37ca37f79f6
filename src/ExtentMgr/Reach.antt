-- ===== src/ExtentMgr/Reach.antt =====
-- The managers that a run of `Init`, `AddExtent` and `DelExtent` leads to.
use pancake_store.Base.{
  ℕ, ◌%◌, ◌^◌, ◌≡◌, ◌≢◌, inl, inr, refl, sym, ap, ◌∙◌, Bool, true, false, none, some, List, [],
  length, set, ◌==◌, arith, Bool-cases, Option-cases, length-set,
}
use mathlib.Core.Option.{some-injective, none-ne-some}
use mathlib.Core.Path.{subst}
use pancake_store.Comm.ErrorCode.{
  ErrorCode, pancake_store_ok, datanode_storage_fs_init_failed, datanode_storage_internal_error,
  is_not_ok,
}
use pancake_store.Block.Host.{Host}
use pancake_store.Block.ExtentHeader.{ExtentHeaderBlock}
use pancake_store.Block.ExtentHeader
use pancake_store.Block.Bytes.{k_block_size}
use pancake_store.Block.Bitmap.{BitMapBlock}
use pancake_store.Io.{File, read_at}
use pancake_store.ExtentMgr.{
  ExtentManager, Answer, Search, found, exhausted, fault, new_manager, init, contains, find_unused,
  add_extent, del_extent, current_alloc_count, current_free_count, extent_block_device_offset,
  mark_extent_block_unused, clone_bit_map_block, commit_bit,
}
use pancake_store.ExtentMgr.Init.{IsValid, init-IsValid}
use pancake_store.ExtentMgr.Commit.{Commits, commit_bit-Commits}
use pancake_store.ExtentMgr.Add.{place_extent-Places}
use pancake_store.ExtentMgr.AddExtent.{search_step, early_stop}

failed≢ok : datanode_storage_fs_init_failed ≢ pancake_store_ok
failed≢ok e = cc

-- What no operation after `Init` changes.
pub record Keeps (m m' : ExtentManager) : Type 0 where
  pub offset_kept : m'.offset ≡ m.offset
  pub blocks_kept : m'.bitmap_block_count ≡ m.bitmap_block_count
  pub extents_kept : m'.extent_block_count ≡ m.extent_block_count
  pub size_kept : m'.extent_block_size ≡ m.extent_block_size
  pub extents_offset_kept : m'.extent_blocks_offset ≡ m.extent_blocks_offset
  pub used_kept : m'.used_cnt ≡ m.used_cnt
  pub length_kept : length m'.bitmap ≡ length m.bitmap

Keeps-moved : (m : ExtentManager) (c : ℕ) → Keeps m (record m { cursor = c })
Keeps-moved m c = record {
  offset_kept = refl;
  blocks_kept = refl;
  extents_kept = refl;
  size_kept = refl;
  extents_offset_kept = refl;
  used_kept = refl;
  length_kept = refl;
}

Keeps-set :
    (m : ExtentManager) (c i : ℕ) (used : Bool) (map : List (ℕ × ℕ))
    → Keeps m (record m { cursor = c; bitmap = set m.bitmap i used; extent_offset_map = map })
Keeps-set m c i used map = record {
  offset_kept = refl;
  blocks_kept = refl;
  extents_kept = refl;
  size_kept = refl;
  extents_offset_kept = refl;
  used_kept = refl;
  length_kept = length-set m.bitmap i used;
}

pub Keeps-IsValid : (m m' : ExtentManager) → Keeps m m' → IsValid m → IsValid m'
Keeps-IsValid m m' k v = record {
  bitmap_length = k.length_kept ∙ v.bitmap_length ∙ sym k.extents_kept;
  bitmap_room = omega (arith, v.bitmap_room, k.extents_kept, k.blocks_kept);
  offset_aligned = rw (k.offset_kept) v.offset_aligned;
  extent_blocks_offset_aligned = rw (k.extents_offset_kept) v.extent_blocks_offset_aligned;
}

module _ {S : Type 0} (host : Host) (file : File S) where
  Commits-Keeps :
      (m : ExtentManager) (c i : ℕ) (used : Bool) (map : List (ℕ × ℕ)) (a : Answer S)
      → Commits (record m { cursor = c }) i used map a
      → Keeps m a.manager
  Commits-Keeps m c i used map a (inl t) = subst (Keeps m) (sym t.2) (Keeps-set m c i used map)
  Commits-Keeps m c i used map a (inr t) = subst (Keeps m) (sym t.1) (Keeps-moved m c)

  pub add_extent-Keeps :
      (m : ExtentManager) (device : S) (header : ExtentHeaderBlock) (a : Answer S)
      → add_extent host file m device header ≡ some a
      → Keeps m a.manager
  unfolding add_extent
  add_extent-Keeps m device header a e =
      elim (Bool-cases (contains m.extent_offset_map header.extent_id)) [
        | inl h ↦
            subst (λ r. Keeps m r.manager)
              (some-injective _ _ (sym ((early_stop host file m device header).0 h) ∙ e))
              (Keeps-moved m m.cursor)
        | inr h ↦ elim (Bool-cases (m.used_cnt == m.extent_block_count)) [
          | inl u ↦
              subst (λ r. Keeps m r.manager)
                (some-injective _ _ (sym ((early_stop host file m device header).1 h u) ∙ e))
                (Keeps-moved m m.cursor)
          | inr u ↦
              search h u (find_unused m.extent_block_count m.bitmap_block_count m.bitmap m.cursor)
                refl
        ]
      ]
    where
      search :
          contains m.extent_offset_map header.extent_id ≡ false
          → (m.used_cnt == m.extent_block_count) ≡ false
          → (s : Search)
          → find_unused m.extent_block_count m.bitmap_block_count m.bitmap m.cursor ≡ s
          → Keeps m a.manager
      search h u (found i c) s =
          Commits-Keeps m c i true _ a
            (place_extent-Places host file (record m { cursor = c }) device header i a
              (sym ((search_step host file m device header h u).1 i c s) ∙ e)).0
      search h u (exhausted c) s =
          subst (λ r. Keeps m r.manager)
            (some-injective _ _ (sym ((search_step host file m device header h u).0 c s) ∙ e))
            (Keeps-moved m c)
      search h u fault s =
          let at : add_extent host file m device header ≡ none = rw (h, u, s, add_extent) refl in
          absurd (none-ne-some a (sym at ∙ e))

  pub del_extent-Keeps :
      (m : ExtentManager) (device : S) (header tmp : ExtentHeaderBlock) (a : Answer S)
      → del_extent host file m device header tmp ≡ some a
      → Keeps m a.manager
  unfolding del_extent
  del_extent-Keeps m device header tmp a e =
      let read =
        read_at file device (extent_block_device_offset m header.bitmap_ext_index) k_block_size
          [] in
      let parsed = ExtentHeader.deserialize host tmp read.1 in
      elim (Bool-cases (is_not_ok read.0)) [
        | inl r ↦ stops read.0 (rw (r, del_extent) refl)
        | inr r ↦ elim (Bool-cases (is_not_ok parsed.0)) [
          | inl p ↦ stops parsed.0 (rw (r, p, del_extent) refl)
          | inr p ↦ elim (Bool-cases (parsed.1.extent_id == header.extent_id)) [
            | inr q ↦ stops datanode_storage_internal_error (rw (r, p, q, del_extent) refl)
            | inl q ↦
                let index = header.bitmap_ext_index in
                elim (Option-cases (clone_bit_map_block m index)) [
                  | inl f ↦
                      let at : del_extent host file m device header tmp ≡ none =
                        rw (r, p, q, f, del_extent) refl in
                      absurd (none-ne-some a (sym at ∙ e))
                  | inr (cloned, f) ↦
                      let block : BitMapBlock = mark_extent_block_unused cloned index in
                      let at : del_extent host file m device header tmp
                          ≡ commit_bit host file m device header index block false
                              m.extent_offset_map =
                        rw (r, p, q, f, del_extent) refl in
                      Commits-Keeps m m.cursor index false m.extent_offset_map a
                        (commit_bit-Commits host file m device header index block false
                          m.extent_offset_map a (sym at ∙ e)).0
                ]
          ]
        ]
      ]
    where
      stops :
          (c : ErrorCode)
          → del_extent host file m device header tmp
            ≡ some (record { code = c; manager = m; device = device; header = header })
          → Keeps m a.manager
      stops c at =
          subst (λ r. Keeps m r.manager) (some-injective _ _ (sym at ∙ e)) (Keeps-moved m m.cursor)

  -- A manager that `Init` has accepted, and what calls of `AddExtent` and `DelExtent` make of it,
  -- in any order, with any headers, on a device in any state.
  pub data Runs : ExtentManager → Type 0 where
    started :
        (offset bitmap_blocks extent_blocks size extents_offset : ℕ)
        → (init new_manager offset bitmap_blocks extent_blocks size extents_offset).0
          ≡ pancake_store_ok
        → Runs (init new_manager offset bitmap_blocks extent_blocks size extents_offset).1
    added :
        {m : ExtentManager} (device : S) (header : ExtentHeaderBlock) (a : Answer S)
        → Runs m
        → add_extent host file m device header ≡ some a
        → Runs a.manager
    deleted :
        {m : ExtentManager} (device : S) (header tmp : ExtentHeaderBlock) (a : Answer S)
        → Runs m
        → del_extent host file m device header tmp ≡ some a
        → Runs a.manager

  started_lem :
      (offset bitmap_blocks extent_blocks size extents_offset : ℕ)
      → (init new_manager offset bitmap_blocks extent_blocks size extents_offset).0
        ≡ pancake_store_ok
      → IsValid (init new_manager offset bitmap_blocks extent_blocks size extents_offset).1
        × ((init new_manager offset bitmap_blocks extent_blocks size extents_offset).1.used_cnt ≡ 0)
  started_lem offset bitmap_blocks extent_blocks size extents_offset e =
      elim (init-IsValid new_manager offset bitmap_blocks extent_blocks size extents_offset) [
        | inl t ↦ absurd (failed≢ok (sym (ap (λ (r : ErrorCode × ExtentManager). r.0) t.0) ∙ e))
        | inr t ↦ (t.1, t.5)
      ]

  Runs-used_cnt : (m : ExtentManager) → Runs m → IsValid m × (m.used_cnt ≡ 0)
  Runs-used_cnt m (started offset bitmap_blocks extent_blocks size extents_offset e) =
      started_lem offset bitmap_blocks extent_blocks size extents_offset e
  Runs-used_cnt m (added {m = m'} device header a r e) =
      let (v, u) = Runs-used_cnt m' r in
      let k = add_extent-Keeps m' device header a e in
      (Keeps-IsValid m' a.manager k v, k.used_kept ∙ u)
  Runs-used_cnt m (deleted {m = m'} device header tmp a r e) =
      let (v, u) = Runs-used_cnt m' r in
      let k = del_extent-Keeps m' device header tmp a e in
      (Keeps-IsValid m' a.manager k v, k.used_kept ∙ u)

  -- Whatever is added and deleted, the manager stays valid. `CurrentAllocCount` stays 0 and
  -- `CurrentFreeCount` the number of all extent blocks, in 32 bits: no operation counts.
  pub Runs-IsValid :
      (m : ExtentManager)
      → Runs m
      → IsValid m
        × (current_alloc_count m ≡ 0)
        × (current_free_count m ≡ m.extent_block_count % 2 ^ 32)
  unfolding current_alloc_count current_free_count
  Runs-IsValid m r = let (v, u) = Runs-used_cnt m r in (v, u, omega (arith, u))
