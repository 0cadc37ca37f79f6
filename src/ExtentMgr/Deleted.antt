-- ===== src/ExtentMgr/Deleted.antt =====
-- What `DelExtent` does, on every branch.
use pancake_store.Base.{
  ℕ, ◌<◌, ◌≡◌, ◌≢◌, ◌⊎◌, inl, inr, refl, sym, ap, ◌∙◌, Bool, true, false, none, some, List, [],
  length, set, ◌==◌, ==→eq, eq→==, lt→ltb, Bool-cases, Option-cases,
}
use mathlib.Core.Bool.{true≢false}
use mathlib.Core.Option.{some-injective, none-ne-some}
use mathlib.Core.Path.{subst}
use pancake_store.Block.Bitmap.{BitMapBlock}
use pancake_store.Comm.ErrorCode.{
  ErrorCode, pancake_store_ok, datanode_storage_internal_error, is_not_ok, ok_of,
}
use pancake_store.Block.Host.{Host}
use pancake_store.Block.Bytes.{k_block_size}
use pancake_store.Block.Bitmap.RoundTrip.{deserialize-serialize_bitmap}
use pancake_store.Block.ExtentHeader
use pancake_store.Block.ExtentHeader.{ExtentHeaderBlock}
use pancake_store.Io.{File, read_at, write_at}
use pancake_store.ExtentMgr.{
  ExtentManager, Answer, del_extent, commit_bit, finish_commit, extent_block_device_offset,
  bitmap_block_device_offset, bitmap_index, clone_bit_map_block,
}
use pancake_store.ExtentMgr.Bits.{changed}
use pancake_store.ExtentMgr.Clone.{copied_block, clone_bit_map_block_made}
use pancake_store.ExtentMgr.Answers.{updated, updated-BitMapFits, updated_bytes}
use pancake_store.ExtentMgr.Commit.{commit_bit-Commits}

module _ {S : Type 0} (host : Host) (file : File S) (m : ExtentManager) (device : S)
    (header : ExtentHeaderBlock) where
  -- The write of the bitmap block of the `i`-th extent block.
  abbrev pub commit_write : ℕ → Bool → ErrorCode × S
  commit_write i used =
      write_at file device (bitmap_block_device_offset m (bitmap_index i))
        (updated_bytes host used m i)

  -- What is answered when it was written.
  abbrev pub committed : ℕ → Bool → List (ℕ × ℕ) → Answer S
  committed i used map = record {
    code = pancake_store_ok;
    manager = record m { bitmap = set m.bitmap i used; extent_offset_map = map };
    device = (commit_write i used).1;
    header = header;
  }

  pub commit_bit_writes :
      (i : ℕ) (used : Bool) (map : List (ℕ × ℕ)) (a : Answer S)
      → commit_bit host file m device header i (changed used (copied_block m i) i) used map ≡ some a
      → a.code ≡ pancake_store_ok
      → (i < length m.bitmap)
        × ((commit_write i used).0 ≡ pancake_store_ok)
        × (a ≡ committed i used map)
  unfolding commit_bit finish_commit
  commit_bit_writes i used map a e ok =
      let block = changed used (copied_block m i) i in
      let (crc, s) =
        deserialize-serialize_bitmap host (updated used m i) (updated used m i)
          (updated-BitMapFits used m i) in
      let at : commit_bit host file m device header i block used map
          ≡ finish_commit host file m header i used map (commit_write i used) =
        rw (s.written, commit_bit) refl in
      elim (commit_bit-Commits host file m device header i block used map a e).0 [
        | inr t ↦ absurd (true≢false (sym t.0 ∙ ap is_not_ok ok))
        | inl t ↦ elim (Bool-cases (is_not_ok (commit_write i used).0)) [
          | inl w ↦
              let failed : Answer S = record {
                code = (commit_write i used).0;
                manager = m;
                device = (commit_write i used).1;
                header = header;
              } in
              let same : failed ≡ a =
                some-injective _ _ (sym (at ∙ rw (w, finish_commit) refl) ∙ e) in
              absurd (
                true≢false (sym w ∙ ap (λ (r : Answer S). is_not_ok r.code) same ∙ ap is_not_ok ok))
          | inr w ↦ (
            t.1,
            ok_of _ w,
            some-injective _ _
                (sym e ∙ at ∙ rw (w, lt→ltb i (length m.bitmap) t.1, finish_commit) refl),
          )
        ]
      ]

  module _ (tmp : ExtentHeaderBlock) where
    -- The index of the extent block, what is read there, and what it is parsed as.
    abbrev pub index : ℕ
    index = header.bitmap_ext_index

    abbrev pub there : ErrorCode × List ℕ
    there = read_at file device (extent_block_device_offset m index) k_block_size []

    abbrev pub found_header : ErrorCode × ExtentHeaderBlock
    found_header = ExtentHeader.deserialize host tmp there.1

    -- Nothing is changed.
    abbrev pub refused : ErrorCode → Answer S
    refused code = record { code = code; manager = m; device = device; header = header }

    -- The four things that `DelExtent` does.
    abbrev pub DelExtentAnswers : Answer S → Type 0
    DelExtentAnswers a =
        ((is_not_ok there.0 ≡ true) × (a ≡ refused there.0))
        ⊎ (((there.0 ≡ pancake_store_ok)
              × (is_not_ok found_header.0 ≡ true)
              × (a ≡ refused found_header.0))
            ⊎ (((there.0 ≡ pancake_store_ok)
                  × (found_header.0 ≡ pancake_store_ok)
                  × (found_header.1.extent_id ≢ header.extent_id)
                  × (a ≡ refused datanode_storage_internal_error))
                ⊎ ((there.0 ≡ pancake_store_ok)
                    × (found_header.0 ≡ pancake_store_ok)
                    × (found_header.1.extent_id ≡ header.extent_id)
                    × (a.header ≡ header)
                    × (((a.code ≡ pancake_store_ok)
                          × (index < length m.bitmap)
                          × ((commit_write index false).0 ≡ pancake_store_ok)
                          × (a ≡ committed index false m.extent_offset_map))
                        ⊎ ((is_not_ok a.code ≡ true) × (a.manager ≡ m))))))

    del_extent_commits :
        (a : Answer S)
        → is_not_ok there.0 ≡ false
        → is_not_ok found_header.0 ≡ false
        → (found_header.1.extent_id == header.extent_id) ≡ true
        → del_extent host file m device header tmp ≡ some a
        → commit_bit host file m device header index
            (changed false (copied_block m index) index)
            false
            m.extent_offset_map
          ≡ some a
    unfolding del_extent
    del_extent_commits a r p q e = elim (Option-cases (clone_bit_map_block m index)) [
      | inl f ↦
          let at : del_extent host file m device header tmp ≡ none =
            rw (r, p, q, f, del_extent) refl in
          absurd (none-ne-some a (sym at ∙ e))
      | inr (cloned, f) ↦
          let at : del_extent host file m device header tmp
              ≡ commit_bit host file m device header index (changed false cloned index) false
                  m.extent_offset_map =
            rw (r, p, q, f, del_extent) refl in
          subst
            (λ (b : BitMapBlock).
              commit_bit host file m device header index (changed false b index) false
                m.extent_offset_map
              ≡ some a)
            (clone_bit_map_block_made m index cloned f) (sym at ∙ e)
    ]

    pub del_extent_lem :
        (a : Answer S) → del_extent host file m device header tmp ≡ some a → DelExtentAnswers a
    unfolding del_extent
    del_extent_lem a e = elim (Bool-cases (is_not_ok there.0)) [
      | inl r ↦ inl (r, some-injective _ _ (sym e ∙ rw (r, del_extent) refl))
      | inr r ↦ elim (Bool-cases (is_not_ok found_header.0)) [
        | inl p ↦ inr (inl (ok_of _ r, p, some-injective _ _ (sym e ∙ rw (r, p, del_extent) refl)))
        | inr p ↦ elim (Bool-cases (found_header.1.extent_id == header.extent_id)) [
          | inr q ↦ inr (
              inr (
                inl (
                  ok_of _ r,
                  ok_of _ p,
                  λ same. cc (q, eq→== _ _ same),
                  some-injective _ _ (sym e ∙ rw (r, p, q, del_extent) refl),
                )))
          | inl q ↦
              let block = changed false (copied_block m index) index in
              let done = del_extent_commits a r p q e in
              let (commits, kept) =
                commit_bit-Commits host file m device header index block false m.extent_offset_map a
                  done in
              inr (
                inr (
                  inr (
                    ok_of _ r,
                    ok_of _ p,
                    ==→eq _ _ q,
                    kept,
                    elim commits [
                      | inr t ↦ inr t
                      | inl t ↦
                          let (inside, written, same) =
                            commit_bit_writes index false m.extent_offset_map a done t.0 in
                          inl (t.0, inside, written, same)
                    ],
                  )))
        ]
      ]
    ]
