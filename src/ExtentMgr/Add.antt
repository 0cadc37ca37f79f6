-- ===== src/ExtentMgr/Add.antt =====
-- The part of `AddExtent` that follows the search.
use pancake_store.Base.{
  ℕ, ◌≡◌, inl, inr, refl, sym, ap, ◌∙◌, true, none, some, List, ◌∷◌, length, ◌==◌, Bool-cases,
  Option-cases,
}
use mathlib.Core.Option.{some-injective, none-ne-some}
use mathlib.Core.Path.{subst}
use pancake_store.Comm.ErrorCode.{ErrorCode, is_not_ok}
use pancake_store.Block.Host.{Host}
use pancake_store.Block.Bytes.{k_block_size}
use pancake_store.Block.Step.{assert_block_size}
use pancake_store.Block.Footer.{write_footer}
use pancake_store.Block.Bitmap.{BitMapBlock}
use pancake_store.Block.ExtentHeader
use pancake_store.Block.ExtentHeader.{ExtentHeaderBlock}
use pancake_store.Io.{File, write_at}
use pancake_store.ExtentMgr.{
  commit_bit, ExtentManager, Answer, place_extent, finish_place, mark_extent_block_used,
  clone_bit_map_block, extent_block_device_offset,
}
use pancake_store.ExtentMgr.Commit.{Commits, commit_bit-Commits}

assert_block_size_same :
    {B : Type 0} (host : Host) (b : B) (bytes : List ℕ) (x : B × List ℕ)
    → assert_block_size host b bytes ≡ some x
    → b ≡ x.0
unfolding assert_block_size
assert_block_size_same {B} host b bytes x e = elim (Bool-cases (length bytes == k_block_size)) [
  | inl h ↦ same (rw h refl)
  | inr h ↦ elim (Bool-cases host.ndebug) [
    | inl d ↦ same (rw (h, d) refl)
    | inr d ↦
        let at : assert_block_size host b bytes ≡ none = rw (h, d) refl in
        absurd (none-ne-some x (sym at ∙ e))
  ]
]
  where
    same : assert_block_size host b bytes ≡ some (b, bytes) → b ≡ x.0
    same at = ap (λ (y : B × List ℕ). y.0) (some-injective _ _ (sym at ∙ e))

module _ {S : Type 0} (host : Host) (file : File S) where
  serialize_keeps :
      (b : ExtentHeaderBlock) (x : ExtentHeaderBlock × List ℕ)
      → ExtentHeader.serialize host b ≡ some x
      → (x.0.extent_id ≡ b.extent_id) × (x.0.bitmap_ext_index ≡ b.bitmap_ext_index)
  unfolding ExtentHeader.serialize write_footer
  serialize_keeps b x e =
      let same = assert_block_size_same host _ _ x e in
      (
        sym (ap (λ (h : ExtentHeaderBlock). h.extent_id) same),
        sym (ap (λ (h : ExtentHeaderBlock). h.bitmap_ext_index) same),
      )

  finish_place-Commits :
      (m : ExtentManager) (header : ExtentHeaderBlock) (i : ℕ) (result : ErrorCode × S)
      (a : Answer S)
      → finish_place host file m header i result ≡ some a
      → Commits m i true
          ((header.extent_id, extent_block_device_offset m i) ∷ m.extent_offset_map)
          a
        × (a.header ≡ header)
  unfolding finish_place
  finish_place-Commits m header i result a e = elim (Bool-cases (is_not_ok result.0)) [
    | inl h ↦
        let at : finish_place host file m header i result
            ≡ some (record { code = result.0; manager = m; device = result.1; header = header }) =
          rw h refl in
        subst P (some-injective _ _ (sym at ∙ e)) (inr (h, refl), refl)
    | inr h ↦ elim (Option-cases (clone_bit_map_block m i)) [
      | inl f ↦
          let at : finish_place host file m header i result ≡ none = rw (h, f, finish_place) refl in
          absurd (none-ne-some a (sym at ∙ e))
      | inr (cloned, f) ↦
          let block : BitMapBlock = mark_extent_block_used cloned i in
          let map = (header.extent_id, extent_block_device_offset m i) ∷ m.extent_offset_map in
          let at : finish_place host file m header i result
              ≡ commit_bit host file m result.1 header i block true map =
            rw (h, f, finish_place) refl in
          commit_bit-Commits host file m result.1 header i block true map a (sym at ∙ e)
    ]
  ]
    where
      P : Answer S → Type 0
      P r =
          Commits m i true
            ((header.extent_id, extent_block_device_offset m i) ∷ m.extent_offset_map) r
          × (r.header ≡ header)

  -- The header that an answer leaves, with the index of the extent block.
  abbrev pub Places : ExtentManager → ExtentHeaderBlock → ℕ → Answer S → Type 0
  Places m header i a =
      Commits m i true ((header.extent_id, extent_block_device_offset m i) ∷ m.extent_offset_map) a
      × (a.header.extent_id ≡ header.extent_id)
      × (a.header.bitmap_ext_index ≡ i)

  pub place_extent-Places :
      (m : ExtentManager) (device : S) (header : ExtentHeaderBlock) (i : ℕ) (a : Answer S)
      → place_extent host file m device header i ≡ some a
      → Places m header i a
  unfolding place_extent
  place_extent-Places m device header i a e =
      let placed : ExtentHeaderBlock = record header { bitmap_ext_index = i } in
      elim (Option-cases (ExtentHeader.serialize host placed)) [
        | inl f ↦
            let at : place_extent host file m device header i ≡ none = rw (f, place_extent) refl in
            absurd (none-ne-some a (sym at ∙ e))
        | inr (x, f) ↦
            let (id_kept, index_kept) = serialize_keeps placed x f in
            let result = write_at file device (extent_block_device_offset m i) x.1 in
            let at : place_extent host file m device header i
                ≡ finish_place host file m x.0 i result =
              rw (f, place_extent) refl in
            let (done, left) = finish_place-Commits m x.0 i result a (sym at ∙ e) in
            (
              subst
                  (λ (id : ℕ).
                    Commits m i true ((id, extent_block_device_offset m i) ∷ m.extent_offset_map) a)
                  id_kept done,
              ap (λ (h : ExtentHeaderBlock). h.extent_id) left ∙ id_kept,
              ap (λ (h : ExtentHeaderBlock). h.bitmap_ext_index) left ∙ index_kept,
            )
      ]
