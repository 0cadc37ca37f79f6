-- ===== src/ExtentMgr/Commit.antt =====
-- What the last steps of `AddExtent` and `DelExtent` do to the manager.
use pancake_store.Base.{
  ℕ, ◌<◌, ◌≡◌, ◌⊎◌, inl, inr, refl, sym, ◌∙◌, Bool, true, none, some, List, length, set, ltb,
  ltb→lt, Bool-cases, Option-cases,
}
use mathlib.Core.Option.{some-injective, none-ne-some}
use mathlib.Core.Path.{subst}
use pancake_store.Comm.ErrorCode.{ErrorCode, pancake_store_ok, is_not_ok}
use pancake_store.Block.Host.{Host}
use pancake_store.Block.Bytes.{k_block_data_size}
use pancake_store.Block.Footer.{fill_without_extent_id}
use pancake_store.Block.Bitmap
use pancake_store.Block.Bitmap.{BitMapBlock}
use pancake_store.Block.ExtentHeader.{ExtentHeaderBlock}
use pancake_store.Io.{File, write_at}
use pancake_store.ExtentMgr.{
  ExtentManager, Answer, commit_bit, finish_commit, bitmap_block_device_offset, bitmap_index,
}

-- Either the answer is OK and the bit and the map are changed, or it is an error and the manager
-- is as before.
abbrev pub Commits : {S : Type 0} → ExtentManager → ℕ → Bool → List (ℕ × ℕ) → Answer S → Type 0
Commits m i used map a =
    ((a.code ≡ pancake_store_ok)
      × (i < length m.bitmap)
      × (a.manager ≡ record m { bitmap = set m.bitmap i used; extent_offset_map = map }))
    ⊎ ((is_not_ok a.code ≡ true) × (a.manager ≡ m))

module _ {S : Type 0} (host : Host) (file : File S) where
  finish_commit-Commits :
      (m : ExtentManager) (header : ExtentHeaderBlock) (i : ℕ) (used : Bool) (map : List (ℕ × ℕ))
      (result : ErrorCode × S) (a : Answer S)
      → finish_commit host file m header i used map result ≡ some a
      → Commits m i used map a × (a.header ≡ header)
  unfolding finish_commit
  finish_commit-Commits m header i used map result a e = elim (Bool-cases (is_not_ok result.0)) [
    | inl h ↦
        let at : finish_commit host file m header i used map result
            ≡ some (record { code = result.0; manager = m; device = result.1; header = header }) =
          rw h refl in
        subst P (some-injective _ _ (sym at ∙ e)) (inr (h, refl), refl)
    | inr h ↦ elim (Bool-cases (ltb i (length m.bitmap))) [
      | inl l ↦
          let at : finish_commit host file m header i used map result
              ≡ some (record {
                code = pancake_store_ok;
                manager = record m { bitmap = set m.bitmap i used; extent_offset_map = map };
                device = result.1;
                header = header;
              }) =
            rw (h, l) refl in
          subst P (some-injective _ _ (sym at ∙ e)) (inl (refl, ltb→lt _ _ l, refl), refl)
      | inr l ↦
          let at : finish_commit host file m header i used map result ≡ none = rw (h, l) refl in
          absurd (none-ne-some a (sym at ∙ e))
    ]
  ]
    where
      P : Answer S → Type 0
      P r = Commits m i used map r × (r.header ≡ header)

  pub commit_bit-Commits :
      (m : ExtentManager) (device : S) (header : ExtentHeaderBlock) (i : ℕ) (block : BitMapBlock)
      (used : Bool) (map : List (ℕ × ℕ)) (a : Answer S)
      → commit_bit host file m device header i block used map ≡ some a
      → Commits m i used map a × (a.header ≡ header)
  unfolding commit_bit
  commit_bit-Commits m device header i block used map a e =
      elim (Option-cases (
        Bitmap.serialize host
          (record block { footer = fill_without_extent_id k_block_data_size block.footer }))) [
            | inl f ↦
                let at : commit_bit host file m device header i block used map ≡ none =
                  rw (f, commit_bit) refl in
                absurd (none-ne-some a (sym at ∙ e))
            | inr (x, f) ↦
                let result =
                  write_at file device (bitmap_block_device_offset m (bitmap_index i)) x.1 in
                let at : commit_bit host file m device header i block used map
                    ≡ finish_commit host file m header i used map result =
                  rw (f, commit_bit) refl in
                finish_commit-Commits m header i used map result a (sym at ∙ e)
          ]
