-- ===== src/ExtentMgr/Used.antt =====
-- Which extent blocks are ever in use: the first `bitmap_block_count_`.
use pancake_store.Base.{
  ℕ, zero, suc, ◌-◌, ◌*◌, ◌%◌, ◌^◌, ◌≤◌, ◌<◌, ◌≡◌, ◌⊎◌, inl, inr, refl, sym, ap, ◌∙◌, Bool, true,
  false, some, List, [], ◌∷◌, ◌++◌, length, ltb, get_elem?, set, take, replicate, ◌==◌, Bool-cases,
  arith,
}
use mathlib.Core.Bool.{true≢false}
use mathlib.Core.Option.{some-injective, none-ne-some}
use mathlib.Core.Path.{subst}
use pancake_store.Block.Host.{Host}
use pancake_store.Block.Bytes.{k_block_size, k_block_data_size}
use pancake_store.Block.ExtentHeader.{ExtentHeaderBlock}
use pancake_store.Layout.{sizeof_uint8}
use pancake_store.Io.{File, is_block_align}
use pancake_store.ExtentMgr.{
  ExtentManager, Answer, init, new_manager, resize, add_extent, del_extent,
}
use pancake_store.ExtentMgr.AddExtent.{add_extent_lem}
use pancake_store.ExtentMgr.Deleted.{del_extent_lem}
use pancake_store.ExtentMgr.Reach.{
  Runs, started, added, deleted, Runs-IsValid, add_extent-Keeps, del_extent-Keeps,
}

-- All bits that are set have an index below `n`.
abbrev pub Low : ℕ → List Bool → Type 0
Low n bits = (i : ℕ) → get_elem? bits i ≡ some true → i < n

get_elem?-replicate : (n i : ℕ) (b : Bool) → get_elem? (replicate n b) i ≡ some true → b ≡ true
get_elem?-replicate zero i b e = absurd (none-ne-some _ e)
get_elem?-replicate (suc n) zero b e = some-injective _ _ e
get_elem?-replicate (suc n) (suc i) b e = get_elem?-replicate n i b e

-- A bit that is set after a `set` was set before, or is the new one.
get_elem?-set :
    (bits : List Bool) (i j : ℕ) (b : Bool)
    → get_elem? (set bits i b) j ≡ some true
    → (get_elem? bits j ≡ some true) ⊎ ((i ≡ j) × (b ≡ true))
get_elem?-set [] i j b e = inl e
get_elem?-set (x ∷ bits) zero zero b e = inr (refl, some-injective _ _ e)
get_elem?-set (x ∷ bits) zero (suc j) b e = inl e
get_elem?-set (x ∷ bits) (suc i) zero b e = inl e
get_elem?-set (x ∷ bits) (suc i) (suc j) b e = elim (get_elem?-set bits i j b e) [
  | inl t ↦ inl t
  | inr t ↦ inr (ap suc t.0, t.1)
]

Low-set :
    (n i : ℕ) (bits : List Bool) (b : Bool) → Low n bits → (b ≡ true → i < n) → Low n (set bits i b)
Low-set n i bits b h k j e = elim (get_elem?-set bits i j b e) [
  | inl t ↦ h j t
  | inr t ↦ subst (λ x. x < n) t.0 (k t.1)
]

take-nil : (n : ℕ) → take {A = Bool} n [] ≡ []
take-nil zero = refl
take-nil (suc n) = refl

-- `Init` of a new manager sets no bit.
module _ (offset bitmap_blocks extent_blocks size extents_offset : ℕ) where
  abbrev begun : ExtentManager
  begun = (init new_manager offset bitmap_blocks extent_blocks size extents_offset).1

  begun_bits : (begun.bitmap ≡ []) ⊎ (begun.bitmap ≡ resize [] extent_blocks)
  unfolding init is_block_align
  begun_bits =
      elim (Bool-cases
        (ltb (bitmap_blocks * (k_block_data_size * sizeof_uint8) % 2 ^ 32) extent_blocks)) [
          | inl e ↦ inl (rw (e, begun) refl)
          | inr e ↦ elim (Bool-cases (offset % k_block_size == 0)) [
            | inr f ↦ inl (rw (e, f, begun) refl)
            | inl f ↦ elim (Bool-cases (extents_offset % k_block_size == 0)) [
              | inr g ↦ inl (rw (e, f, g, begun) refl)
              | inl g ↦ inr (rw (e, f, g, begun) refl)
            ]
          ]
        ]

  begun-Low : (n : ℕ) → Low n begun.bitmap
  unfolding resize
  begun-Low n i e = elim begun_bits [
    | inl t ↦ absurd (none-ne-some _ (ap (λ l. get_elem? l i) (sym t) ∙ e))
    | inr t ↦
        let bits =
          t ∙ ap (λ l. l ++ replicate (extent_blocks - 0) false) (take-nil extent_blocks) in
        absurd (
          true≢false (
            sym (
              get_elem?-replicate (extent_blocks - 0) i false
                (ap (λ l. get_elem? l i) (sym bits) ∙ e))))
  ]

module _ {S : Type 0} (host : Host) (file : File S) where
  added-Low :
      (m : ExtentManager) (device : S) (header : ExtentHeaderBlock) (a : Answer S)
      → 0 < m.bitmap_block_count
      → m.bitmap_block_count ≤ m.extent_block_count
      → length m.bitmap ≡ m.extent_block_count
      → Low m.bitmap_block_count m.bitmap
      → add_extent host file m device header ≡ some a
      → Low m.bitmap_block_count a.manager.bitmap
  added-Low m device header a positive enough len low e =
      let After : ExtentManager → Type 0 = λ x. Low m.bitmap_block_count x.bitmap in
      let of_answer = λ (r : Answer S). r.manager in
      elim (add_extent_lem host file m device header a positive enough len e) [
        | inl t ↦ subst After (sym (ap of_answer t.1)) low
        | inr (inl t) ↦ subst After (sym (ap of_answer t.1)) low
        | inr (inr (inl t)) ↦ subst After (sym (ap of_answer t.1.1)) low
        | inr (inr (inr t)) ↦
            let (i, below, clear, places) = t.1 in
            elim places.0 [
              | inl q ↦
                  subst After (sym q.2)
                    (Low-set m.bitmap_block_count i m.bitmap true low (λ same. below))
              | inr q ↦ subst After (sym q.1) low
            ]
      ]

  deleted-Low :
      (m : ExtentManager) (device : S) (header tmp : ExtentHeaderBlock) (a : Answer S)
      → Low m.bitmap_block_count m.bitmap
      → del_extent host file m device header tmp ≡ some a
      → Low m.bitmap_block_count a.manager.bitmap
  deleted-Low m device header tmp a low e =
      let After : ExtentManager → Type 0 = λ x. Low m.bitmap_block_count x.bitmap in
      let of_answer = λ (r : Answer S). r.manager in
      elim (del_extent_lem host file m device header tmp a e) [
        | inl t ↦ subst After (sym (ap of_answer t.1)) low
        | inr (inl t) ↦ subst After (sym (ap of_answer t.2)) low
        | inr (inr (inl t)) ↦ subst After (sym (ap of_answer t.3)) low
        | inr (inr (inr (_, _, _, _, inl t))) ↦ subst After (sym (ap of_answer t.3)) (
            Low-set m.bitmap_block_count header.bitmap_ext_index m.bitmap false low
              (λ same. absurd (true≢false (sym same))))
        | inr (inr (inr (_, _, _, _, inr t))) ↦ subst After (sym t.1) low
      ]

  -- In every manager that a run leads to, with a bitmap block at least and no more of these than
  -- extent blocks, the extent blocks in use are among the first `bitmap_block_count_` ones.
  pub Runs-Low :
      (m : ExtentManager)
      → Runs host file m
      → 0 < m.bitmap_block_count
      → m.bitmap_block_count ≤ m.extent_block_count
      → Low m.bitmap_block_count m.bitmap
  Runs-Low m (started offset bitmap_blocks extent_blocks size extents_offset e) positive enough =
      begun-Low offset bitmap_blocks extent_blocks size extents_offset _
  Runs-Low m (added {m = m'} device header a r e) positive enough =
      let k = add_extent-Keeps host file m' device header a e in
      let v = (Runs-IsValid host file m' r).0 in
      let before : 0 < m'.bitmap_block_count = omega (arith, k.blocks_kept) in
      let within : m'.bitmap_block_count ≤ m'.extent_block_count =
        omega (arith, k.blocks_kept, k.extents_kept) in
      subst (λ n. Low n a.manager.bitmap) (sym k.blocks_kept)
        (added-Low m' device header a before within v.bitmap_length (Runs-Low m' r before within) e)
  Runs-Low m (deleted {m = m'} device header tmp a r e) positive enough =
      let k = del_extent-Keeps host file m' device header tmp a e in
      subst (λ n. Low n a.manager.bitmap) (sym k.blocks_kept)
        (deleted-Low m' device header tmp a
          (Runs-Low m' r (omega (arith, k.blocks_kept))
            (omega (arith, k.blocks_kept, k.extents_kept)))
          e)
