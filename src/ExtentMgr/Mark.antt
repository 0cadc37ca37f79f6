-- ===== src/ExtentMgr/Mark.antt =====
-- The bitmap block that `AddExtent` or `DelExtent` writes is that of the bitmap in memory with the
-- bit set or cleared.
use pancake_store.Base.{
  ℕ, ◌+◌, ◌*◌, ◌%◌, ◌^◌, ◌<◌, ◌≡◌, ◌≢◌, inl, inr, refl, sym, ap, ◌∙◌, Bool, true, false, List,
  length, get_or, set, ltb, lt→ltb, ◌==◌, ==→eq, eq→==, Bool-cases, get_or-set_self, get_or-set_ne,
  arith, if◌then◌else◌,
}
use pancake_store.Block.Bytes.{k_block_data_size}
use pancake_store.ExtentMgr.{
  ExtentManager, mark_extent_block_used, mark_extent_block_unused, bitmap_index,
}
use pancake_store.ExtentMgr.Bits.{byte_of, with_bit, one_step}
use pancake_store.ExtentMgr.Clone.{copied_block, copied_block_lem, length-copied_block}
use pancake_store.ExtentMgr.Answers.{updated}

-- The byte that the `k`-th bitmap block has for its `j`-th extent block.
abbrev pub byte_at : ExtentManager → ℕ → ℕ → ℕ
byte_at m k j =
    if ltb (k * k_block_data_size + j) m.extent_block_count
    then byte_of (get_or m.bitmap (k * k_block_data_size + j) false)
    else 0

abbrev pub with_used : ExtentManager → ℕ → Bool → ExtentManager
with_used m i used = record m { bitmap = set m.bitmap i used }

with_bit-byte_of : (used b : Bool) → with_bit used (byte_of b) ≡ byte_of used
with_bit-byte_of true true = refl
with_bit-byte_of true false = refl
with_bit-byte_of false true = refl
with_bit-byte_of false false = refl

with_bit-byte_at :
    (used : Bool) (m : ExtentManager) (k j : ℕ) → with_bit used (byte_at m k j) ≡ byte_of used
with_bit-byte_at used m k j =
    elim (Bool-cases (ltb (k * k_block_data_size + j) m.extent_block_count)) [
      | inl e ↦ rw e (with_bit-byte_of used (get_or m.bitmap (k * k_block_data_size + j) false))
      | inr e ↦ rw e (with_bit-byte_of used false)
    ]

-- Setting or clearing a bit changes no byte but its own.
pub byte_at-with_used_other :
    (m : ExtentManager) (i k j : ℕ) (used : Bool)
    → i ≢ k * k_block_data_size + j
    → byte_at (with_used m i used) k j ≡ byte_at m k j
byte_at-with_used_other m i k j used ne =
    ap (λ (b : Bool). if ltb (k * k_block_data_size + j) m.extent_block_count then byte_of b else 0)
      (get_or-set_ne m.bitmap i (k * k_block_data_size + j) used false ne)

byte_at-with_used_self :
    (m : ExtentManager) (i k j : ℕ) (used : Bool)
    → i ≡ k * k_block_data_size + j
    → i < length m.bitmap
    → i < m.extent_block_count
    → byte_at (with_used m i used) k j ≡ byte_of used
byte_at-with_used_self m i k j used e h few =
    rw (lt→ltb (k * k_block_data_size + j) m.extent_block_count (omega (arith, e, few))) (
      ap byte_of (
        ap (λ (x : ℕ). get_or (set m.bitmap x used) (k * k_block_data_size + j) false) e
        ∙ get_or-set_self m.bitmap (k * k_block_data_size + j) used false (omega (arith, e, h))))

module _ (m : ExtentManager) (i : ℕ) where
  abbrev cloned : List ℕ
  cloned = (copied_block m i).bitmap

  abbrev inner : ℕ
  inner = i % k_block_data_size

  updated_bytes :
      (u : Bool) → (updated u m i).bitmap ≡ set cloned inner (with_bit u (get_or cloned inner 0))
  unfolding mark_extent_block_used mark_extent_block_unused
  updated_bytes true = one_step true cloned inner
  updated_bytes false = one_step false cloned inner

  where_updated : i ≡ bitmap_index i * k_block_data_size + i % k_block_data_size
  unfolding bitmap_index
  where_updated = omega arith

  pub updated_lem :
      (used : Bool)
      → i < length m.bitmap
      → i < m.extent_block_count
      → m.extent_block_count < 2 ^ 31
      → (j : ℕ) → j < k_block_data_size
      → get_or (updated used m i).bitmap j 0 ≡ byte_at (with_used m i used) (bitmap_index i) j
  unfolding bitmap_index
  updated_lem used h few few31 j small = elim (Bool-cases (inner == j)) [
    | inl e ↦
        let same : inner ≡ j = ==→eq _ _ e in
        let at : i ≡ bitmap_index i * k_block_data_size + j = omega (arith, where_updated, same) in
        ap (λ (l : List ℕ). get_or l j 0) (updated_bytes used)
        ∙ ap (λ (x : ℕ). get_or (set cloned inner (with_bit used (get_or cloned inner 0))) x 0)
            (sym same)
        ∙ get_or-set_self cloned inner _ 0 (omega (arith, length-copied_block m i))
        ∙ ap (with_bit used) (copied_block_lem m i inner few31 (omega arith))
        ∙ with_bit-byte_at used m (bitmap_index i) inner
        ∙ sym (byte_at-with_used_self m i (bitmap_index i) j used at h few)
    | inr e ↦
        let other : inner ≢ j = λ q. cc (e, eq→== _ _ q) in
        ap (λ (l : List ℕ). get_or l j 0) (updated_bytes used)
        ∙ get_or-set_ne cloned inner j _ 0 other
        ∙ copied_block_lem m i j few31 small
        ∙ sym (
            byte_at-with_used_other m i (bitmap_index i) j used
              (omega (arith, where_updated, other)))
  ]
