-- ===== src/ExtentMgr/Clone.antt =====
-- The bitmap block that is made from the bitmap in memory.
use Prim.Native.Nat.{min}
use pancake_store.Base.{
  ℕ, ◌+◌, ◌-◌, ◌*◌, ◌/◌, ◌%◌, ◌^◌, ◌⊎◌, refl, sym, none, some, lt→ltb, Option-cases, ◌≤◌, ◌<◌, ◌≡◌,
  inl, inr, ap, ◌∙◌, Bool, true, false, List, length, get_or, ltb, ltb→lt, All, IsByte,
  All-replicate, length-replicate, length-set, arith, Bool-cases, if◌then◌else◌,
}
use mathlib.Core.Option.{some-injective, none-ne-some}
use pancake_store.Block.Bitmap.{BitMapBlock}
use pancake_store.Block.Bytes.{k_block_data_size}
use pancake_store.Layout.{sizeof_uint8}
use pancake_store.ExtentMgr.{
  ExtentManager, set_bit, clear_bit, clone_bits, clone_bit_map_block, clone_rounds, bitmap_index,
  mark_extent_block_used, mark_extent_block_unused, zero_block,
}
use pancake_store.ExtentMgr.Bits.{
  with_bit-IsByte, All-get_or, All-set, length-copy_bits, copy_bits-IsByte, copy_bits_other,
  copy_bits_entry, copy_bits, clone_bits-copy_bits, clone_bits-some, get_or-replicate,
  with_bit-zero, ltb_false→le, with_bit, one_step, byte_of, changed,
}

module _ (m : ExtentManager) (i : ℕ) where
  abbrev first : ℕ
  first = i / k_block_data_size * k_block_data_size

  abbrev rounds : ℕ
  rounds = clone_rounds m first

  -- The block that `cloneBitMapBlockWithoutLock` makes where it makes one.
  unfoldable pub copied_block : BitMapBlock
  copied_block = record zero_block { bitmap = copy_bits rounds first 0 m.bitmap zero_block.bitmap }

  pub clone_bit_map_block_made :
      (b : BitMapBlock) → clone_bit_map_block m i ≡ some b → b ≡ copied_block
  unfolding clone_bit_map_block copied_block bitmap_index
  clone_bit_map_block_made b e = elim (Bool-cases (ltb (first + k_block_data_size) (2 ^ 31))) [
    | inr f ↦
        let at : clone_bit_map_block m i ≡ none = rw (f, clone_bit_map_block) refl in
        absurd (none-ne-some b (sym at ∙ e))
    | inl f ↦ elim (Option-cases (clone_bits rounds first 0 m.bitmap zero_block.bitmap)) [
      | inl g ↦
          let at : clone_bit_map_block m i ≡ none = rw (f, g, clone_bit_map_block) refl in
          absurd (none-ne-some b (sym at ∙ e))
      | inr (bytes, g) ↦
          let at : clone_bit_map_block m i ≡ some (record zero_block { bitmap = bytes }) =
            rw (f, g, clone_bit_map_block) refl in
          some-injective _ _ (sym e ∙ at)
          ∙ ap (λ (l : List ℕ). record zero_block { bitmap = l })
              (clone_bits-copy_bits rounds first 0 m.bitmap zero_block.bitmap bytes g)
    ]
  ]

  -- It makes one where the bitmap has a bit for each extent block and `int` holds the indices.
  pub clone_bit_map_block-some :
      length m.bitmap ≡ m.extent_block_count
      → i + k_block_data_size < 2 ^ 31
      → clone_bit_map_block m i ≡ some copied_block
  unfolding clone_bit_map_block copied_block clone_rounds bitmap_index
  clone_bit_map_block-some len small =
      let held : ltb (first + k_block_data_size) (2 ^ 31) ≡ true = lt→ltb _ _ (omega arith) in
      let inside : (rounds ≡ 0) ⊎ (first + 0 + rounds ≤ length m.bitmap) =
        elim (Bool-cases (ltb m.extent_block_count (2 ^ 31))) [
          | inl e ↦ rw e (ground (arith, len))
          | inr e ↦ inl (rw e refl)
        ] in
      rw (held, clone_bits-some rounds first 0 m.bitmap zero_block.bitmap inside) refl

  rounds_lem :
      m.extent_block_count < 2 ^ 31
      → rounds ≡ min (first + k_block_data_size) m.extent_block_count - first
  unfolding clone_rounds
  rounds_lem few = rw (lt→ltb m.extent_block_count (2 ^ 31) few) refl

  rounds_none : ltb m.extent_block_count (2 ^ 31) ≡ false → rounds ≡ 0
  unfolding clone_rounds
  rounds_none e = rw e refl

  -- When there are fewer than 2^31 extent blocks, the block for the extent block `i` has, for each of the 4064 indices from the
  -- first of its bitmap block on, a byte: 1 if there is such an extent block and its bit is set,
  -- else 0. A byte stands for one extent block, not for eight.
  pub copied_block_lem :
      (j : ℕ)
      → m.extent_block_count < 2 ^ 31
      → j < k_block_data_size
      → get_or copied_block.bitmap j 0 ≡ (
          if ltb (first + j) m.extent_block_count
          then byte_of (get_or m.bitmap (first + j) false)
          else 0)
  unfolding copied_block
  copied_block_lem j few h =
      let times = rounds_lem few in
      elim (Bool-cases (ltb (first + j) m.extent_block_count)) [
        | inl e ↦
            let inside : first + j < m.extent_block_count = ltb→lt _ _ e in
            rw e (
              copy_bits_entry rounds first 0 m.bitmap zero_block.bitmap j (omega arith)
                (omega (arith, inside, times))
                (omega (arith, length-replicate {A = ℕ} k_block_data_size 0))
              ∙ ap (with_bit (get_or m.bitmap (first + j) false))
                  (get_or-replicate k_block_data_size j)
              ∙ with_bit-zero (get_or m.bitmap (first + j) false))
        | inr e ↦
            let outside : m.extent_block_count ≤ first + j = ltb_false→le _ _ e in
            rw e (
              copy_bits_other rounds first 0 m.bitmap zero_block.bitmap j
                (inr (omega (arith, outside, times)))
              ∙ get_or-replicate k_block_data_size j)
      ]

  -- What the block has for the `j`-th of its extent blocks.
  abbrev pub cloned_byte : ℕ → ℕ
  cloned_byte j =
      if ltb m.extent_block_count (2 ^ 31)
      then if ltb (first + j) m.extent_block_count
        then byte_of (get_or m.bitmap (first + j) false)
        else 0
      else 0

  copied_block-cloned_byte :
      (j : ℕ) → j < k_block_data_size → get_or copied_block.bitmap j 0 ≡ cloned_byte j
  unfolding copied_block
  copied_block-cloned_byte j h = elim (Bool-cases (ltb m.extent_block_count (2 ^ 31))) [
    | inl e ↦ rw e (copied_block_lem j (ltb→lt _ _ e) h)
    | inr e ↦
        ap (λ (n : ℕ). get_or (copy_bits n first 0 m.bitmap zero_block.bitmap) j 0) (rounds_none e)
        ∙ copy_bits_other 0 first 0 m.bitmap zero_block.bitmap j (inr (omega arith))
        ∙ get_or-replicate k_block_data_size j
        ∙ sym (rw e refl)
  ]

  pub length-copied_block : length copied_block.bitmap ≡ k_block_data_size
  unfolding copied_block
  length-copied_block =
      length-copy_bits rounds first 0 m.bitmap zero_block.bitmap
      ∙ length-replicate {A = ℕ} k_block_data_size 0

  -- The block with one more bit set or cleared still has its size, and holds bytes.
  changed-copied_block_lem :
      (used : Bool)
      → (length (
            if used
            then set_bit copied_block.bitmap (i % (k_block_data_size * sizeof_uint8))
            else clear_bit copied_block.bitmap (i % (k_block_data_size * sizeof_uint8)))
          ≡ k_block_data_size)
        × All IsByte (
            if used
            then set_bit copied_block.bitmap (i % (k_block_data_size * sizeof_uint8))
            else clear_bit copied_block.bitmap (i % (k_block_data_size * sizeof_uint8)))
  unfolding copied_block
  changed-copied_block_lem used =
      let cloned : List ℕ = copy_bits rounds first 0 m.bitmap zero_block.bitmap in
      let inner = i % (k_block_data_size * sizeof_uint8) in
      let small : All IsByte cloned =
        copy_bits-IsByte rounds first 0 m.bitmap zero_block.bitmap
          (All-replicate IsByte k_block_data_size 0 (omega arith)) in
      rw (one_step used cloned inner) (
        length-set cloned inner _
            ∙ length-copy_bits rounds first 0 m.bitmap zero_block.bitmap
            ∙ length-replicate {A = ℕ} k_block_data_size 0,
        All-set cloned inner _ small (with_bit-IsByte used _ (All-get_or cloned inner small)),
      )

  pub changed-copied_block :
      (used : Bool)
      → (length (changed used copied_block i).bitmap ≡ k_block_data_size)
        × All IsByte (changed used copied_block i).bitmap
  unfolding mark_extent_block_used mark_extent_block_unused
  changed-copied_block true = changed-copied_block_lem true
  changed-copied_block false = changed-copied_block_lem false

  -- For a manager with a bit for each extent block, and an index below 2^31 - 4064,
  -- `cloneBitMapBlockWithoutLock` reads no bit past the bitmap and makes a block of 4064 bytes. With
  -- fewer than 2^31 extent blocks the `j`-th byte is 1 if there is a `j`-th extent block from the
  -- first of this bitmap block on and its bit is set, and else 0; with 2^31 extent blocks or more
  -- every byte is 0, whatever the bits are.
  pub clone_bit_map_block_lem :
      (j : ℕ)
      → length m.bitmap ≡ m.extent_block_count
      → i + k_block_data_size < 2 ^ 31
      → j < k_block_data_size
      → (b : BitMapBlock) × (clone_bit_map_block m i ≡ some b)
        × (length b.bitmap ≡ k_block_data_size)
        × (get_or b.bitmap j 0 ≡ cloned_byte j)
  clone_bit_map_block_lem j len small h = (
    copied_block,
    clone_bit_map_block-some len small,
    length-copied_block,
    copied_block-cloned_byte j h,
  )
