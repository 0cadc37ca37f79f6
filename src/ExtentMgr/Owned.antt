-- ===== src/ExtentMgr/Owned.antt =====
-- No two extents that `AddExtent` has placed share a block.
use pancake_store.Base.{
  ℕ, zero, suc, ◌+◌, ◌*◌, ◌^◌, ◌≤◌, ◌<◌, ◌≡◌, ◌≢◌, ◌⊎◌, inl, inr, refl, sym, ap, ◌∙◌, Bool, true,
  false, some, List, [], ◌∷◌, length, set, get_elem?, All, arith,
}
use mathlib.Core.Bool.{true≢false}
use mathlib.Core.Option.{some-injective}
use mathlib.Core.Path.{subst}
use native.Mathlib.Decide.{dec_lt}
use native.Mathlib.Nat.{mul-le-mul_right, suc-mul}
use pancake_store.Comm.ErrorCode.{pancake_store_ok, is_not_ok}
use pancake_store.Block.Host.{Host}
use pancake_store.Block.ExtentHeader.{ExtentHeaderBlock}
use pancake_store.Io.{File}
use pancake_store.ExtentMgr.{ExtentManager, Answer, extent_block_device_offset, add_extent}
use pancake_store.ExtentMgr.AddExtent.{add_extent_lem}

-- The extent of a map entry stands at the offset of a block whose bit is set.
abbrev pub OwnsBlock : ExtentManager → ℕ × ℕ → Type 0
OwnsBlock m e =
    (i : ℕ) × (get_elem? m.bitmap i ≡ some true) × (e.1 ≡ extent_block_device_offset m i)

abbrev pub Owned : ExtentManager → Type 0
Owned m = All (OwnsBlock m) m.extent_offset_map

-- Two extents of `size` bytes do not overlap.
abbrev pub Apart : ℕ → ℕ → ℕ × ℕ → Type 0
Apart size off e = (off + size ≤ e.1) ⊎ (e.1 + size ≤ off)

get_elem?-set_self :
    (bits : List Bool) (i : ℕ) → i < length bits → get_elem? (set bits i true) i ≡ some true
get_elem?-set_self [] i h = absurd (omega arith)
get_elem?-set_self (b ∷ bits) zero h = refl
get_elem?-set_self (b ∷ bits) (suc i) h = get_elem?-set_self bits i (omega arith)

-- Setting a bit clears none.
get_elem?-set_kept :
    (bits : List Bool) (i j : ℕ)
    → get_elem? bits j ≡ some true
    → get_elem? (set bits i true) j ≡ some true
get_elem?-set_kept [] i j h = h
get_elem?-set_kept (b ∷ bits) zero zero h = refl
get_elem?-set_kept (b ∷ bits) zero (suc j) h = h
get_elem?-set_kept (b ∷ bits) (suc i) zero h = h
get_elem?-set_kept (b ∷ bits) (suc i) (suc j) h = get_elem?-set_kept bits i j h

get_elem?-lt : (bits : List Bool) (i : ℕ) (b : Bool) → get_elem? bits i ≡ some b → i < length bits
get_elem?-lt [] i b h = cc
get_elem?-lt (c ∷ bits) zero b h = omega arith
get_elem?-lt (c ∷ bits) (suc i) b h = omega (arith, get_elem?-lt bits i b h)

All-map {ℓ} :
    {A : Type ℓ} {P Q : A → Type 0} (xs : List A) → ((x : A) → P x → Q x) → All P xs → All Q xs
All-map [] f h = tt
All-map (x ∷ xs) f h = (f x h.0, All-map xs f h.1)

pub mul_gap : (i j s : ℕ) → i < j → i * s + s ≤ j * s
mul_gap i j s h = omega (arith, mul-le-mul_right s h, suc-mul i s)

-- The map with one more extent.
placed-Owned :
    (m : ExtentManager) (c i id : ℕ)
    → Owned m
    → i < length m.bitmap
    → Owned (record m {
      cursor = c;
      bitmap = set m.bitmap i true;
      extent_offset_map = (id, extent_block_device_offset m i) ∷ m.extent_offset_map;
    })
unfolding extent_block_device_offset
placed-Owned m c i id owned h = (
  (i, get_elem?-set_self m.bitmap i h, refl),
  All-map m.extent_offset_map (λ e o. (o.0, get_elem?-set_kept m.bitmap i o.0 o.1, o.2)) owned,
)

-- Two blocks of an extent manager whose offsets fit 64 bits do not overlap.
blocks-Apart :
    (m : ExtentManager) (i j : ℕ)
    → i ≢ j
    → i < m.extent_block_count
    → j < m.extent_block_count
    → m.extent_block_count * m.extent_block_size + m.extent_blocks_offset < 2 ^ 64
    → (extent_block_device_offset m i + m.extent_block_size ≤ extent_block_device_offset m j)
      ⊎ (extent_block_device_offset m j + m.extent_block_size ≤ extent_block_device_offset m i)
unfolding extent_block_device_offset
blocks-Apart m i j ne hi hj fits =
    let gi = mul_gap i m.extent_block_count m.extent_block_size hi in
    let gj = mul_gap j m.extent_block_count m.extent_block_size hj in
    elim (dec_lt i j) [
      | yes l ↦ inl (omega (arith, gi, gj, fits, mul_gap i j m.extent_block_size l))
      | no l ↦ inr (omega (arith, gi, gj, fits, mul_gap j i m.extent_block_size (omega arith)))
    ]

-- A block whose bit is clear does not overlap the extents in the map.
clear-Apart :
    (m : ExtentManager) (i : ℕ)
    → m.extent_block_count * m.extent_block_size + m.extent_blocks_offset < 2 ^ 64
    → length m.bitmap ≡ m.extent_block_count
    → get_elem? m.bitmap i ≡ some false
    → (x : ℕ × ℕ) → OwnsBlock m x
    → Apart m.extent_block_size (extent_block_device_offset m i) x
clear-Apart m i fits len clear x o =
    let j = o.0 in
    let ne : i ≢ j = λ q.
      true≢false (some-injective true false (sym o.1 ∙ ap (get_elem? m.bitmap) (sym q) ∙ clear)) in
    let hi = get_elem?-lt m.bitmap i false clear in
    let hj = get_elem?-lt m.bitmap j true o.1 in
    subst
      (λ (v : ℕ).
        (extent_block_device_offset m i + m.extent_block_size ≤ v)
        ⊎ (v + m.extent_block_size ≤ extent_block_device_offset m i))
      (sym o.2) (blocks-Apart m i j ne (omega (arith, hi, len)) (omega (arith, hj, len)) fits)

module _ {S : Type 0} (host : Host) (file : File S) (m : ExtentManager) (device : S)
    (header : ExtentHeaderBlock) (a : Answer S) where
  -- On a manager with a bit for each extent block, of which there are at least as many as bitmap
  -- blocks, and one bitmap block at least: if each extent in the map stands at the offset of a
  -- block whose bit is set, this still holds after `AddExtent`, whatever it answers.
  pub add_extent-Owned :
      0 < m.bitmap_block_count
      → m.bitmap_block_count ≤ m.extent_block_count
      → length m.bitmap ≡ m.extent_block_count
      → Owned m
      → add_extent host file m device header ≡ some a
      → Owned a.manager
  unfolding extent_block_device_offset
  add_extent-Owned positive enough len owned e =
      elim (add_extent_lem host file m device header a positive enough len e) [
        | inl t ↦ subst (λ r. Owned r.manager) (sym t.1) owned
        | inr s ↦ elim s [
          | inl t ↦ subst (λ r. Owned r.manager) (sym t.1) owned
          | inr u ↦ elim u [
            | inl t ↦ subst (λ r. Owned r.manager) (sym t.1.1) owned
            | inr t ↦
                let (fresh, w) = t in
                let (i, below, clear, placed) = w in
                elim placed.0 [
                  | inl done ↦
                      subst Owned (sym done.2)
                        (placed-Owned m (i + 1) i header.extent_id owned done.1)
                  | inr failed ↦ subst Owned (sym failed.1) owned
                ]
          ]
        ]
      ]

  -- On such a manager, whose extent blocks moreover end within 64 bits, an `AddExtent` that answers
  -- OK puts the extent in front of the map, at an offset from which on a whole extent block
  -- overlaps none of the blocks of the extents that were in the map.
  pub add_extent-Apart :
      0 < m.bitmap_block_count
      → m.bitmap_block_count ≤ m.extent_block_count
      → length m.bitmap ≡ m.extent_block_count
      → m.extent_block_count * m.extent_block_size + m.extent_blocks_offset < 2 ^ 64
      → Owned m
      → add_extent host file m device header ≡ some a
      → a.code ≡ pancake_store_ok
      → (off : ℕ) × (a.manager.extent_offset_map ≡ (header.extent_id, off) ∷ m.extent_offset_map)
        × All (Apart m.extent_block_size off) m.extent_offset_map
  unfolding extent_block_device_offset
  add_extent-Apart positive enough len fits owned e ok =
      elim (add_extent_lem host file m device header a positive enough len e) [
        | inl t ↦ absurd (wrong (ap (λ (r : Answer S). is_not_ok r.code) t.1))
        | inr s ↦ elim s [
          | inl t ↦ absurd (wrong (ap (λ (r : Answer S). is_not_ok r.code) t.1))
          | inr u ↦ elim u [
            | inl t ↦ absurd (wrong (ap (λ (r : Answer S). is_not_ok r.code) t.1.1))
            | inr t ↦
                let (fresh, w) = t in
                let (i, below, clear, placed) = w in
                elim placed.0 [
                  | inl done ↦ (
                    extent_block_device_offset m i,
                    ap (λ (n : ExtentManager). n.extent_offset_map) done.2,
                    All-map m.extent_offset_map (clear-Apart m i fits len clear) owned,
                  )
                  | inr failed ↦ absurd (wrong failed.0)
                ]
          ]
        ]
      ]
    where
      wrong : is_not_ok a.code ≡ true → ⊥
      wrong p = true≢false (sym p ∙ ap is_not_ok ok)
