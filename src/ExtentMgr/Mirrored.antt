-- ===== src/ExtentMgr/Mirrored.antt =====
-- The bitmap blocks on the device and the bitmap in memory.
use pancake_store.Base.{
  ℕ, ◌+◌, ◌*◌, ◌^◌, ◌≤◌, ◌<◌, ◌≡◌, ◌≢◌, ◌⊎◌, inl, inr, sym, ap, ◌∙◌, Bool, List, length, get_or,
  ◌==◌, ==→eq, eq→==, Bool-cases, arith,
}
use mathlib.Core.Path.{subst}
use pancake_store.Comm.ErrorCode.{ErrorCode, pancake_store_ok}
use pancake_store.Block.Host.{Host}
use pancake_store.Block.Bytes.{k_block_size, k_block_data_size}
use pancake_store.Block.Bitmap
use pancake_store.Block.Bitmap.{BitMapBlock}
use pancake_store.Block.Bitmap.RoundTrip.{deserialize-serialize_bitmap, deserialize_any}
use pancake_store.Io.{File, slice, write_at}
use pancake_store.Io.Laws.{slice-write_at_self, slice-write_at_other}
use pancake_store.ExtentMgr.{
  ExtentManager, extent_block_device_offset, bitmap_block_device_offset, bitmap_index,
}
use pancake_store.ExtentMgr.Answers.{updated, updated_bytes, updated-BitMapFits}
use pancake_store.ExtentMgr.Mark.{byte_at, with_used, updated_lem, byte_at-with_used_other}
use pancake_store.ExtentMgr.Owned.{mul_gap}

-- The bytes are read, into the block `tmp`, as the `k`-th bitmap block: for each of its extent blocks
-- the byte 1 if the bit in memory is set, and else 0.
abbrev pub Shows : Host → List ℕ → ExtentManager → ℕ → BitMapBlock → Type 0
Shows host bytes m k tmp =
    ((Bitmap.deserialize host tmp bytes).0 ≡ pancake_store_ok)
    × ((j : ℕ)
        → j < k_block_data_size
        → get_or (Bitmap.deserialize host tmp bytes).1.bitmap j 0 ≡ byte_at m k j)

-- So the `k`-th bitmap block of the device is read, into any block.
abbrev pub Mirrors : Host → (ℕ → ℕ) → ExtentManager → ℕ → Type 0
Mirrors host content m k =
    (tmp : BitMapBlock)
    → Shows host (slice content (bitmap_block_device_offset m k) k_block_size) m k tmp

-- The bitmap blocks are counted in 32 bits, and stand before the extent blocks, which end within
-- 64 bits.
pub record Regions (m : ExtentManager) : Type 0 where
  pub bitmap_within : m.bitmap_block_count * k_block_size < 2 ^ 32
  pub bitmap_before : m.offset + m.bitmap_block_count * k_block_size ≤ m.extent_blocks_offset
  pub end_within : m.extent_block_count * m.extent_block_size + m.extent_blocks_offset < 2 ^ 64

pub Regions-moved : (m : ExtentManager) (c : ℕ) → Regions m → Regions (record m { cursor = c })
Regions-moved m c r = record {
  bitmap_within = r.bitmap_within;
  bitmap_before = r.bitmap_before;
  end_within = r.end_within;
}

pub index_below : (i n : ℕ) → i < n → bitmap_index i < n
unfolding bitmap_index
index_below i n h = omega (arith, h)

module _ (m : ExtentManager) (r : Regions m)
    (few : m.bitmap_block_count ≤ m.extent_block_count) where
  bitmap_offset :
      (k : ℕ)
      → k < m.bitmap_block_count
      → bitmap_block_device_offset m k ≡ m.offset + k * k_block_size
  unfolding bitmap_block_device_offset
  bitmap_offset k h = omega (arith, r.bitmap_within, r.bitmap_before, r.end_within)

  extent_offset :
      (i : ℕ) → i < m.bitmap_block_count → m.extent_blocks_offset ≤ extent_block_device_offset m i
  unfolding extent_block_device_offset
  extent_offset i h =
      omega (
        arith,
        r.end_within,
        mul_gap i m.extent_block_count m.extent_block_size (omega (arith, few)),
      )

  before_extents :
      (k i : ℕ)
      → k < m.bitmap_block_count
      → i < m.bitmap_block_count
      → bitmap_block_device_offset m k + k_block_size ≤ extent_block_device_offset m i
  before_extents k i hk hi = omega (arith, bitmap_offset k hk, extent_offset i hi, r.bitmap_before)

  blocks_apart :
      (k l : ℕ)
      → k < m.bitmap_block_count
      → l < m.bitmap_block_count
      → k ≢ l
      → (bitmap_block_device_offset m k + k_block_size ≤ bitmap_block_device_offset m l)
        ⊎ (bitmap_block_device_offset m l + k_block_size ≤ bitmap_block_device_offset m k)
  blocks_apart k l hk hl ne = ground (arith, bitmap_offset k hk, bitmap_offset l hl, ne)

-- All bitmap blocks do.
abbrev pub AllMirror : Host → (ℕ → ℕ) → ExtentManager → Type 0
AllMirror host content m = (k : ℕ) → k < m.bitmap_block_count → Mirrors host content m k

module _ {S : Type 0} (host : Host) (file : File S) (m : ExtentManager) (device : S) (r : Regions m)
    (few : m.bitmap_block_count ≤ m.extent_block_count) where
  -- A block that is written where an extent block stands changes no bitmap block.
  pub AllMirror-extent :
      (i : ℕ) (bytes : List ℕ)
      → i < m.bitmap_block_count
      → length bytes ≡ k_block_size
      → (write_at file device (extent_block_device_offset m i) bytes).0 ≡ pancake_store_ok
      → AllMirror host (file.content device) m
      → AllMirror host
          (file.content (write_at file device (extent_block_device_offset m i) bytes).1)
          m
  unfolding extent_block_device_offset
  AllMirror-extent i bytes below size ok before k h tmp =
      subst (λ (l : List ℕ). Shows host l m k tmp)
        (sym (
          slice-write_at_other file device (extent_block_device_offset m i) bytes k_block_size
            (bitmap_block_device_offset m k) size ok (inl (before_extents m r few k i h below))))
        (before k h tmp)

  -- The bitmap block of the `i`-th extent block, with its bit set or cleared.
  module _ (i : ℕ) (used : Bool) where
    abbrev commit_write : ErrorCode × S
    commit_write =
        write_at file device (bitmap_block_device_offset m (bitmap_index i))
          (updated_bytes host used m i)

    length-updated_bytes : length (updated_bytes host used m i) ≡ k_block_size
    length-updated_bytes =
        (deserialize-serialize_bitmap host (updated used m i) (updated used m i)
          (updated-BitMapFits used m i)).1.size

    -- What is written is read as the bitmap block with the bit.
    Shows-updated_bytes :
        length m.bitmap ≡ m.extent_block_count
        → i < m.extent_block_count
        → m.extent_block_count < 2 ^ 31
        → (tmp : BitMapBlock)
        → Shows host (updated_bytes host used m i) (with_used m i used) (bitmap_index i) tmp
    Shows-updated_bytes len inside few31 tmp =
        let loaded =
          deserialize_any host (updated used m i) (updated used m i) tmp
            (updated-BitMapFits used m i) in
        (
          ap (λ (x : ErrorCode × BitMapBlock). x.0) loaded,
          λ j h.
              ap (λ (x : ErrorCode × BitMapBlock). get_or x.1.bitmap j 0) loaded
              ∙ updated_lem m i used (omega (arith, len, inside)) inside few31 j h,
        )

    elsewhere :
        (k j : ℕ) → j < k_block_data_size → k ≢ bitmap_index i → i ≢ k * k_block_data_size + j
    unfolding bitmap_index
    elsewhere k j s ne = omega (arith, ne)

    -- The bitmap blocks after the write are those of the bitmap with the bit.
    pub AllMirror-commit :
        length m.bitmap ≡ m.extent_block_count
        → i < m.extent_block_count
        → m.extent_block_count < 2 ^ 31
        → bitmap_index i < m.bitmap_block_count
        → commit_write.0 ≡ pancake_store_ok
        → AllMirror host (file.content device) m
        → AllMirror host (file.content commit_write.1) (with_used m i used)
    unfolding bitmap_block_device_offset
    AllMirror-commit len inside few31 below ok before k h tmp =
        let off = bitmap_block_device_offset m (bitmap_index i) in
        elim (Bool-cases (k == bitmap_index i)) [
          | inl e ↦
              let same : bitmap_index i ≡ k = sym (==→eq _ _ e) in
              subst
                (λ (l : ℕ).
                  Shows host
                    (slice (file.content commit_write.1) (bitmap_block_device_offset m l)
                      k_block_size)
                    (with_used m i used) l tmp)
                same
                (subst
                  (λ (bytes : List ℕ). Shows host bytes (with_used m i used) (bitmap_index i) tmp)
                  (sym (
                    slice-write_at_self file device off (updated_bytes host used m i) k_block_size
                      length-updated_bytes ok))
                  (Shows-updated_bytes len inside few31 tmp))
          | inr e ↦
              let other : k ≢ bitmap_index i = λ q. cc (e, eq→== _ _ q) in
              let kept =
                subst (λ (bytes : List ℕ). Shows host bytes m k tmp)
                  (sym (
                    slice-write_at_other file device off (updated_bytes host used m i) k_block_size
                      (bitmap_block_device_offset m k) length-updated_bytes ok
                      (blocks_apart m r few k (bitmap_index i) h below other)))
                  (before k h tmp) in
              (
                kept.0,
                λ j s.
                    kept.1 j s ∙ sym (byte_at-with_used_other m i k j used (elsewhere k j s other)),
              )
        ]
