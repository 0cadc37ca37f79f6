-- ===== src/Io/Laws.antt =====
-- What was written to a device is read back.
use pancake_store.Base.{
  ℕ, zero, suc, ◌+◌, ◌-◌, ◌≤◌, ◌<◌, ◌≡◌, ◌⊎◌, inl, inr, refl, sym, ap, ap₂, ◌∙◌, Bool, true, false,
  ◌||◌, not, Option, none, some, List, [], ◌∷◌, ◌++◌, length, get_or, if◌then◌else◌, arith,
  Option-cases,
}
use pancake_store.Comm.ErrorCode.{pancake_store_ok, datanode_storage_not_block_aligned}
use pancake_store.Io.{is_block_align, slice, overlay, File, read_at, write_at, write_result}

-- The bytes of a list, from the `k`-th on, as they lie on a device from `off + k` on.
slice_of_list :
    (content : ℕ → ℕ) (off : ℕ) (bytes : List ℕ)
    → ((i : ℕ) → i < length bytes → content (off + i) ≡ get_or bytes i 0)
    → slice content off (length bytes) ≡ bytes
slice_of_list content off [] h = refl
slice_of_list content off (b ∷ bytes) h = ap₂ ◌∷◌ (ap content (at_zero off) ∙ h 0 (omega arith)) (
    slice_of_list content (off + 1) bytes
      (λ i p. ap content (at_suc off i) ∙ h (suc i) (omega arith)))
  where
    at_zero : (o : ℕ) → o ≡ o + 0
    at_zero o = omega arith

    at_suc : (o i : ℕ) → o + 1 + i ≡ o + suc i
    at_suc o i = omega arith

pub slice_ext :
    (f g : ℕ → ℕ) (off n : ℕ)
    → ((i : ℕ) → off ≤ i → i < off + n → f i ≡ g i)
    → slice f off n ≡ slice g off n
slice_ext f g off zero h = refl
slice_ext f g off (suc n) h =
    ap₂ ◌∷◌ (h off (omega arith) (omega arith))
      (slice_ext f g (off + 1) n (λ i p q. h i (omega arith) (omega arith)))

pub slice-overlay_self :
    (content : ℕ → ℕ) (off : ℕ) (bytes : List ℕ)
    → slice (overlay content off bytes) off (length bytes) ≡ bytes
slice-overlay_self content off bytes =
    slice_of_list (overlay content off bytes) off bytes (λ i h. inside i h)
  where
    back : (i : ℕ) → off + i - off ≡ i
    back i = omega arith

    inside : (i : ℕ) → i < length bytes → overlay content off bytes (off + i) ≡ get_or bytes i 0
    inside i h = ground (arith, back i)

pub slice-overlay_other :
    (content : ℕ → ℕ) (off : ℕ) (bytes : List ℕ) (o n : ℕ)
    → (o + n ≤ off) ⊎ (off + length bytes ≤ o)
    → slice (overlay content off bytes) o n ≡ slice content o n
slice-overlay_other content off bytes o n apart =
    slice_ext (overlay content off bytes) content o n (λ i p q. ground arith)

module _ {S : Type 0} (file : File S) where
  write_result_ok :
      (r : S × Option ℕ) (n : ℕ)
      → (write_result file r n).0 ≡ pancake_store_ok
      → (r.1 ≡ some n) × ((write_result file r n).1 ≡ r.0)
  unfolding write_result
  write_result_ok (s, none) n e = cc
  write_result_ok (s, some len) n e = ground arith

  -- A write that answers OK has put its bytes on the device, and has changed no byte elsewhere.
  pub write_at_stores :
      (s : S) (off : ℕ) (bytes : List ℕ)
      → (write_at file s off bytes).0 ≡ pancake_store_ok
      → (i : ℕ)
      → file.content (write_at file s off bytes).1 i ≡ overlay (file.content s) off bytes i
  unfolding write_at
  write_at_stores s off bytes e i = go (is_block_align off) (is_block_align (length bytes)) e
    where
      go :
          (a b : Bool)
          → (if not a || not b
              then (datanode_storage_not_block_aligned, s)
              else write_result file (file.dma_write s off bytes) (length bytes)).0
            ≡ pancake_store_ok
          → file.content
              ((if not a || not b
                then (datanode_storage_not_block_aligned, s)
                else write_result file (file.dma_write s off bytes) (length bytes)).1)
              i
            ≡ overlay (file.content s) off bytes i
      go false b h = cc
      go true false h = cc
      go true true h =
          let (full, same) = write_result_ok (file.dma_write s off bytes) (length bytes) h in
          ap (λ t. file.content t i) same ∙ file.write_lem s off bytes full i

  -- A read that answers OK appends what stands on the device.
  pub read_at_loads :
      (s : S) (off len : ℕ) (buf : List ℕ)
      → (read_at file s off len buf).0 ≡ pancake_store_ok
      → (read_at file s off len buf).1 ≡ buf ++ slice (file.content s) off len
  unfolding read_at
  read_at_loads s off len buf e = elim (Option-cases (file.dma_read_exactly s off len)) [
    | inl fails ↦ ground (arith, fails)
    | inr (bytes, reads) ↦ ground (arith, reads, file.read_lem s off len bytes reads)
  ]

  slice-write_at :
      (s : S) (off : ℕ) (bytes : List ℕ) (o n : ℕ)
      → (write_at file s off bytes).0 ≡ pancake_store_ok
      → slice (file.content (write_at file s off bytes).1) o n
        ≡ slice (overlay (file.content s) off bytes) o n
  slice-write_at s off bytes o n written =
      slice_ext _ _ o n (λ i p q. write_at_stores s off bytes written i)

  -- After a write of `n` bytes, the place written holds them.
  pub slice-write_at_self :
      (s : S) (off : ℕ) (bytes : List ℕ) (n : ℕ)
      → length bytes ≡ n
      → (write_at file s off bytes).0 ≡ pancake_store_ok
      → slice (file.content (write_at file s off bytes).1) off n ≡ bytes
  slice-write_at_self s off bytes n size written =
      ap (slice (file.content (write_at file s off bytes).1) off) (sym size)
      ∙ slice-write_at s off bytes off (length bytes) written
      ∙ slice-overlay_self (file.content s) off bytes

  -- Any other `n` bytes stay.
  pub slice-write_at_other :
      (s : S) (off : ℕ) (bytes : List ℕ) (n o : ℕ)
      → length bytes ≡ n
      → (write_at file s off bytes).0 ≡ pancake_store_ok
      → (o + n ≤ off) ⊎ (off + n ≤ o)
      → slice (file.content (write_at file s off bytes).1) o n ≡ slice (file.content s) o n
  slice-write_at_other s off bytes n o size written apart =
      slice-write_at s off bytes o n written
      ∙ slice-overlay_other (file.content s) off bytes o n (rw size apart)

  -- When a write answers OK and then a read of the same place and length into an empty buffer
  -- answers OK, the buffer holds what was written.
  pub read_at-write_at :
      (s : S) (off : ℕ) (bytes : List ℕ)
      → (write_at file s off bytes).0 ≡ pancake_store_ok
      → (read_at file (write_at file s off bytes).1 off (length bytes) []).0 ≡ pancake_store_ok
      → (read_at file (write_at file s off bytes).1 off (length bytes) []).1 ≡ bytes
  read_at-write_at s off bytes written ok =
      read_at_loads (write_at file s off bytes).1 off (length bytes) [] ok
      ∙ slice-write_at s off bytes off (length bytes) written
      ∙ slice-overlay_self (file.content s) off bytes

  -- A read of a place that a write, which answered OK, does not overlap gives the same bytes after
  -- the write as before it, when both reads answer OK.
  pub read_at-write_at_apart :
      (s : S) (off : ℕ) (bytes : List ℕ) (o n : ℕ)
      → (write_at file s off bytes).0 ≡ pancake_store_ok
      → (o + n ≤ off) ⊎ (off + length bytes ≤ o)
      → (read_at file s o n []).0 ≡ pancake_store_ok
      → (read_at file (write_at file s off bytes).1 o n []).0 ≡ pancake_store_ok
      → (read_at file (write_at file s off bytes).1 o n []).1 ≡ (read_at file s o n []).1
  read_at-write_at_apart s off bytes o n written apart before after =
      read_at_loads (write_at file s off bytes).1 o n [] after
      ∙ slice-write_at s off bytes o n written
      ∙ slice-overlay_other (file.content s) off bytes o n apart
      ∙ sym (read_at_loads s o n [] before)
