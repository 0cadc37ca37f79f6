-- ===== src/Block/Footer/Corrupted.antt =====
-- A block with one byte of its data changed after it was written is refused.
use pancake_store.Base.{
  ℕ, ◌-◌, ◌^◌, ◌<◌, ◌≡◌, ◌≢◌, refl, sym, ap, ◌∙◌, List, [], ◌∷◌, ◌++◌, length, arith, length-append,
  All, IsByte, All-append, eq→==, ne→==, some,
}
use mathlib.Core.Path.{subst}
use mathlib.Core.List.{append-nil, append_assoc}
use pancake_store.Comm.ErrorCode.{datanode_storage_block_crc_mismatch}
use pancake_store.Comm.Crc.{crc32}
use pancake_store.Comm.Crc.Prefix.{crc32-append}
use pancake_store.Comm.Crc.Detection.{crc32_single_byte}
use pancake_store.Block.Host.{Host}
use pancake_store.Block.Bytes.{k_block_size, k_block_data_size, k_block_magic, concat}
use pancake_store.Block.Step.{go, Step, int_bytes, deserialize_block}
use pancake_store.Block.Step.Reads.{Reads, length-int_bytes, assert_block_size-some}
use pancake_store.Block.Footer.{BlockFooter, FooterFits, footer_pieces, write_footer}
use pancake_store.Block.Footer.Reads.{IsField, footer_pieces-IsByte}
use pancake_store.Block.Footer.Stored.{
  stamped, stamped-FooterFits, checksum, checksum-lt, length-sealed, with_footer, footer-Reads,
}

pub All-replaced :
    (front : List ℕ) (x y : ℕ) (back : List ℕ)
    → All IsByte (front ++ (x ∷ back))
    → IsByte y
    → All IsByte (front ++ (y ∷ back))
All-replaced [] x y back h k = (k, h.1)
All-replaced (z ∷ front) x y back h k = (h.0, All-replaced front x y back h.1 k)

-- A block whose checksum is not the one of the bytes before it is refused.
pub deserialize_block-mismatch :
    {B : Type 0} (steps : Step B) (crc_of : B → ℕ) (b c : B) (body tail : List ℕ)
    → Reads steps b (body ++ tail) c
    → length tail ≡ 4
    → length (body ++ tail) ≡ k_block_size
    → crc32 body (length body) ≢ crc_of c
    → (deserialize_block steps crc_of b (body ++ tail)).0 ≡ datanode_storage_block_crc_mismatch
unfolding deserialize_block
deserialize_block-mismatch steps crc_of b c body tail r t n ne = rw (
  eq→== (length (body ++ tail)) k_block_size n,
  whole,
  checked_length,
  crc32-append body tail,
  ne→== (crc32 body (length body)) (crc_of c) ne,
)
  where
    whole : steps b (body ++ tail) ≡ go c []
    whole = ap (steps b) (sym (append-nil (body ++ tail))) ∙ r.reads []

    checked_length : length (body ++ tail) - 0 - 4 ≡ length body
    checked_length = omega (arith, length-append body tail)

-- Two bodies that differ in one byte have different checksums.
differ :
    (front : List ℕ) (x y : ℕ) (back pieces : List ℕ)
    → All IsByte (front ++ (x ∷ back))
    → All IsByte (front ++ (y ∷ back))
    → All IsByte pieces
    → x ≢ y
    → crc32 ((front ++ (x ∷ back)) ++ pieces) (length ((front ++ (x ∷ back)) ++ pieces))
      ≢ crc32 ((front ++ (y ∷ back)) ++ pieces) (length ((front ++ (y ∷ back)) ++ pieces))
differ front x y back pieces bx by bp ne =
    rw (append_assoc front (x ∷ back) pieces, append_assoc front (y ∷ back) pieces)
      (crc32_single_byte front x y (back ++ pieces)
        (subst (All IsByte) (append_assoc front (x ∷ back) pieces) (All-append IsByte _ _ bx bp))
        (subst (All IsByte) (append_assoc front (y ∷ back) pieces) (All-append IsByte _ _ by bp))
        ne)

module _ {B : Type 0} (host : Host) (get : B → BlockFooter) (put : BlockFooter → B → B)
    (lens : IsField get put) where
  -- `c` is what the reader's first steps make of the changed data.
  pub write_footer-corrupted :
      (steps : Step B) (b b0 c : B) (front : List ℕ) (x y : ℕ) (back : List ℕ)
      → Reads steps b0 (front ++ (y ∷ back)) c
      → length (front ++ (x ∷ back)) ≡ k_block_data_size
      → All IsByte (front ++ (x ∷ back))
      → All IsByte (front ++ (y ∷ back))
      → x ≢ y
      → FooterFits (get b)
      → (written : B) × (rest : List ℕ) × (write_footer host get put (front ++ (x ∷ back)) b
          ≡ some (written, (front ++ (x ∷ back)) ++ rest))
        × ((deserialize_block
              (with_footer host get put lens steps)
              (λ z. (get z).crc)
              b0
              ((front ++ (y ∷ back)) ++ rest)).0
            ≡ datanode_storage_block_crc_mismatch)
  unfolding write_footer
  write_footer-corrupted steps b b0 c front x y back r size bx by ne fits =
      let good : List ℕ = front ++ (x ∷ back) in
      let bad : List ℕ = front ++ (y ∷ back) in
      let pieces : List ℕ = concat (footer_pieces host (stamped (get b))) in
      let sum : ℕ = checksum host good (get b) size bx fits in
      let tail : List ℕ = int_bytes host 4 sum in
      let small : sum < 256 ^ 4 = checksum-lt host good (get b) size bx fits in
      let f : BlockFooter = record (get b) { magic = k_block_magic; crc = sum } in
      let piece_bytes =
        footer_pieces-IsByte host (stamped (get b)) (stamped-FooterFits (get b) fits) refl in
      let other : crc32 (good ++ pieces) (length (good ++ pieces))
          ≢ crc32 (bad ++ pieces) (length (bad ++ pieces)) =
        differ front x y back pieces bx by piece_bytes ne in
      let whole : length ((bad ++ pieces) ++ tail) ≡ k_block_size =
        omega (arith, length-sealed host good (get b) size bx fits, length-append {0}) in
      (
        put f b,
        pieces ++ tail,
        assert_block_size-some _ _ _ (length-sealed host good (get b) size bx fits)
            ∙ ap (λ (l : List ℕ). some (put f b, l)) (append_assoc good pieces tail),
        ap
              (λ (l : List ℕ).
                (deserialize_block (with_footer host get put lens steps) (λ z. (get z).crc) b0 l).0)
              (sym (append_assoc bad pieces tail))
            ∙ deserialize_block-mismatch (with_footer host get put lens steps) (λ z. (get z).crc) b0
                (put f c) (bad ++ pieces) tail
                (footer-Reads host get put lens steps b0 c bad (get b) sum r fits small)
                (length-int_bytes host 4 sum small) whole
                (λ e. other (sym (e ∙ ap (λ (g : BlockFooter). g.crc) (lens.get_put f c)))),
      )
