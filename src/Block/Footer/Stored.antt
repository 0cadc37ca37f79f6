-- ===== src/Block/Footer/Stored.antt =====
-- A block whose data are followed by a footer is read back from the bytes it was written as.
use pancake_store.Base.{
  ℕ, ◌^◌, ◌<◌, ◌≡◌, refl, sym, ap, ◌∙◌, List, [], ◌++◌, length, arith, length-append, All, IsByte,
  All-append,
}
use mathlib.Core.Path.{subst}
use mathlib.Core.List.{append-nil, append_assoc}
use pancake_store.Comm.Crc.{crc32}
use pancake_store.Comm.Crc.Detection.{crc32-lt}
use pancake_store.Block.Host.{Host}
use pancake_store.Block.Bytes.{k_block_size, k_block_data_size, k_block_magic, concat}
use pancake_store.Block.Step.{Step, ◌>>◌, int_bytes, deserialize_block}
use pancake_store.Block.Step.Reads.{
  Reads, >>-Reads, deserialize_block-Reads, IsStored, length-int_bytes, assert_block_size-some,
}
use pancake_store.Block.Footer.{
  BlockFooter, FooterFits, footer_pieces, read_footer, read_footer_crc, write_footer,
}
use pancake_store.Block.Footer.Reads.{
  IsField, read_footer-Reads, read_footer_crc-Reads, length-footer_pieces, footer_pieces-IsByte,
}

abbrev pub stamped : BlockFooter → BlockFooter
stamped f = record f { magic = k_block_magic }

pub stamped-FooterFits : (f : BlockFooter) → FooterFits f → FooterFits (stamped f)
stamped-FooterFits f h = record {
  version_fits = h.version_fits;
  flag_fits = h.flag_fits;
  length_fits = h.length_fits;
  extent_id_fits = h.extent_id_fits;
  reserved_size = h.reserved_size;
  reserved_bytes = h.reserved_bytes;
}

module _ (host : Host) (payload : List ℕ) (f : BlockFooter)
    (size : length payload ≡ k_block_data_size) (bytes : All IsByte payload)
    (fits : FooterFits f) where
  abbrev pub sealed_body : List ℕ
  sealed_body = payload ++ concat (footer_pieces host (stamped f))

  abbrev pub checksum : ℕ
  checksum = crc32 sealed_body (length sealed_body)

  pub length-sealed_body : length sealed_body ≡ 4092
  length-sealed_body = omega (
    arith,
    length-append payload (concat (footer_pieces host (stamped f))),
    size,
    length-footer_pieces host (stamped f) (stamped-FooterFits f fits) refl,
  )

  pub checksum-lt : checksum < 256 ^ 4
  checksum-lt = crc32-lt sealed_body (
      All-append IsByte payload _ bytes
        (footer_pieces-IsByte host (stamped f) (stamped-FooterFits f fits) refl))

  pub length-sealed : length (sealed_body ++ int_bytes host 4 checksum) ≡ k_block_size
  length-sealed = omega (
    arith,
    length-append sealed_body (int_bytes host 4 checksum),
    length-sealed_body,
    length-int_bytes host 4 checksum checksum-lt,
  )

module _ {B : Type 0} (host : Host) (get : B → BlockFooter) (put : BlockFooter → B → B)
    (lens : IsField get put) where
  abbrev pub with_footer : Step B → Step B
  with_footer steps = steps >> (read_footer host get put >> read_footer_crc host get put)

  pub footer-Reads :
      (steps : Step B) (b0 c : B) (payload : List ℕ) (f : BlockFooter) (sum : ℕ)
      → Reads steps b0 payload c
      → FooterFits f
      → sum < 256 ^ 4
      → Reads
          (with_footer steps)
          b0
          ((payload ++ concat (footer_pieces host (stamped f))) ++ int_bytes host 4 sum)
          (put (record f { magic = k_block_magic; crc = sum }) c)
  footer-Reads steps b0 c payload f sum r fits h = rw append_assoc (
      >>-Reads r (
        >>-Reads
          (read_footer-Reads host get put lens c (stamped f) (stamped-FooterFits f fits) refl)
          (read_footer_crc-Reads host get put lens c (record (stamped f) { crc = (get c).crc }) sum
            h)))

  -- `b` is written; `b0` is what the reader held before, and `c` what its first steps make of it.
  pub write_footer-IsStored :
      (steps : Step B) (b b0 c : B) (payload : List ℕ)
      → Reads steps b0 payload c
      → ((f : BlockFooter) → put f c ≡ put f b)
      → length payload ≡ k_block_data_size
      → All IsByte payload
      → FooterFits (get b)
      → (crc : ℕ) × IsStored
          (put (record (get b) { magic = k_block_magic; crc = crc }) b)
          (write_footer host get put payload b)
          (deserialize_block (with_footer steps) (λ x. (get x).crc) b0)
  unfolding write_footer
  write_footer-IsStored steps b b0 c payload r same size data_bytes fits =
      let sum : ℕ = checksum host payload (get b) size data_bytes fits in
      let body : List ℕ = sealed_body host payload (get b) size data_bytes fits in
      let tail : List ℕ = int_bytes host 4 sum in
      let small : sum < 256 ^ 4 = checksum-lt host payload (get b) size data_bytes fits in
      let whole : length (body ++ tail) ≡ k_block_size =
        length-sealed host payload (get b) size data_bytes fits in
      let f : BlockFooter = record (get b) { magic = k_block_magic; crc = sum } in
      (
        sum,
        record {
          bytes = body ++ tail;
          written = assert_block_size-some _ _ _ whole;
          size = whole;
          loaded =
              ap (deserialize_block (with_footer steps) (λ x. (get x).crc) b0)
                (sym (append-nil (body ++ tail)))
              ∙ deserialize_block-Reads (with_footer steps) (λ x. (get x).crc) b0 (put f b) body
                  tail []
                  (subst (λ x. Reads (with_footer steps) b0 (body ++ tail) x) (same f)
                    (footer-Reads steps b0 c payload (get b) sum r fits small))
                  (length-int_bytes host 4 sum small)
                  (ap length (append-nil (body ++ tail)) ∙ whole) (rw lens.get_put);
        },
      )
