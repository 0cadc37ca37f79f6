-- ===== src/Block/Footer/Reads.antt =====
-- A footer is read back as it was appended.
use pancake_store.Base.{
  ℕ, ◌^◌, ◌<◌, ◌≡◌, List, length, arith, length-append, All, IsByte, All-append,
}
use pancake_store.Block.Host.{Host}
use pancake_store.Block.Bytes.{k_block_magic, concat}
use pancake_store.Block.Step.{Step, int_bytes}
use pancake_store.Block.Step.Reads.{
  Reads, >>-Reads, Reads-last, read_data-Reads, read_byte-Reads, read_int-Reads, expect-Reads,
  length-int_bytes, int_bytes-IsByte,
}
use pancake_store.Block.Footer.{
  BlockFooter, FooterFits, footer_pieces, read_footer, read_footer_crc,
}

pub length-footer_pieces :
    (host : Host) (f : BlockFooter)
    → FooterFits f
    → f.magic ≡ k_block_magic
    → length (concat (footer_pieces host f)) ≡ 28
unfolding footer_pieces
length-footer_pieces host f fits m = omega (
  arith,
  length-append {0},
  length-int_bytes host 4 f.magic (omega arith),
  length-int_bytes host 2 f.data_length fits.length_fits,
  length-int_bytes host 8 f.extent_id fits.extent_id_fits,
)

pub footer_pieces-IsByte :
    (host : Host) (f : BlockFooter)
    → FooterFits f
    → f.magic ≡ k_block_magic
    → All IsByte (concat (footer_pieces host f))
unfolding footer_pieces
footer_pieces-IsByte host f fits m =
    All-append IsByte _ _ (int_bytes-IsByte host 4 f.magic (omega arith)) (
      fits.version_fits,
      (
        fits.flag_fits,
        All-append IsByte _ _ (int_bytes-IsByte host 2 f.data_length fits.length_fits) (
            All-append IsByte _ _ (int_bytes-IsByte host 8 f.extent_id fits.extent_id_fits)
              (All-append IsByte _ _ fits.reserved_bytes tt)),
      ),
    )

-- The footer can be set in its block and read from it.
pub record IsField {B : Type 0} (get : B → BlockFooter) (put : BlockFooter → B → B) : Type 0 where
  pub get_put : (f : BlockFooter) (b : B) → get (put f b) ≡ f
  pub put_put : (f g : BlockFooter) (b : B) → put f (put g b) ≡ put f b
  pub put_get : (b : B) → put (get b) b ≡ b

module _ {B : Type 0} (host : Host) (get : B → BlockFooter) (put : BlockFooter → B → B)
    (lens : IsField get put) where
  update :
      (change : BlockFooter → BlockFooter) (f : BlockFooter) (b : B)
      → put (change (get (put f b))) (put f b) ≡ put (change f) b
  update change f b = rw (lens.put_put, lens.get_put)

  update-Reads :
      (m : Step B) (change : BlockFooter → BlockFooter) (f : BlockFooter) (b : B) (bytes : List ℕ)
      → Reads m (put f b) bytes (put (change (get (put f b))) (put f b))
      → Reads m (put f b) bytes (put (change f) b)
  update-Reads m change f b bytes r = rw (update change f b) at r

  pub read_footer-Reads :
      (b : B) (f : BlockFooter)
      → FooterFits f
      → f.magic ≡ k_block_magic
      → Reads
          (read_footer host get put)
          b
          (concat (footer_pieces host f))
          (put (record f { crc = (get b).crc }) b)
  unfolding read_footer footer_pieces
  read_footer-Reads b f fits m =
      let f1 : BlockFooter = record (get b) { magic = f.magic } in
      let f2 : BlockFooter = record f1 { version = f.version } in
      let f3 : BlockFooter = record f2 { flag = f.flag } in
      let f4 : BlockFooter = record f3 { data_length = f.data_length } in
      let f5 : BlockFooter = record f4 { extent_id = f.extent_id } in
      >>-Reads (read_int-Reads host 4 _ b f.magic (omega arith)) (
        >>-Reads (expect-Reads _ _ (put f1 b) (rw (lens.get_put, m))) (
          >>-Reads
            (update-Reads _ (λ g. record g { version = f.version }) f1 b _
              (read_byte-Reads _ (put f1 b) f.version))
            (>>-Reads
              (update-Reads _ (λ g. record g { flag = f.flag }) f2 b _
                (read_byte-Reads _ (put f2 b) f.flag))
              (>>-Reads
                (update-Reads _ (λ g. record g { data_length = f.data_length }) f3 b _
                  (read_int-Reads host 2 _ (put f3 b) f.data_length fits.length_fits))
                (>>-Reads
                  (update-Reads _ (λ g. record g { extent_id = f.extent_id }) f4 b _
                    (read_int-Reads host 8 _ (put f4 b) f.extent_id fits.extent_id_fits))
                  (Reads-last (
                    update-Reads _ (λ g. record g { reserved = f.reserved }) f5 b _
                      (read_data-Reads 12 _ (put f5 b) f.reserved fits.reserved_size))))))))

  pub read_footer_crc-Reads :
      (b : B) (f : BlockFooter) (v : ℕ)
      → v < 256 ^ 4
      → Reads
          (read_footer_crc host get put)
          (put f b)
          (int_bytes host 4 v)
          (put (record f { crc = v }) b)
  unfolding read_footer_crc
  read_footer_crc-Reads b f v h =
      update-Reads _ (λ g. record g { crc = v }) f b _ (read_int-Reads host 4 _ (put f b) v h)
