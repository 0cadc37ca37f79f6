-- ===== src/Block/Footer/Checked.antt =====
-- What a reader makes of the parts of a block: of the magic number, then of the checksum.
use pancake_store.Base.{
  ℕ, ◌^◌, ◌<◌, ◌≡◌, ◌≢◌, refl, sym, ap, ap₂, ◌∙◌, Option, some, List, [], ◌++◌, length, take, drop,
  eq→==, ne→==, arith, length-append, take-append, drop-append,
}
use mathlib.Core.Path.{subst}
use mathlib.Core.List.{append-nil, append_assoc}
use pancake_store.Comm.ErrorCode.{
  ErrorCode, pancake_store_ok, datanode_storage_block_magic_illegal,
  datanode_storage_block_crc_mismatch,
}
use pancake_store.Comm.Crc.{crc32}
use pancake_store.Comm.Crc.Prefix.{crc32-append}
use pancake_store.Block.Host.{Host}
use pancake_store.Block.Bytes.{
  k_block_size, k_block_data_size, k_block_magic, concat, of_be, of_be-be_bytes,
}
use pancake_store.Block.Step.{Step, ◌>>◌, expect, int_bytes, deserialize_block, assert_block_size}
use pancake_store.Block.Step.Reads.{
  Reads, deserialize_block-Reads, length-int_bytes, int_bytes-be, read_int-Reads,
  assert_block_size-some,
}
use pancake_store.Block.Footer.{BlockFooter, footer_pieces, read_footer, write_footer}
use pancake_store.Block.Footer.Reads.{IsField}
use pancake_store.Block.Footer.Stored.{with_footer, footer-Reads}
use pancake_store.Block.Footer.Corrupted.{deserialize_block-mismatch}
use pancake_store.Block.Footer.Parts.{Parts, block_bytes}

-- What the bytes say at the place of the magic number, and of the checksum.
abbrev pub stored_magic : List ℕ → ℕ
stored_magic bytes = of_be (take 4 (drop k_block_data_size bytes))

abbrev pub stored_crc : List ℕ → ℕ
stored_crc bytes = of_be (drop 4092 bytes)

pub int_at : (host : Host) (w v : ℕ) → v < 256 ^ w → of_be (int_bytes host w v) ≡ v
int_at host w v h = ap of_be (int_bytes-be host w v h) ∙ of_be-be_bytes w v h

-- What stands where in the bytes of a block.
module _ (host : Host) {bytes : List ℕ} (x : Parts host bytes) where
  abbrev f : BlockFooter
  f = x.footer

  abbrev pub body : List ℕ
  body = x.payload ++ concat (footer_pieces host f)

  abbrev after_magic : List ℕ
  after_magic = concat (drop 1 (footer_pieces host f))

  length-body : length body ≡ 4092
  unfolding footer_pieces
  length-body = omega (
    arith,
    length-append {0},
    x.payload_size,
    length-int_bytes host 4 f.magic x.magic_fits,
    length-int_bytes host 2 f.data_length x.footer_fits.length_fits,
    length-int_bytes host 8 f.extent_id x.footer_fits.extent_id_fits,
    x.footer_fits.reserved_size,
  )

  whole : length (block_bytes host x.payload f) ≡ k_block_size
  whole = omega (
    arith,
    length-append body (int_bytes host 4 f.crc),
    length-body,
    length-int_bytes host 4 f.crc x.crc_fits,
  )

  magic_first :
      bytes ≡ x.payload ++ (int_bytes host 4 f.magic ++ (after_magic ++ int_bytes host 4 f.crc))
  unfolding footer_pieces
  magic_first =
      x.joined
      ∙ append_assoc x.payload _ _
      ∙ ap (◌++◌ x.payload) (append_assoc (int_bytes host 4 f.magic) after_magic _)

  pub magic_there : stored_magic bytes ≡ f.magic
  magic_there =
      ap stored_magic magic_first
      ∙ ap (λ l. of_be (take 4 l)) (drop-append k_block_data_size x.payload _ x.payload_size)
      ∙ ap of_be (
          take-append 4 (int_bytes host 4 f.magic) _ (length-int_bytes host 4 f.magic x.magic_fits))
      ∙ int_at host 4 f.magic x.magic_fits

  pub crc_there : stored_crc bytes ≡ f.crc
  crc_there =
      ap stored_crc x.joined
      ∙ ap of_be (drop-append 4092 body (int_bytes host 4 f.crc) length-body)
      ∙ int_at host 4 f.crc x.crc_fits

  pub crc_of_body : crc32 bytes 4092 ≡ crc32 body (length body)
  crc_of_body =
      ap (λ l. crc32 l 4092) x.joined
      ∙ ap (crc32 (body ++ int_bytes host 4 f.crc)) (sym length-body)
      ∙ crc32-append body (int_bytes host 4 f.crc)

module _ {B : Type 0} (host : Host) (get : B → BlockFooter) (put : BlockFooter → B → B)
    (lens : IsField get put) (steps : Step B) (b0 c : B) {bytes : List ℕ} (x : Parts host bytes)
    (r : Reads steps b0 x.payload c) where
  abbrev load : List ℕ → ErrorCode × B
  load = deserialize_block (with_footer host get put lens steps) (λ b. (get b).crc) b0

  -- A wrong magic number stops the reader.
  pub wrong_magic :
      x.footer.magic ≢ k_block_magic → (load bytes).0 ≡ datanode_storage_block_magic_illegal
  unfolding deserialize_block read_footer expect
  wrong_magic ne =
      let fits = x.magic_fits in
      rw
        (
          eq→== (length bytes) k_block_size (ap length x.joined ∙ whole host x),
          magic_first host x,
          r.reads _,
          ◌>>◌,
          (read_int-Reads host 4 (λ v b. put (record (get b) { magic = v }) b) c x.footer.magic
                fits).reads
              _,
          lens.get_put,
          ne→== x.footer.magic k_block_magic ne,
        )
        refl

  right :
      x.footer.magic ≡ k_block_magic
      → Reads
          (with_footer host get put lens steps)
          b0
          (body host x ++ int_bytes host 4 x.footer.crc)
          (put x.footer c)
  right m =
      let same : record x.footer { magic = k_block_magic } ≡ x.footer =
        ap (λ v. record x.footer { magic = v }) (sym m) in
      subst
        (λ (g : BlockFooter).
          Reads (with_footer host get put lens steps) b0
            ((x.payload ++ concat (footer_pieces host g)) ++ int_bytes host 4 x.footer.crc)
            (put g c))
        same
        (footer-Reads host get put lens steps b0 c x.payload x.footer x.footer.crc r x.footer_fits
          x.crc_fits)

  pub wrong_crc :
      x.footer.magic ≡ k_block_magic
      → crc32 (body host x) (length (body host x)) ≢ x.footer.crc
      → (load bytes).0 ≡ datanode_storage_block_crc_mismatch
  wrong_crc m ne =
      ap (λ l. (load l).0) x.joined
      ∙ deserialize_block-mismatch (with_footer host get put lens steps) (λ b. (get b).crc) b0
          (put x.footer c) (body host x) (int_bytes host 4 x.footer.crc) (right m)
          (length-int_bytes host 4 x.footer.crc x.crc_fits) (whole host x)
          (λ e. ne (e ∙ ap (λ (g : BlockFooter). g.crc) (lens.get_put x.footer c)))

  pub right_crc :
      x.footer.magic ≡ k_block_magic
      → crc32 (body host x) (length (body host x)) ≡ x.footer.crc
      → load bytes ≡ (pancake_store_ok, put x.footer c)
  right_crc m e =
      let tail = int_bytes host 4 x.footer.crc in
      ap load (x.joined ∙ sym (append-nil (body host x ++ tail)))
      ∙ deserialize_block-Reads (with_footer host get put lens steps) (λ b. (get b).crc) b0
          (put x.footer c) (body host x) tail [] (right m)
          (length-int_bytes host 4 x.footer.crc x.crc_fits)
          (ap length (append-nil (body host x ++ tail)) ∙ whole host x)
          (e ∙ ap (λ (g : BlockFooter). g.crc) (sym (lens.get_put x.footer c)))

  -- What `write_footer` makes of a footer with a magic number and a checksum.
  abbrev sealed : ℕ → BlockFooter → ℕ → Option (B × List ℕ)
  sealed magic f crc =
      assert_block_size host (put (record f { magic = magic; crc = crc }) (put x.footer c)) (
        (x.payload ++ concat (footer_pieces host (record f { magic = magic })))
        ++ int_bytes host 4 crc)

  abbrev sum : ℕ → BlockFooter → ℕ
  sum magic f =
      let bytes = x.payload ++ concat (footer_pieces host (record f { magic = magic })) in
      crc32 bytes (length bytes)

  -- Writing what was read gives the same bytes.
  pub written_again :
      x.footer.magic ≡ k_block_magic
      → crc32 (body host x) (length (body host x)) ≡ x.footer.crc
      → write_footer host get put x.payload (put x.footer c) ≡ some (put x.footer c, bytes)
  unfolding write_footer
  written_again m e =
      ap (λ f. sealed k_block_magic f (sum k_block_magic f)) (lens.get_put x.footer c)
      ∙ ap (λ v. sealed v x.footer (sum v x.footer)) (sym m)
      ∙ ap (sealed x.footer.magic x.footer) e
      ∙ assert_block_size-some _ _ _ (whole host x)
      ∙ ap₂ (λ b l. some (b, l)) (lens.put_put x.footer x.footer c) (sym x.joined)
