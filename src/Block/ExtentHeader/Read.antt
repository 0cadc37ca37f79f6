-- ===== src/Block/ExtentHeader/Read.antt =====
-- `ExtentHeaderBlock::Deserialize` reads one byte less than `Serialize` wrote, the one of
-- `code_shard_cnt_`, so that it looks for the footer one byte too early.
use mathlib.Core.Path.{subst}
use mathlib.Core.List.{append_assoc}
use pancake_store.Base.{
  ℕ, zero, suc, ◌<◌, ◌≡◌, ◌≢◌, refl, sym, ap, ◌∙◌, List, [], ◌∷◌, ◌++◌, length, drop, All, IsByte,
  some, arith, length-append, All-append_right, drop-append, eq→==, ne→==, ◌==◌,
}
use pancake_store.Comm.ErrorCode.{datanode_storage_block_magic_illegal}
use pancake_store.Block.Host.{Host}
use pancake_store.Block.Bytes.{k_block_size, k_block_magic, concat, of_be, be_bytes}
use pancake_store.Block.Step.{
  Step, go, stop, ◌>>◌, read_data, read_byte, read_int, expect, int_bytes, deserialize_block,
}
use pancake_store.Block.Step.Reads.{
  read_int-Reads, read_data-Reads, length-int_bytes, ntoh-of_be, int_bytes-be,
}
use pancake_store.Block.Step.Skips.{
  Skips, read_data-Skips, read_byte-Skips, read_int-Skips, >>-Skips,
}
use pancake_store.Block.Footer.{footer_pieces, read_footer}
use pancake_store.Block.ExtentHeader.{
  ExtentHeaderBlock, HeaderFits, header_pieces, header_steps, serialize, deserialize,
}
use pancake_store.Block.ExtentHeader.Write.{
  payload, length-payload, payload-IsByte, header_bytes, header_checksum, length-header_bytes,
  serialize-header_bytes,
}

-- The first four bytes that are read as the footer's magic number: one of the reserved area, and
-- the first three of the real one.
off_by_one : (r : ℕ) → r < 256 → of_be (r ∷ 0x20 ∷ 0x25 ∷ 0x04 ∷ []) ≢ k_block_magic
unfolding of_be
off_by_one r h e = absurd (omega arith)

module _ (host : Host) where
  magic_bytes : int_bytes host 4 k_block_magic ≡ 0x20 ∷ 0x25 ∷ 0x04 ∷ 0x30 ∷ []
  unfolding be_bytes
  magic_bytes = int_bytes-be host 4 k_block_magic (omega arith)

  after_magic : Step ExtentHeaderBlock
  after_magic = do
    read_byte (λ v b. record b { version = v })
    read_byte (λ v b. record b { shard_id = v })
    read_byte (λ v b. record b { data_shard_cnt = v })
    read_int host 8 (λ v b. record b { device_id = v })
    read_int host 8 (λ v b. record b { extent_id = v })
    read_int host 4 (λ v b. record b { extent_capacity = v })
    read_int host 4 (λ v b. record b { extent_phy_used = v })
    read_int host 4 (λ v b. record b { extent_logic_used = v })
    read_byte (λ v b. record b { redundant_type = v })
    read_byte (λ v b. record b { sealed = v })
    read_byte (λ v b. record b { is_migrating = v })
    read_byte (λ v b. record b { corrupted = v })
    read_int host 4 (λ v b. record b { bitmap_ext_index = v })
    read_data 4020 (λ bytes b. record b { reserved = bytes })

  after_magic-Skips : Skips after_magic 4059
  unfolding after_magic
  after_magic-Skips = >>-Skips 4059 refl (read_byte-Skips _) (
      >>-Skips 4058 refl (read_byte-Skips _) (
        >>-Skips 4057 refl (read_byte-Skips _) (
          >>-Skips 4056 refl (read_int-Skips host 8 _) (
            >>-Skips 4048 refl (read_int-Skips host 8 _) (
              >>-Skips 4040 refl (read_int-Skips host 4 _) (
                >>-Skips 4036 refl (read_int-Skips host 4 _) (
                  >>-Skips 4032 refl (read_int-Skips host 4 _) (
                    >>-Skips 4028 refl (read_byte-Skips _) (
                      >>-Skips 4027 refl (read_byte-Skips _) (
                        >>-Skips 4026 refl (read_byte-Skips _) (
                          >>-Skips 4025 refl (read_byte-Skips _) (
                            >>-Skips 4024 refl (read_int-Skips host 4 _)
                              (read_data-Skips 4020 _)))))))))))))

  header_steps-eq : header_steps host ≡ (
      read_int host 4 (λ v b. record b { magic = v })
      >> (expect (λ b. b.magic == k_block_magic) datanode_storage_block_magic_illegal
          >> after_magic))
  unfolding header_steps after_magic
  header_steps-eq = refl

  header_steps_pass :
      (b0 : ExtentHeaderBlock) (mid more : List ℕ)
      → length mid ≡ 4059
      → (c : ExtentHeaderBlock) × (header_steps host b0
            (int_bytes host 4 k_block_magic ++ (mid ++ more))
          ≡ go c more)
  unfolding expect
  header_steps_pass b0 mid more h =
      let b1 : ExtentHeaderBlock = record b0 { magic = k_block_magic } in
      (
        after_magic-Skips.after b1 (mid ++ more),
        ap (λ m. m b0 (int_bytes host 4 k_block_magic ++ (mid ++ more))) header_steps-eq
            ∙ rw
                (
                  (read_int-Reads host 4 (λ v b. record b { magic = v }) b0 k_block_magic
                        (omega arith)).reads
                      (mid ++ more),
                  ◌>>◌,
                )
                (after_magic-Skips.skips b1 (mid ++ more) (omega (arith, length-append mid more))
                  ∙ ap (go (after_magic-Skips.after b1 (mid ++ more)))
                      (drop-append 4059 mid more h)),
      )

  footer_stop :
      (c : ExtentHeaderBlock) (r : ℕ) (more : List ℕ)
      → r < 256
      → (d : ExtentHeaderBlock) × (read_footer host
            (λ x. x.footer)
            (λ f x. record x { footer = f })
            c
            (r ∷ 0x20 ∷ 0x25 ∷ 0x04 ∷ more)
          ≡ stop datanode_storage_block_magic_illegal d)
  unfolding read_footer read_int expect
  footer_stop c r more h =
      let seen : List ℕ = r ∷ 0x20 ∷ 0x25 ∷ 0x04 ∷ [] in
      let v : ℕ = host.ntoh 4 (host.object_value seen) in
      let wrong : v ≢ k_block_magic =
        λ e. off_by_one r h (sym (ntoh-of_be host 4 seen refl (omega arith)) ∙ e) in
      (
        record c { footer = record c.footer { magic = v } },
        rw
            (
              (read_data-Reads 4
                    (λ bytes b. record b {
                      footer = record b.footer { magic = host.ntoh 4 (host.object_value bytes) };
                    })
                    c seen refl).reads
                  more,
              ◌>>◌,
            )
            (rw (ne→== v k_block_magic wrong, ◌>>◌)),
      )

  -- Where the reads stop, so does `Deserialize`.
  misread :
      (b0 : ExtentHeaderBlock) (mid more : List ℕ) (r : ℕ)
      → length mid ≡ 4059
      → r < 256
      → length (int_bytes host 4 k_block_magic ++ (mid ++ (r ∷ 0x20 ∷ 0x25 ∷ 0x04 ∷ more)))
        ≡ k_block_size
      → (deserialize host b0
          (int_bytes host 4 k_block_magic ++ (mid ++ (r ∷ 0x20 ∷ 0x25 ∷ 0x04 ∷ more)))).0
        ≡ datanode_storage_block_magic_illegal
  unfolding deserialize deserialize_block
  misread b0 mid more r h small n =
      let (c, passed) = header_steps_pass b0 mid (r ∷ 0x20 ∷ 0x25 ∷ 0x04 ∷ more) h in
      let (d, stopped) = footer_stop c r more small in
      rw (eq→== _ k_block_size n, passed, ◌>>◌) (rw (stopped, ◌>>◌))

regroup :
    (m mid four f c : List ℕ) (r : ℕ) {p t whole : List ℕ}
    → p ≡ m ++ t
    → t ≡ mid ++ (r ∷ [])
    → whole ≡ four ++ f
    → (p ++ whole) ++ c ≡ m ++ (mid ++ (r ∷ (four ++ (f ++ c))))
regroup m mid four f c r e g h = rw (e, g, h) (simp append_assoc)

-- The last element of a list that has one.
split_last :
    (n : ℕ) (xs : List ℕ)
    → length xs ≡ suc n
    → All IsByte xs
    → (ys : List ℕ) × (r : ℕ) × (xs ≡ ys ++ (r ∷ [])) × (length ys ≡ n) × (r < 256)
split_last n [] e h = absurd (omega arith)
split_last zero (x ∷ []) e h = ([], x, refl, refl, h.0)
split_last zero (x ∷ y ∷ xs) e h = absurd (omega arith)
split_last (suc n) (x ∷ xs) e h =
    let (ys, r, eq, len, small) = split_last n xs (omega arith) h.1 in
    (x ∷ ys, r, ap (◌∷◌ x) eq, ap suc len, small)

module _ (host : Host) (b : ExtentHeaderBlock) (fits : HeaderFits b) where
  abbrev after_magic_bytes : List ℕ
  after_magic_bytes = concat (drop 1 (header_pieces host (record b { magic = k_block_magic })))

  abbrev footer_rest : List ℕ
  footer_rest = concat (drop 1 (footer_pieces host (record b.footer { magic = k_block_magic })))

  footer-split :
      concat (footer_pieces host (record b.footer { magic = k_block_magic }))
      ≡ int_bytes host 4 k_block_magic ++ footer_rest
  unfolding footer_pieces
  footer-split = refl

  abbrev after_footer_magic : List ℕ
  after_footer_magic = footer_rest ++ int_bytes host 4 (header_checksum host b fits)

  payload-split : payload host b fits ≡ int_bytes host 4 k_block_magic ++ after_magic_bytes
  unfolding header_pieces
  payload-split = refl

  header_bytes-split :
      (mid : List ℕ) (r : ℕ)
      → after_magic_bytes ≡ mid ++ (r ∷ [])
      → header_bytes host b fits
        ≡ int_bytes host 4 k_block_magic
          ++ (mid ++ (r ∷ 0x20 ∷ 0x25 ∷ 0x04 ∷ 0x30 ∷ after_footer_magic))
  header_bytes-split mid r e =
      regroup (int_bytes host 4 k_block_magic) mid (0x20 ∷ 0x25 ∷ 0x04 ∷ 0x30 ∷ []) footer_rest
        (int_bytes host 4 (header_checksum host b fits)) r payload-split e
        (footer-split ∙ ap (λ m. m ++ footer_rest) (magic_bytes host))

  header_bytes_refused :
      (b0 : ExtentHeaderBlock)
      → (deserialize host b0 (header_bytes host b fits)).0 ≡ datanode_storage_block_magic_illegal
  header_bytes_refused b0 =
      let bytes : All IsByte after_magic_bytes =
        All-append_right IsByte (int_bytes host 4 k_block_magic) after_magic_bytes
          (subst (All IsByte) payload-split (payload-IsByte host b fits)) in
      let size : length after_magic_bytes ≡ 4060 = omega (
        arith,
        length-append (int_bytes host 4 k_block_magic) after_magic_bytes,
        ap length payload-split,
        length-payload host b fits,
        length-int_bytes host 4 k_block_magic (omega arith),
      ) in
      let (mid, r, e, len, small) = split_last 4059 after_magic_bytes size bytes in
      let shape = header_bytes-split mid r e in
      ap (λ bs. (deserialize host b0 bs).0) shape
      ∙ misread host b0 mid (0x30 ∷ after_footer_magic) r len small
          (ap length (sym shape) ∙ length-header_bytes host b fits)

  -- An extent header whose fields are in the ranges of their types is serialized, and whatever
  -- block the bytes are then read into, they are refused: `Deserialize` reads no
  -- `code_shard_cnt_`, so that it comes to the footer's magic number a byte too early.
  pub deserialize-serialize_header :
      (b0 : ExtentHeaderBlock)
      → (x : ExtentHeaderBlock × List ℕ) × (serialize host b ≡ some x)
        × ((deserialize host b0 x.1).0 ≡ datanode_storage_block_magic_illegal)
  deserialize-serialize_header b0 = (_, serialize-header_bytes host b fits, header_bytes_refused b0)
