-- ===== src/Block/Super/Size.antt =====
-- When a super block fits a block of the device.
use pancake_store.Base.{
  ℕ, ◌+◌, ◌-◌, ◌%◌, ◌^◌, ◌≤◌, ◌<◌, ◌≡◌, List, ◌++◌, length, All, IsByte, arith, length-append,
  length-replicate, All-append, replicate, false, inl, inr, Bool-cases, sym, ap, ◌∙◌, ltb,
  if◌then◌else◌, le→ltb, ◌≢◌,
}
use mathlib.Core.List.{append-nil}
use pancake_store.Comm.Crc.{crc32}
use pancake_store.Comm.Crc.Detection.{crc32-lt}
use pancake_store.Block.Host.{Host}
use pancake_store.Block.Bytes.{k_block_size, k_block_magic, concat}
use pancake_store.Block.Step.{int_bytes}
use pancake_store.Block.Step.Reads.{length-int_bytes, int_bytes-IsByte}
use pancake_store.Block.Super.{SuperBlock, SuperFits, super_pieces}

abbrev pub names_length : SuperBlock → ℕ
names_length b = length b.device_uuid + length b.device_path

abbrev pub stamped : SuperBlock → SuperBlock
stamped b = record b { magic = k_block_magic }

length-named :
    (host : Host) (s : List ℕ) → length (int_bytes host 2 (length s % 2 ^ 16) ++ s) ≡ length s + 2
length-named host s = omega (
  arith,
  length-append (int_bytes host 2 (length s % 2 ^ 16)) s,
  length-int_bytes host 2 (length s % 2 ^ 16) (omega arith),
)

module _ (host : Host) (b : SuperBlock) (fits : SuperFits b) where
  abbrev pub body : List ℕ
  body = concat (super_pieces host (stamped b))

  pub length-body : length body ≡ 117 + names_length b
  unfolding super_pieces
  length-body = omega (
    arith,
    length-append {0},
    length-named host b.device_uuid,
    length-named host b.device_path,
    length-int_bytes host 4 k_block_magic (omega arith),
    length-int_bytes host 8 b.device_id fits.device_id_fits,
    length-int_bytes host 8 b.create_time fits.create_time_fits,
    length-int_bytes host 8 b.device_capacity fits.device_capacity_fits,
    length-int_bytes host 8 b.block_size fits.block_size_fits,
    length-int_bytes host 4 b.journal_block_count fits.journal_block_count_fits,
    length-int_bytes host 8 b.extent_block_size fits.extent_block_size_fits,
    length-int_bytes host 8 b.extent_block_count fits.extent_block_count_fits,
    length-int_bytes host 8 b.extent_block_bitmap_start fits.extent_block_bitmap_start_fits,
    length-int_bytes host 8 b.extent_block_bitmap_end fits.extent_block_bitmap_end_fits,
    length-int_bytes host 8 b.trash_extent_block_bitmap_start
        fits.trash_extent_block_bitmap_start_fits,
    length-int_bytes host 8 b.trash_extent_block_bitmap_end fits.trash_extent_block_bitmap_end_fits,
    length-int_bytes host 8 b.journal_blocks_start fits.journal_blocks_start_fits,
    length-int_bytes host 8 b.journal_blocks_end fits.journal_blocks_end_fits,
    length-int_bytes host 8 b.extent_blocks_start fits.extent_blocks_start_fits,
  )

  pub body-IsByte : All IsByte body
  unfolding super_pieces
  body-IsByte = All-append IsByte _ _ (int_bytes-IsByte host 4 k_block_magic (omega arith)) (
    fits.version_fits,
    All-append IsByte _ _ (int_bytes-IsByte host 8 b.device_id fits.device_id_fits) (
        All-append IsByte _ _
          (All-append IsByte _ _ (int_bytes-IsByte host 2 _ (omega arith)) fits.uuid_bytes)
          (All-append IsByte _ _
            (All-append IsByte _ _ (int_bytes-IsByte host 2 _ (omega arith)) fits.path_bytes)
            (All-append IsByte _ _ (int_bytes-IsByte host 8 b.create_time fits.create_time_fits) (
              All-append IsByte _ _
                (int_bytes-IsByte host 8 b.device_capacity fits.device_capacity_fits)
                (All-append IsByte _ _ (int_bytes-IsByte host 8 b.block_size fits.block_size_fits) (
                  All-append IsByte _ _
                    (int_bytes-IsByte host 4 b.journal_block_count fits.journal_block_count_fits)
                    (All-append IsByte _ _
                      (int_bytes-IsByte host 8 b.extent_block_size fits.extent_block_size_fits)
                      (All-append IsByte _ _
                        (int_bytes-IsByte host 8 b.extent_block_count fits.extent_block_count_fits)
                        (All-append IsByte _ _
                          (int_bytes-IsByte host 8 b.extent_block_bitmap_start
                            fits.extent_block_bitmap_start_fits)
                          (All-append IsByte _ _
                            (int_bytes-IsByte host 8 b.extent_block_bitmap_end
                              fits.extent_block_bitmap_end_fits)
                            (All-append IsByte _ _
                              (int_bytes-IsByte host 8 b.trash_extent_block_bitmap_start
                                fits.trash_extent_block_bitmap_start_fits)
                              (All-append IsByte _ _
                                (int_bytes-IsByte host 8 b.trash_extent_block_bitmap_end
                                  fits.trash_extent_block_bitmap_end_fits)
                                (All-append IsByte _ _
                                  (int_bytes-IsByte host 8 b.journal_blocks_start
                                    fits.journal_blocks_start_fits)
                                  (All-append IsByte _ _
                                    (int_bytes-IsByte host 8 b.journal_blocks_end
                                      fits.journal_blocks_end_fits)
                                    (All-append IsByte _ _
                                      (int_bytes-IsByte host 8 b.extent_blocks_start
                                        fits.extent_blocks_start_fits)
                                      tt))))))))))))))),
  )

  abbrev pub checksum : ℕ
  checksum = crc32 body (length body)

  pub checksum-lt : checksum < 256 ^ 4
  checksum-lt = crc32-lt body body-IsByte

  abbrev pub result : List ℕ
  result = body ++ int_bytes host 4 checksum

  pub length-result : length result ≡ 121 + names_length b
  length-result = omega (
    arith,
    length-append body (int_bytes host 4 checksum),
    length-body,
    length-int_bytes host 4 checksum checksum-lt,
  )

  abbrev pub padding : List ℕ
  padding = replicate (k_block_size - length result) 0

  length-padded : names_length b ≤ 3975 → length (result ++ padding) ≡ k_block_size
  length-padded h = omega (
    arith,
    length-append result padding,
    length-replicate {A = ℕ} (k_block_size - length result) 0,
    length-result,
  )

  -- What `Serialize` hands to its assertion.
  abbrev pub written : List ℕ
  written = if ltb (length result) k_block_size then result ++ padding else result

  pub written-eq : names_length b ≤ 3975 → written ≡ result ++ padding
  written-eq h = elim (Bool-cases (ltb (length result) k_block_size)) [
    | inl short ↦ rw short
    | inr full ↦
        rw full (sym (ap (λ n. result ++ replicate n 0) (ltb_full full) ∙ append-nil result))
  ]
    where
      ltb_full : ltb (length result) k_block_size ≡ false → k_block_size - length result ≡ 0
      ltb_full full = ground arith

  pub length-written : names_length b ≤ 3975 → length written ≡ k_block_size
  length-written h = ap length (written-eq h) ∙ length-padded h

  pub length-written_long : 3975 < names_length b → length written ≢ k_block_size
  length-written_long h e = absurd (
      omega (
        arith,
        length-result,
        rw (le→ltb (length result) k_block_size (omega (arith, length-result))) at e,
      ))
