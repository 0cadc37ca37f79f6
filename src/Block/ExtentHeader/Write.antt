-- ===== src/Block/ExtentHeader/Write.antt =====
-- An extent header is written as one block.
use pancake_store.Base.{
  ℕ, ◌≡◌, List, ◌++◌, length, All, IsByte, some, arith, length-append, All-append,
}
use pancake_store.Block.Host.{Host}
use pancake_store.Block.Bytes.{k_block_size, k_block_magic, concat}
use pancake_store.Block.Step.{int_bytes}
use pancake_store.Block.Step.Reads.{length-int_bytes, int_bytes-IsByte, assert_block_size-some}
use pancake_store.Block.Footer.{write_footer}
use pancake_store.Block.Footer.Stored.{sealed_body, checksum, length-sealed}
use pancake_store.Block.ExtentHeader.{ExtentHeaderBlock, HeaderFits, header_pieces, serialize}

module _ (host : Host) (b : ExtentHeaderBlock) (fits : HeaderFits b) where
  abbrev pub payload : List ℕ
  payload = concat (header_pieces host (record b { magic = k_block_magic }))

  pub length-payload : length payload ≡ 4064
  unfolding header_pieces
  length-payload = omega (
    arith,
    length-append {0},
    fits.reserved_size,
    length-int_bytes host 4 k_block_magic (omega arith),
    length-int_bytes host 4 b.bitmap_ext_index fits.bitmap_ext_index_fits,
    length-int_bytes host 8 b.device_id fits.device_id_fits,
    length-int_bytes host 8 b.extent_id fits.extent_id_fits,
    length-int_bytes host 4 b.extent_capacity fits.extent_capacity_fits,
    length-int_bytes host 4 b.extent_phy_used fits.extent_phy_used_fits,
    length-int_bytes host 4 b.extent_logic_used fits.extent_logic_used_fits,
  )

  pub payload-IsByte : All IsByte payload
  unfolding header_pieces
  payload-IsByte = All-append IsByte _ _ (int_bytes-IsByte host 4 k_block_magic (omega arith)) (
    fits.version_fits,
    (
      fits.shard_id_fits,
      (
        fits.data_shard_cnt_fits,
        (
          fits.code_shard_cnt_fits,
          (All-append IsByte _ _ (int_bytes-IsByte host 8 b.device_id fits.device_id_fits) (
              All-append IsByte _ _ (int_bytes-IsByte host 8 b.extent_id fits.extent_id_fits) (
                All-append IsByte _ _
                  (int_bytes-IsByte host 4 b.extent_capacity fits.extent_capacity_fits)
                  (All-append IsByte _ _
                    (int_bytes-IsByte host 4 b.extent_phy_used fits.extent_phy_used_fits)
                    (All-append IsByte _ _
                      (int_bytes-IsByte host 4 b.extent_logic_used fits.extent_logic_used_fits)
                      (
                        fits.redundant_type_fits,
                        (
                          fits.sealed_fits,
                          (
                            fits.is_migrating_fits,
                            (
                              fits.corrupted_fits,
                              (All-append IsByte _ _
                                  (int_bytes-IsByte host 4 b.bitmap_ext_index
                                    fits.bitmap_ext_index_fits)
                                  (All-append IsByte _ _ fits.reserved_bytes tt)),
                            ),
                          ),
                        ),
                      )))))),
        ),
      ),
    ),
  )

  abbrev pub header_checksum : ℕ
  header_checksum = checksum host payload b.footer length-payload payload-IsByte fits.footer_fits

  abbrev pub header_bytes : List ℕ
  header_bytes =
      sealed_body host payload b.footer length-payload payload-IsByte fits.footer_fits
      ++ int_bytes host 4 header_checksum

  pub length-header_bytes : length header_bytes ≡ k_block_size
  length-header_bytes =
      length-sealed host payload b.footer length-payload payload-IsByte fits.footer_fits

  -- The block and the bytes that `Serialize` makes.
  pub serialize-header_bytes :
      serialize host b
      ≡ some (
        record b {
          magic = k_block_magic;
          footer = record b.footer { magic = k_block_magic; crc = header_checksum };
        },
        header_bytes,
      )
  unfolding serialize write_footer
  serialize-header_bytes = assert_block_size-some _ _ _ length-header_bytes
