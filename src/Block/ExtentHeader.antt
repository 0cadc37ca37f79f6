-- ===== src/Block/ExtentHeader.antt =====
-- `ExtentHeaderBlock` of pancake_block.{h,cc}: the first block of an extent.
pub mod Write
pub mod Read
use pancake_store.Base.{ℕ, ◌+◌, ◌^◌, ◌<◌, ◌≡◌, List, [], ◌∷◌, length, All, IsByte, Option, ◌==◌}
use pancake_store.Comm.ErrorCode.{ErrorCode, datanode_storage_block_magic_illegal}
use pancake_store.Block.Host.{Host}
use pancake_store.Block.Bytes.{k_block_magic, concat}
use pancake_store.Block.Step.{
  Step, ◌>>◌, read_data, read_byte, read_int, expect, int_bytes, deserialize_block,
}
use pancake_store.Block.Footer.{BlockFooter, FooterFits, read_footer, read_footer_crc, write_footer}

-- The union with `rep_shard_cnt_` is kept as its two bytes.
pub record ExtentHeaderBlock : Type 0 where
  pub magic : ℕ
  pub version : ℕ
  pub shard_id : ℕ
  pub data_shard_cnt : ℕ
  pub code_shard_cnt : ℕ
  pub device_id : ℕ
  pub extent_id : ℕ
  pub extent_capacity : ℕ
  pub extent_phy_used : ℕ
  pub extent_logic_used : ℕ
  pub redundant_type : ℕ
  pub sealed : ℕ
  pub is_migrating : ℕ
  pub corrupted : ℕ
  pub bitmap_ext_index : ℕ
  pub reserved : List ℕ
  pub footer : BlockFooter

-- The ranges of the C++ field types, but for those that `Serialize` sets.
pub record HeaderFits (b : ExtentHeaderBlock) : Type 0 where
  pub version_fits : b.version < 256
  pub shard_id_fits : b.shard_id < 256
  pub data_shard_cnt_fits : b.data_shard_cnt < 256
  pub code_shard_cnt_fits : b.code_shard_cnt < 256
  pub device_id_fits : b.device_id < 256 ^ 8
  pub extent_id_fits : b.extent_id < 256 ^ 8
  pub extent_capacity_fits : b.extent_capacity < 256 ^ 4
  pub extent_phy_used_fits : b.extent_phy_used < 256 ^ 4
  pub extent_logic_used_fits : b.extent_logic_used < 256 ^ 4
  pub redundant_type_fits : b.redundant_type < 256
  pub sealed_fits : b.sealed < 256
  pub is_migrating_fits : b.is_migrating < 256
  pub corrupted_fits : b.corrupted < 256
  pub bitmap_ext_index_fits : b.bitmap_ext_index < 256 ^ 4
  pub reserved_size : length b.reserved ≡ 4020
  pub reserved_bytes : All IsByte b.reserved
  pub footer_fits : FooterFits b.footer

module _ (host : Host) where
  unfoldable pub header_pieces : ExtentHeaderBlock → List (List ℕ)
  header_pieces b =
      int_bytes host 4 b.magic
      ∷ (b.version ∷ [])
      ∷ (b.shard_id ∷ [])
      ∷ (b.data_shard_cnt ∷ [])
      ∷ (b.code_shard_cnt ∷ [])
      ∷ int_bytes host 8 b.device_id
      ∷ int_bytes host 8 b.extent_id
      ∷ int_bytes host 4 b.extent_capacity
      ∷ int_bytes host 4 b.extent_phy_used
      ∷ int_bytes host 4 b.extent_logic_used
      ∷ (b.redundant_type ∷ [])
      ∷ (b.sealed ∷ [])
      ∷ (b.is_migrating ∷ [])
      ∷ (b.corrupted ∷ [])
      ∷ int_bytes host 4 b.bitmap_ext_index
      ∷ b.reserved
      ∷ []

  -- The block as `Serialize` leaves it, and its bytes.
  unfoldable pub serialize : ExtentHeaderBlock → Option (ExtentHeaderBlock × List ℕ)
  serialize b =
      let marked : ExtentHeaderBlock = record b { magic = k_block_magic } in
      write_footer host (λ x. x.footer) (λ f x. record x { footer = f })
        (concat (header_pieces marked)) marked

  -- The reads up to the footer. There is none for `code_shard_cnt_`.
  unfoldable pub header_steps : Step ExtentHeaderBlock
  header_steps = do
    read_int host 4 (λ v b. record b { magic = v })
    expect (λ b. b.magic == k_block_magic) datanode_storage_block_magic_illegal
    read_byte (λ v b. record b { version = v })
    read_byte (λ v b. record b { shard_id = v })
    read_byte (λ v b. record b { data_shard_cnt = v })
    read_int host 8 (λ v b. record b { device_id = v })
    read_int host 8 (λ v b. record b { extent_id = v })
    read_int host 4 (λ v b. record b { extent_capacity = v })
    read_int host 4 (λ v b. record b { extent_phy_used = v })
    read_int host 4 (λ v b. record b { extent_logic_used = v })
    read_byte (λ v b. record b { redundant_type = v })
    read_byte (λ v b. record b { sealed = v })
    read_byte (λ v b. record b { is_migrating = v })
    read_byte (λ v b. record b { corrupted = v })
    read_int host 4 (λ v b. record b { bitmap_ext_index = v })
    read_data 4020 (λ bytes b. record b { reserved = bytes })

  unfoldable pub steps : Step ExtentHeaderBlock
  unfolding header_steps
  steps = do
    header_steps
    read_footer host (λ b. b.footer) (λ f b. record b { footer = f })
    read_footer_crc host (λ b. b.footer) (λ f b. record b { footer = f })

  -- What it makes of the block `b`, and of the bytes.
  unfoldable pub deserialize : ExtentHeaderBlock → List ℕ → ErrorCode × ExtentHeaderBlock
  unfolding steps
  deserialize = deserialize_block steps (λ b. b.footer.crc)
