-- ===== src/Block/Footer.antt =====
-- `BlockFooter` of pancake_block.h: the last 32 bytes of a bitmap, data or extent header block.
-- The source writes and reads it in each of those blocks with the same lines.
pub mod Reads
pub mod Stored
pub mod Parts
pub mod Checked
pub mod Answers
pub mod Corrupted
use pancake_store.Base.{
  ℕ, ◌+◌, ◌%◌, ◌^◌, ◌<◌, ◌≡◌, List, [], ◌∷◌, ◌++◌, Option, length, ◌==◌, All, IsByte,
}
use pancake_store.Comm.ErrorCode.{datanode_storage_block_magic_illegal}
use pancake_store.Block.Host.{Host}
use pancake_store.Block.Bytes.{k_block_magic, concat}
use pancake_store.Comm.Crc.{crc32}
use pancake_store.Block.Step.{
  Step, ◌>>◌, read_data, read_byte, read_int, expect, int_bytes, assert_block_size,
}

pub record BlockFooter : Type 0 where
  pub magic : ℕ
  pub version : ℕ
  pub flag : ℕ
  pub data_length : ℕ
  pub extent_id : ℕ
  pub reserved : List ℕ
  pub crc : ℕ

-- The ranges of the C++ field types, but for the two that `Serialize` sets.
pub record FooterFits (f : BlockFooter) : Type 0 where
  pub version_fits : f.version < 256
  pub flag_fits : f.flag < 256
  pub length_fits : f.data_length < 256 ^ 2
  pub extent_id_fits : f.extent_id < 256 ^ 8
  pub reserved_size : length f.reserved ≡ 12
  pub reserved_bytes : All IsByte f.reserved

-- `length_` has 16 bits.
unfoldable pub fill : ℕ → ℕ → BlockFooter → BlockFooter
fill extent_id len f = record f {
  magic = k_block_magic;
  version = 1;
  data_length = len % 2 ^ 16;
  extent_id = extent_id;
}

unfoldable pub fill_without_extent_id : ℕ → BlockFooter → BlockFooter
fill_without_extent_id len f = record f {
  magic = k_block_magic;
  version = 1;
  data_length = len % 2 ^ 16;
  extent_id = 0;
}

-- What `append_data` puts behind the block's data, up to the checksum.
unfoldable pub footer_pieces : Host → BlockFooter → List (List ℕ)
footer_pieces host f =
    int_bytes host 4 f.magic
    ∷ (f.version ∷ [])
    ∷ (f.flag ∷ [])
    ∷ int_bytes host 2 f.data_length
    ∷ int_bytes host 8 f.extent_id
    ∷ f.reserved
    ∷ []

-- The footer stands inside a block `B`.
module _ {B : Type 0} (host : Host) (get : B → BlockFooter) (put : BlockFooter → B → B) where
  unfoldable pub read_footer : Step B
  read_footer = do
    read_int host 4 (λ v b. put (record (get b) { magic = v }) b)
    expect (λ b. (get b).magic == k_block_magic) datanode_storage_block_magic_illegal
    read_byte (λ v b. put (record (get b) { version = v }) b)
    read_byte (λ v b. put (record (get b) { flag = v }) b)
    read_int host 2 (λ v b. put (record (get b) { data_length = v }) b)
    read_int host 8 (λ v b. put (record (get b) { extent_id = v }) b)
    read_data 12 (λ bytes b. put (record (get b) { reserved = bytes }) b)

  unfoldable pub read_footer_crc : Step B
  read_footer_crc = read_int host 4 (λ v b. put (record (get b) { crc = v }) b)

  -- From `// append footer` on, behind the bytes `payload` of the block's data.
  unfoldable pub write_footer : List ℕ → B → Option (B × List ℕ)
  write_footer payload b =
      let footer : BlockFooter = record (get b) { magic = k_block_magic } in
      let body = payload ++ concat (footer_pieces host footer) in
      let checksum = crc32 body (length body) in
      assert_block_size host (put (record footer { crc = checksum }) b)
        (body ++ int_bytes host 4 checksum)
