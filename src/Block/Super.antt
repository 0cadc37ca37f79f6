-- ===== src/Block/Super.antt =====
-- `SuperBlock` of pancake_block.{h,cc}: what a device says of itself.
pub mod Size
pub mod RoundTrip
use pancake_store.Base.{
  ℕ, ◌+◌, ◌-◌, ◌%◌, ◌^◌, ◌<◌, ◌≡◌, List, [], ◌∷◌, ◌++◌, length, take, drop, replicate, All, IsByte,
  Option, ltb, ◌==◌, if◌then◌else◌,
}
use pancake_store.Comm.ErrorCode.{
  ErrorCode, datanode_storage_block_data_illegal, datanode_storage_block_magic_illegal,
}
use pancake_store.Comm.Crc.{crc32}
use pancake_store.Block.Host.{Host}
use pancake_store.Block.Bytes.{k_block_size, k_block_magic, concat}
use pancake_store.Block.Step.{
  Step, ◌>>◌, stop, go, read_data, read_byte, read_int, expect, int_bytes, deserialize_block,
  assert_block_size,
}

-- `create_time` is the bit pattern of the int64_t.
pub record SuperBlock : Type 0 where
  pub magic : ℕ
  pub version : ℕ
  pub device_id : ℕ
  pub device_uuid : List ℕ
  pub device_path : List ℕ
  pub create_time : ℕ
  pub device_capacity : ℕ
  pub block_size : ℕ
  pub journal_block_count : ℕ
  pub extent_block_size : ℕ
  pub extent_block_count : ℕ
  pub extent_block_bitmap_start : ℕ
  pub extent_block_bitmap_end : ℕ
  pub trash_extent_block_bitmap_start : ℕ
  pub trash_extent_block_bitmap_end : ℕ
  pub journal_blocks_start : ℕ
  pub journal_blocks_end : ℕ
  pub extent_blocks_start : ℕ
  pub crc : ℕ

-- The ranges of the C++ field types, but for the two that `Serialize` sets.
pub record SuperFits (b : SuperBlock) : Type 0 where
  pub version_fits : b.version < 256
  pub device_id_fits : b.device_id < 256 ^ 8
  pub uuid_bytes : All IsByte b.device_uuid
  pub path_bytes : All IsByte b.device_path
  pub create_time_fits : b.create_time < 256 ^ 8
  pub device_capacity_fits : b.device_capacity < 256 ^ 8
  pub block_size_fits : b.block_size < 256 ^ 8
  pub journal_block_count_fits : b.journal_block_count < 256 ^ 4
  pub extent_block_size_fits : b.extent_block_size < 256 ^ 8
  pub extent_block_count_fits : b.extent_block_count < 256 ^ 8
  pub extent_block_bitmap_start_fits : b.extent_block_bitmap_start < 256 ^ 8
  pub extent_block_bitmap_end_fits : b.extent_block_bitmap_end < 256 ^ 8
  pub trash_extent_block_bitmap_start_fits : b.trash_extent_block_bitmap_start < 256 ^ 8
  pub trash_extent_block_bitmap_end_fits : b.trash_extent_block_bitmap_end < 256 ^ 8
  pub journal_blocks_start_fits : b.journal_blocks_start < 256 ^ 8
  pub journal_blocks_end_fits : b.journal_blocks_end < 256 ^ 8
  pub extent_blocks_start_fits : b.extent_blocks_start < 256 ^ 8

-- A string is written as its length in 16 bits and its bytes.
module _ (host : Host) where
  unfoldable pub super_pieces : SuperBlock → List (List ℕ)
  super_pieces b =
      int_bytes host 4 b.magic
      ∷ (b.version ∷ [])
      ∷ int_bytes host 8 b.device_id
      ∷ (int_bytes host 2 (length b.device_uuid % 2 ^ 16) ++ b.device_uuid)
      ∷ (int_bytes host 2 (length b.device_path % 2 ^ 16) ++ b.device_path)
      ∷ int_bytes host 8 b.create_time
      ∷ int_bytes host 8 b.device_capacity
      ∷ int_bytes host 8 b.block_size
      ∷ int_bytes host 4 b.journal_block_count
      ∷ int_bytes host 8 b.extent_block_size
      ∷ int_bytes host 8 b.extent_block_count
      ∷ int_bytes host 8 b.extent_block_bitmap_start
      ∷ int_bytes host 8 b.extent_block_bitmap_end
      ∷ int_bytes host 8 b.trash_extent_block_bitmap_start
      ∷ int_bytes host 8 b.trash_extent_block_bitmap_end
      ∷ int_bytes host 8 b.journal_blocks_start
      ∷ int_bytes host 8 b.journal_blocks_end
      ∷ int_bytes host 8 b.extent_blocks_start
      ∷ []

  -- The last step pads with zeros to the size of a block, then asserts that size.
  unfoldable pub serialize : SuperBlock → Option (SuperBlock × List ℕ)
  serialize b =
      let sealed : SuperBlock = record b { magic = k_block_magic } in
      let body = concat (super_pieces sealed) in
      let checksum = crc32 body (length body) in
      let result = body ++ int_bytes host 4 checksum in
      assert_block_size host (record sealed { crc = checksum })
        (if ltb (length result) k_block_size
          then result ++ replicate (k_block_size - length result) 0
          else result)

  -- A length of 16 bits; if it is not 0, a string of that length is stored by `assign`. An empty
  -- string on disk leaves the field as it was.
  unfoldable pub read_string : {B : Type 0} → (List ℕ → B → B) → Step B
  unfolding read_data
  read_string assign b rest =
      let len = host.ntoh 2 (host.object_value (take 2 rest)) in
      if ltb (length rest) 2
      then stop datanode_storage_block_data_illegal b
      else if ltb 0 len
      then read_data len assign b (drop 2 rest)
      else go b (drop 2 rest)

  unfoldable pub super_steps : Step SuperBlock
  super_steps = do
    read_int host 4 (λ v b. record b { magic = v })
    expect (λ b. b.magic == k_block_magic) datanode_storage_block_magic_illegal
    read_byte (λ v b. record b { version = v })
    read_int host 8 (λ v b. record b { device_id = v })
    read_string (λ s b. record b { device_uuid = s })
    read_string (λ s b. record b { device_path = s })
    read_int host 8 (λ v b. record b { create_time = v })
    read_int host 8 (λ v b. record b { device_capacity = v })
    read_int host 8 (λ v b. record b { block_size = v })
    read_int host 4 (λ v b. record b { journal_block_count = v })
    read_int host 8 (λ v b. record b { extent_block_size = v })
    read_int host 8 (λ v b. record b { extent_block_count = v })
    read_int host 8 (λ v b. record b { extent_block_bitmap_start = v })
    read_int host 8 (λ v b. record b { extent_block_bitmap_end = v })
    read_int host 8 (λ v b. record b { trash_extent_block_bitmap_start = v })
    read_int host 8 (λ v b. record b { trash_extent_block_bitmap_end = v })
    read_int host 8 (λ v b. record b { journal_blocks_start = v })
    read_int host 8 (λ v b. record b { journal_blocks_end = v })
    read_int host 8 (λ v b. record b { extent_blocks_start = v })
    read_int host 4 (λ v b. record b { crc = v })

  -- What it makes of the block `b`, and of the bytes.
  unfoldable pub deserialize : SuperBlock → List ℕ → ErrorCode × SuperBlock
  unfolding super_steps
  deserialize = deserialize_block super_steps (λ b. b.crc)
