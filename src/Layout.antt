-- ===== src/Layout.antt =====
-- src/datanode/storage/engine/pancake/pancake_layout.{h,cc}: where the regions of a device stand,
-- in blocks of 4096 bytes. Each operation is written at the width that C++ computes it in.
pub mod Regions
use pancake_store.Base.{ℕ, ◌+◌, ◌-◌, ◌*◌, ◌/◌, ◌%◌, ◌^◌, ◌==◌, if◌then◌else◌}
use pancake_store.Block.Bytes.{k_block_size, k_block_data_size}

abbrev pub k_extent_block_size : ℕ
k_extent_block_size = 64 * 1024 * 1024

abbrev pub k_min_device_size : ℕ
k_min_device_size = k_extent_block_size * 2

abbrev pub k_start_padding_block_count : ℕ
k_start_padding_block_count = 4

abbrev pub sizeof_uint8 : ℕ
sizeof_uint8 = 1

pub data LayoutType : Type 0 where
  unknown padding super_block super_block_backup extent_bit_map trash_extent_bit_map : LayoutType
  journal_blocks bad_block_bit_map extents : LayoutType

pub record PancakeFsLayoutItem : Type 0 where
  pub layout_type : LayoutType
  pub block_index : ℕ
  pub block_count : ℕ

pub record PancakeLayout : Type 0 where
  pub start_padding_item : PancakeFsLayoutItem
  pub super_block_item : PancakeFsLayoutItem
  pub super_block_backup_item : PancakeFsLayoutItem
  pub extent_bit_map_item : PancakeFsLayoutItem
  pub padding_blocks_item : PancakeFsLayoutItem
  pub extent_blocks_item : PancakeFsLayoutItem

-- `(device_size / k_block_data_size) - 1` in 64 bits, cut to 32.
unfoldable pub extent_block_count : ℕ → ℕ
extent_block_count device_size = (device_size / k_block_data_size + 2 ^ 64 - 1) % 2 ^ 64 % 2 ^ 32

unfoldable pub bitmap_block_count : ℕ → ℕ
bitmap_block_count count =
    let whole = count / k_block_data_size / sizeof_uint8 in
    if count % (k_block_data_size * sizeof_uint8) == 0 then whole else whole + 1

-- An item of the type that the member's initializer gives it.
abbrev item : LayoutType → ℕ → ℕ → PancakeFsLayoutItem
item t index count = record { layout_type = t; block_index = index; block_count = count }

unfoldable pub build_layout : ℕ → PancakeLayout
build_layout device_size =
    let meta_blocks = k_extent_block_size / k_block_size in
    let count = extent_block_count device_size in
    let start = item padding 0 k_start_padding_block_count in
    let super = item super_block (start.block_index + start.block_count) 1 in
    let backup = item super_block_backup (super.block_index + super.block_count) 1 in
    let bitmap =
      item extent_bit_map (backup.block_index + backup.block_count) (bitmap_block_count count) in
    let padding_index = bitmap.block_index + bitmap.block_count in
    let rest = item padding padding_index ((meta_blocks + 2 ^ 64 - padding_index) % 2 ^ 64) in
    record {
      start_padding_item = start;
      super_block_item = super;
      super_block_backup_item = backup;
      extent_bit_map_item = bitmap;
      padding_blocks_item = rest;
      extent_blocks_item = item extents ((rest.block_index + rest.block_count) % 2 ^ 64) count;
    }

unfoldable pub super_block_layout : PancakeLayout → PancakeFsLayoutItem
super_block_layout layout = layout.super_block_item

unfoldable pub super_block_backup_layout : PancakeLayout → PancakeFsLayoutItem
super_block_backup_layout layout = layout.super_block_backup_item

unfoldable pub extent_bitmap_layout : PancakeLayout → PancakeFsLayoutItem
extent_bitmap_layout layout = layout.extent_bit_map_item

unfoldable pub extents_blocks_layout : PancakeLayout → PancakeFsLayoutItem
extents_blocks_layout layout = layout.extent_blocks_item
