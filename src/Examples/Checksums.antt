-- ===== src/Examples/Checksums.antt =====
-- The theorems on checksums and layouts at concrete inputs.
use Prim.Native.Nat.{bit_xor}
use pancake_store.Base.{ℕ, ◌+◌, ◌*◌, ◌≤◌, ◌<◌, ◌≡◌, ◌≢◌, ◌↔◌, List, [], ◌∷◌, length, arith}
use pancake_store.Comm.Crc.{crc32}
use pancake_store.Comm.Crc.Reference.{divide_bytes, crc32-eq-divide_bytes}
use pancake_store.Comm.Crc.Detection.{crc32_single_byte}
use pancake_store.Block.Bytes.{k_block_size, k_block_data_size}
use pancake_store.Layout.{extent_block_count, build_layout, k_extent_block_size}
use pancake_store.Layout.Regions.{
  Follows, build_layout_contiguous, build_layout_disjoint_iff, build_layout_exceeds_device,
}

-- The characters "abc".
abbrev abc : List ℕ
abc = 97 ∷ 98 ∷ 99 ∷ []

crc32-eq-divide_bytes_example :
    crc32 abc (length abc) ≡ bit_xor (divide_bytes abc 0xFFFFFFFF) 0xFFFFFFFF
crc32-eq-divide_bytes_example =
    crc32-eq-divide_bytes abc (omega arith, (omega arith, (omega arith, tt)))

crc32_single_byte_example : crc32 (97 ∷ 98 ∷ 99 ∷ []) 3 ≢ crc32 (97 ∷ 226 ∷ 99 ∷ []) 3
crc32_single_byte_example =
    crc32_single_byte (97 ∷ []) 98 226 (99 ∷ []) (omega arith, (omega arith, (omega arith, tt)))
      (omega arith, (omega arith, (omega arith, tt))) (omega arith)

build_layout_contiguous_example :
    let l = build_layout 1000000000000 in
    (l.start_padding_item.block_index ≡ 0)
    × Follows l.start_padding_item l.super_block_item
    × Follows l.super_block_item l.super_block_backup_item
    × Follows l.super_block_backup_item l.extent_bit_map_item
    × Follows l.extent_bit_map_item l.padding_blocks_item
    × (l.extent_blocks_item.block_index * k_block_size ≡ k_extent_block_size)
    × (l.extent_blocks_item.block_count ≤ l.extent_bit_map_item.block_count * k_block_data_size)
    × (l.extent_bit_map_item.block_count * k_block_data_size
        < l.extent_blocks_item.block_count + k_block_data_size)
build_layout_contiguous_example = build_layout_contiguous 1000000000000

build_layout_disjoint_iff_example :
    let l = build_layout 1000000000000 in
    (l.extent_bit_map_item.block_index + l.extent_bit_map_item.block_count
        ≤ l.extent_blocks_item.block_index)
      × Follows l.padding_blocks_item l.extent_blocks_item
    ↔ (extent_block_count 1000000000000 ≤ 66560192)
build_layout_disjoint_iff_example = build_layout_disjoint_iff 1000000000000

build_layout_exceeds_device_example :
    let l = build_layout 1000000000000 in
    1000000000000
    < l.extent_blocks_item.block_index * k_block_size
      + l.extent_blocks_item.block_count * k_extent_block_size
build_layout_exceeds_device_example =
    build_layout_exceeds_device 1000000000000 (omega arith) (omega arith)
