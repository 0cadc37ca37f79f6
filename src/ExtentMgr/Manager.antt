-- ===== src/ExtentMgr/Manager.antt =====
-- The state of the extent manager of pancake_extent_mgr.{h,cc}, and the operations that need no
-- device: `Init`, the search of `AddExtent`, the bitmap blocks made from the bitmap in memory.
use Prim.Native.Nat.{bit_and, bit_or, min}
use pancake_store.Base.{
  ℕ, zero, suc, ◌+◌, ◌-◌, ◌*◌, ◌/◌, ◌%◌, ◌^◌, Bool, true, false, not, Option, none, some, List, [],
  ◌∷◌, ◌++◌, length, get_or, set, take, replicate, ◌==◌, ltb, if◌then◌else◌, get_elem?,
}
use pancake_store.Comm.ErrorCode.{ErrorCode, pancake_store_ok, datanode_storage_fs_init_failed}
use pancake_store.Block.Bytes.{k_block_size, k_block_data_size}
use pancake_store.Block.Bitmap.{BitMapBlock}
use pancake_store.Io.{is_block_align}
use pancake_store.Layout.{sizeof_uint8}

pub record ExtentManager : Type 0 where
  pub offset : ℕ
  pub bitmap_block_count : ℕ
  pub extent_block_count : ℕ
  pub extent_block_size : ℕ
  pub extent_blocks_offset : ℕ
  pub bitmap : List Bool
  pub cursor : ℕ
  pub used_cnt : ℕ
  pub extent_offset_map : List (ℕ × ℕ)

-- The members' initializers.
abbrev pub new_manager : ExtentManager
new_manager = record {
  offset = 0;
  bitmap_block_count = 0;
  extent_block_count = 0;
  extent_block_size = 0;
  extent_blocks_offset = 0;
  bitmap = [];
  cursor = 0;
  used_cnt = 0;
  extent_offset_map = [];
}

-- `extent_offset_map_.contains`.
unfoldable pub contains : List (ℕ × ℕ) → ℕ → Bool
contains [] id = false
contains ((k, v) ∷ m) id = if k == id then true else contains m id

-- `bitmap_.resize(n, false)`: what is there stays.
unfoldable pub resize : List Bool → ℕ → List Bool
resize bits n = take n bits ++ replicate (n - length bits) false

unfoldable pub init : ExtentManager → ℕ → ℕ → ℕ → ℕ → ℕ → ErrorCode × ExtentManager
unfolding is_block_align
init m offset bitmap_block_count extent_block_count extent_block_size extent_blocks_offset =
    let max_blocks = bitmap_block_count * (k_block_data_size * sizeof_uint8) % 2 ^ 32 in
    if ltb max_blocks extent_block_count
    then (datanode_storage_fs_init_failed, m)
    else if not (is_block_align offset)
    then (datanode_storage_fs_init_failed, m)
    else if not (is_block_align extent_blocks_offset)
    then (datanode_storage_fs_init_failed, m)
    else (
      pancake_store_ok,
      record m {
        offset = offset;
        bitmap_block_count = bitmap_block_count;
        extent_block_count = extent_block_count;
        extent_block_size = extent_block_size;
        extent_blocks_offset = extent_blocks_offset;
        bitmap = resize m.bitmap extent_block_count;
        extent_offset_map = [];
      },
    )

unfoldable pub bitmap_index : ℕ → ℕ
bitmap_index extent_block_index = extent_block_index / (k_block_data_size * sizeof_uint8)

-- `bitmap_block_index * k_block_size` is a product of 32 bits.
unfoldable pub bitmap_block_device_offset : ExtentManager → ℕ → ℕ
bitmap_block_device_offset m index = (m.offset + index * k_block_size % 2 ^ 32) % 2 ^ 64

unfoldable pub extent_block_device_offset : ExtentManager → ℕ → ℕ
extent_block_device_offset m index =
    (index * m.extent_block_size % 2 ^ 64 + m.extent_blocks_offset) % 2 ^ 64

-- The search for an unused extent block. `fault` is a read past the end of the bitmap.
pub data Search : Type 0 where
  found : ℕ → ℕ → Search
  exhausted : ℕ → Search
  fault : Search

-- The `for` loop with `rounds` left, at the cursor. `found i c` has set `ext_block_index` to `i`
-- and left the cursor at `c`. `blocks` is not 0 where a round is left: `Init` takes no extent
-- blocks without bitmap blocks.
unfoldable pub find_unused : ℕ → ℕ → List Bool → ℕ → Search
find_unused zero blocks bits cursor = exhausted cursor
find_unused (suc rounds) blocks bits cursor =
    let at = cursor % blocks in
    let rest = find_unused rounds blocks bits (at + 1) in
    elim (get_elem? bits at) [ none ↦ fault | some used ↦ if used then rest else found at (at + 1) ]

-- `bitmap_[inner_index] |= 1 << inner_offset` and `&= ~(1 << inner_offset)` on a byte.
unfoldable pub set_bit : List ℕ → ℕ → List ℕ
set_bit bytes inner =
    let index = inner / sizeof_uint8 in
    set bytes index (bit_or (get_or bytes index 0) (2 ^ (inner % sizeof_uint8)))

unfoldable pub clear_bit : List ℕ → ℕ → List ℕ
clear_bit bytes inner =
    let index = inner / sizeof_uint8 in
    set bytes index (bit_and (get_or bytes index 0) (255 - 2 ^ (inner % sizeof_uint8)))

-- The loop of `cloneBitMapBlockWithoutLock` at the index `start + inner`, with `rounds` left.
-- `none` is a read past the end of the bitmap.
unfoldable pub clone_bits : ℕ → ℕ → ℕ → List Bool → List ℕ → Option (List ℕ)
unfolding set_bit clear_bit
clone_bits zero start inner bits bytes = some bytes
clone_bits (suc rounds) start inner bits bytes = elim (get_elem? bits (start + inner)) [
  | none ↦ none
  | some used ↦
      clone_bits rounds start (inner + 1) bits
        (if used then set_bit bytes inner else clear_bit bytes inner)
]

-- `memset(&bitmap_block, 0, sizeof(bitmap_block))`.
abbrev pub zero_block : BitMapBlock
zero_block = record {
  bitmap = replicate k_block_data_size 0;
  footer = record {
    magic = 0;
    version = 0;
    flag = 0;
    data_length = 0;
    extent_id = 0;
    reserved = replicate 12 0;
    crc = 0;
  };
}

-- How often the loop is run: `std::min` compares `int`s, and `static_cast<int>` makes 2^31 extent
-- blocks and more a negative number, at which the loop ends before it begins.
unfoldable pub clone_rounds : ExtentManager → ℕ → ℕ
clone_rounds m start =
    if ltb m.extent_block_count (2 ^ 31)
    then min (start + k_block_data_size * sizeof_uint8) m.extent_block_count - start
    else 0

-- `none` is a read past the bitmap, or a `start` or an `end` that an `int` does not hold.
unfoldable pub clone_bit_map_block : ExtentManager → ℕ → Option BitMapBlock
unfolding clone_bits clone_rounds bitmap_index
clone_bit_map_block m ext_block_index =
    let start = bitmap_index ext_block_index * (k_block_data_size * sizeof_uint8) in
    if ltb (start + k_block_data_size * sizeof_uint8) (2 ^ 31)
    then elim (clone_bits (clone_rounds m start) start 0 m.bitmap zero_block.bitmap) [
      | none ↦ none
      | some bytes ↦ some (record zero_block { bitmap = bytes })
    ]
    else none

unfoldable pub mark_extent_block_used : BitMapBlock → ℕ → BitMapBlock
unfolding set_bit
mark_extent_block_used b ext_block_index = record b {
  bitmap = set_bit b.bitmap (ext_block_index % (k_block_data_size * sizeof_uint8));
}

unfoldable pub mark_extent_block_unused : BitMapBlock → ℕ → BitMapBlock
unfolding clear_bit
mark_extent_block_unused b ext_block_index = record b {
  bitmap = clear_bit b.bitmap (ext_block_index % (k_block_data_size * sizeof_uint8));
}

-- `current_alloc_count` and `current_free_count`, the latter in 32 bits.
unfoldable pub current_alloc_count : ExtentManager → ℕ
current_alloc_count m = m.used_cnt

unfoldable pub current_free_count : ExtentManager → ℕ
current_free_count m = (m.extent_block_count + 2 ^ 32 - m.used_cnt) % 2 ^ 32
