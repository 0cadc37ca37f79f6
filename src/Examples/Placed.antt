-- ===== src/Examples/Placed.antt =====
-- A second extent is placed beside a first, on a device that never fails.
use pancake_store.Base.{ℕ, ◌≡◌, refl, ◌∙◌, true, false, some, [], ◌∷◌, All, arith}
use pancake_store.Comm.ErrorCode.{pancake_store_ok}
use pancake_store.ExtentMgr.{
  ExtentManager, Answer, add_extent, place_extent, find_unused, contains,
  extent_block_device_offset,
}
use pancake_store.ExtentMgr.AddExtent.{search_step}
use pancake_store.ExtentMgr.Writes.{placed_answer}
use pancake_store.ExtentMgr.Clone.{clone_bit_map_block-some}
use pancake_store.ExtentMgr.Succeeds.{NeverFails, place_extent_done_here, add_extent-contains}
use pancake_store.ExtentMgr.Init.{IsValid}
use pancake_store.ExtentMgr.Owned.{Owned, Apart, add_extent-Owned, add_extent-Apart}
use pancake_store.Examples.{big_endian, memory, empty_device, a_header, a_header-HeaderFits}

memory-NeverFails : NeverFails memory
memory-NeverFails s off bytes = refl

-- Two extent blocks and two bitmap blocks; the first extent block is in use.
abbrev two_blocks : ExtentManager
two_blocks = record {
  offset = 24576;
  bitmap_block_count = 2;
  extent_block_count = 2;
  extent_block_size = 67108864;
  extent_blocks_offset = 67108864;
  bitmap = true ∷ false ∷ [];
  cursor = 1;
  used_cnt = 0;
  extent_offset_map = (5, 67108864) ∷ [];
}

two_blocks-Owned : Owned two_blocks
unfolding extent_block_device_offset
two_blocks-Owned = ((0, refl, refl), tt)

abbrev second : Answer (ℕ → ℕ)
second =
    placed_answer big_endian memory (record two_blocks { cursor = 2 }) empty_device a_header 1
      a_header-HeaderFits (omega arith)

second_placed :
    place_extent big_endian memory (record two_blocks { cursor = 2 }) empty_device a_header 1
    ≡ some second
second_placed =
    place_extent_done_here big_endian memory memory-NeverFails (record two_blocks { cursor = 2 })
      empty_device a_header 1 a_header-HeaderFits (omega arith) (omega arith)
      (clone_bit_map_block-some (record two_blocks { cursor = 2 }) 1 refl (omega arith)) refl refl
      refl

second_added : add_extent big_endian memory two_blocks empty_device a_header ≡ some second
unfolding find_unused contains
second_added =
    (search_step big_endian memory two_blocks empty_device a_header refl refl).1 1 2 refl
    ∙ second_placed

add_extent-Owned_example : Owned second.manager
add_extent-Owned_example =
    add_extent-Owned big_endian memory two_blocks empty_device a_header second (omega arith)
      (omega arith) refl two_blocks-Owned second_added

add_extent-Apart_example :
    (off : ℕ) × (second.manager.extent_offset_map ≡ (12, off) ∷ (5, 67108864) ∷ [])
    × All (Apart 67108864 off) ((5, 67108864) ∷ [])
add_extent-Apart_example =
    add_extent-Apart big_endian memory two_blocks empty_device a_header second (omega arith)
      (omega arith) refl (omega arith) two_blocks-Owned second_added refl

two_blocks-IsValid : IsValid two_blocks
two_blocks-IsValid = record {
  bitmap_length = refl;
  bitmap_room = omega arith;
  offset_aligned = refl;
  extent_blocks_offset_aligned = refl;
}

add_extent-contains_example :
    (a : Answer (ℕ → ℕ)) × (add_extent big_endian memory two_blocks empty_device a_header ≡ some a)
    × (a.code ≡ pancake_store_ok)
    × (contains a.manager.extent_offset_map 12 ≡ true)
unfolding contains
add_extent-contains_example =
    add_extent-contains big_endian memory memory-NeverFails two_blocks empty_device a_header 1
      two_blocks-IsValid refl (omega arith) (omega arith) (omega arith) a_header-HeaderFits refl
      (omega arith) (omega arith) refl
