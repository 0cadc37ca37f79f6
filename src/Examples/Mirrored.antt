-- ===== src/Examples/Mirrored.antt =====
-- A device whose bitmap block has no bit set, before an extent is added.
use pancake_store.Base.{
  ℕ, zero, suc, ◌<◌, ◌≡◌, refl, sym, ap, ◌∙◌, true, false, inl, inr, some, List, [], ◌∷◌, get_or,
  replicate, All-replicate, IsByte, le→ltb, ◌+◌, arith,
}
use mathlib.Core.Path.{subst}
use pancake_store.Comm.ErrorCode.{ErrorCode, is_not_ok, ok_of}
use pancake_store.Block.Bitmap.{BitMapBlock, BitMapFits}
use pancake_store.Block.Bitmap.RoundTrip.{deserialize-serialize_bitmap, deserialize_any}
use pancake_store.Io.{slice, overlay}
use pancake_store.Io.Laws.{slice-overlay_self, slice-write_at_self, slice-write_at_other}
use pancake_store.ExtentMgr.{
  ExtentManager, Answer, init, resize, place_extent, add_extent, del_extent,
  extent_block_device_offset, find_unused, contains, zero_block, bitmap_block_device_offset,
  bitmap_index,
}
use pancake_store.ExtentMgr.AddExtent.{search_step}
use pancake_store.ExtentMgr.Mark.{byte_at}
use pancake_store.ExtentMgr.Mirrored.{AllMirror, Mirrors, Shows, Regions}
use pancake_store.Io.{is_block_align}
use pancake_store.ExtentMgr.Reach
use pancake_store.ExtentMgr.Reach.{Runs, started}
use pancake_store.ExtentMgr.Used.{Low, Runs-Low}
use pancake_store.ExtentMgr.Delete.{del_extent_refuses}
use pancake_store.ExtentMgr.Answers.{HeaderFits-placed, marked, updated-BitMapFits}
use pancake_store.ExtentMgr.Calls.{Laid, Calls, not_called, added, deleted, Calls-Mirrors}
use pancake_store.Block.ExtentHeader.{ExtentHeaderBlock, HeaderFits}
use pancake_store.Block.ExtentHeader.Write.{
  header_bytes, serialize-header_bytes, length-header_bytes,
}
use pancake_store.ExtentMgr.Writes.{
  placed_answer, header_write, bitmap_write, new_bitmap, place_extent_writes,
}
use pancake_store.ExtentMgr.Succeeds.{place_extent_done_here}
use pancake_store.ExtentMgr.Clone.{clone_bit_map_block-some}
use pancake_store.Examples.{big_endian, memory, empty_device, a_header, a_header-HeaderFits}

-- Two extent blocks, of which none is in use, and one bitmap block.
abbrev one_block : ExtentManager
one_block = record {
  offset = 24576;
  bitmap_block_count = 1;
  extent_block_count = 2;
  extent_block_size = 67108864;
  extent_blocks_offset = 67108864;
  bitmap = false ∷ false ∷ [];
  cursor = 0;
  used_cnt = 0;
  extent_offset_map = [];
}

one_block-Regions : Regions one_block
one_block-Regions = record {
  bitmap_within = omega arith;
  bitmap_before = omega arith;
  end_within = omega arith;
}

zero_block-BitMapFits : BitMapFits zero_block
zero_block-BitMapFits = record {
  data_size = refl;
  data_bytes = All-replicate IsByte 4064 0 (omega arith);
  footer_fits = record {
    version_fits = omega arith;
    flag_fits = omega arith;
    length_fits = omega arith;
    extent_id_fits = omega arith;
    reserved_size = refl;
    reserved_bytes = All-replicate IsByte 12 0 (omega arith);
  };
}

abbrev zero_bytes : List ℕ
zero_bytes =
    (deserialize-serialize_bitmap big_endian zero_block zero_block zero_block-BitMapFits).1.bytes

abbrev formatted : ℕ → ℕ
formatted = overlay empty_device 24576 zero_bytes

zeros : (n i : ℕ) → get_or {A = ℕ} (replicate n 0) i 0 ≡ 0
zeros zero i = refl
zeros (suc n) zero = refl
zeros (suc n) (suc i) = zeros n i

byte_at-one_block : (j : ℕ) → byte_at one_block 0 j ≡ 0
byte_at-one_block zero = refl
byte_at-one_block (suc zero) = refl
byte_at-one_block (suc (suc j)) = rw (le→ltb (0 + suc (suc j)) 2 (omega arith)) refl

zero_bytes-Shows : (tmp : BitMapBlock) → Shows big_endian zero_bytes one_block 0 tmp
zero_bytes-Shows tmp =
    let loaded = deserialize_any big_endian zero_block zero_block tmp zero_block-BitMapFits in
    (
      ap (λ (x : ErrorCode × BitMapBlock). x.0) loaded,
      λ j h.
          ap (λ (x : ErrorCode × BitMapBlock). get_or x.1.bitmap j 0) loaded
          ∙ zeros 4064 j
          ∙ sym (byte_at-one_block j),
    )

slice-formatted : slice formatted 24576 4096 ≡ zero_bytes
slice-formatted =
    ap (slice formatted 24576) (
      sym
        (deserialize-serialize_bitmap big_endian zero_block zero_block
          zero_block-BitMapFits).1.size)
    ∙ slice-overlay_self empty_device 24576 zero_bytes

offset_zero : bitmap_block_device_offset one_block 0 ≡ 24576
unfolding bitmap_block_device_offset
offset_zero = refl

formatted-Mirrors :
    (k : ℕ) → k < one_block.bitmap_block_count → Mirrors big_endian formatted one_block k
formatted-Mirrors zero h tmp =
    subst (λ (bytes : List ℕ). Shows big_endian bytes one_block 0 tmp)
      (sym (ap (λ (off : ℕ). slice formatted off 4096) offset_zero ∙ slice-formatted))
      (zero_bytes-Shows tmp)
formatted-Mirrors (suc k) h tmp = absurd (omega arith)

abbrev after_search : ExtentManager
after_search = record one_block { cursor = 1 }

abbrev first : Answer (ℕ → ℕ)
first =
    placed_answer big_endian memory after_search formatted a_header 0 a_header-HeaderFits
      (omega arith)

first_placed : place_extent big_endian memory after_search formatted a_header 0 ≡ some first
first_placed =
    place_extent_done_here big_endian memory (λ s off bytes. refl) after_search formatted a_header 0
      a_header-HeaderFits (omega arith) (omega arith)
      (clone_bit_map_block-some after_search 0 refl (omega arith)) refl refl refl

first_added : add_extent big_endian memory one_block formatted a_header ≡ some first
unfolding find_unused contains
first_added =
    (search_step big_endian memory one_block formatted a_header refl refl).1 0 1 refl ∙ first_placed

one_block-Laid : Laid one_block
one_block-Laid = record {
  valid = record {
    bitmap_length = refl;
    bitmap_room = omega arith;
    offset_aligned = refl;
    extent_blocks_offset_aligned = refl;
  };
  positive = omega arith;
  enough = omega arith;
  few = omega arith;
  regions = one_block-Regions;
}

-- The header that `AddExtent` has written.
abbrev placed_header : ExtentHeaderBlock
placed_header = record a_header { bitmap_ext_index = 0 }

placed_header-HeaderFits : HeaderFits placed_header
placed_header-HeaderFits = HeaderFits-placed a_header 0 a_header-HeaderFits (omega arith)

-- Both writes were answered OK.
wrote :
    (is_not_ok
        (header_write big_endian memory after_search formatted a_header 0 a_header-HeaderFits
          (omega arith)).0
      ≡ false)
    × (is_not_ok
          (bitmap_write big_endian memory after_search formatted a_header 0 a_header-HeaderFits
            (omega arith)).0
        ≡ false)
wrote =
    let (w1, w2, _) =
      place_extent_writes big_endian memory after_search formatted a_header 0 a_header-HeaderFits
        (omega arith) first (omega arith) first_placed refl in
    (w1, w2)

header_there :
    slice first.device (extent_block_device_offset first.manager 0) 4096
    ≡ header_bytes big_endian placed_header placed_header-HeaderFits
unfolding extent_block_device_offset bitmap_block_device_offset bitmap_index
header_there =
    slice-write_at_other memory
      (header_write big_endian memory after_search formatted a_header 0 a_header-HeaderFits
        (omega arith)).1
      24576
      (new_bitmap big_endian memory after_search formatted a_header 0 a_header-HeaderFits
        (omega arith))
      4096 67108864
      (deserialize-serialize_bitmap big_endian (marked after_search 0) (marked after_search 0)
        (updated-BitMapFits true after_search 0)).1.size
      (ok_of _ wrote.1) (inr (omega arith))
    ∙ slice-write_at_self memory formatted 67108864
        (header_bytes big_endian placed_header placed_header-HeaderFits) 4096
        (length-header_bytes big_endian placed_header placed_header-HeaderFits) (ok_of _ wrote.0)

-- What `DelExtent` then answers.
del_refused :
    (c : ErrorCode) × (is_not_ok c ≡ true)
    × (del_extent big_endian memory first.manager first.device placed_header a_header
        ≡ some (record {
          code = c;
          manager = first.manager;
          device = first.device;
          header = placed_header;
        }))
del_refused =
    del_extent_refuses big_endian memory first.manager first.device placed_header a_header
      placed_header _ placed_header-HeaderFits
      (serialize-header_bytes big_endian placed_header placed_header-HeaderFits) header_there

abbrev after_delete : Answer (ℕ → ℕ)
after_delete = record {
  code = del_refused.0;
  manager = first.manager;
  device = first.device;
  header = placed_header;
}

added_once : Calls big_endian memory one_block formatted first.manager first.device
added_once = added a_header first not_called a_header-HeaderFits first_added (inl refl)

Calls-Mirrors_example : Laid first.manager × AllMirror big_endian first.device first.manager
Calls-Mirrors_example =
    Calls-Mirrors big_endian memory one_block formatted first.manager first.device one_block-Laid
      formatted-Mirrors
      (deleted placed_header a_header after_delete added_once del_refused.2
        (inr (del_refused.1, refl)))

one_block-Runs : Runs big_endian memory one_block
unfolding init is_block_align resize
one_block-Runs = started 24576 1 2 67108864 67108864 refl

Runs-Low_example : Low 1 first.manager.bitmap
Runs-Low_example =
    Runs-Low big_endian memory first.manager
      (Reach.added formatted a_header first one_block-Runs first_added) (omega arith) (omega arith)
