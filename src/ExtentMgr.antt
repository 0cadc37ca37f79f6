-- ===== src/ExtentMgr.antt =====
-- src/datanode/storage/engine/pancake/pancake_extent_mgr.{h,cc}: which extent blocks of a device
-- are in use, and by which extents. `with_lock` makes each operation one step. `AddExtent`'s lambda
-- takes the parameter and a local by reference and awaits the writes: as with the client program,
-- the model takes what it finds there as what was there when it was called.
mod Manager
pub mod Cursor
pub mod Turns
pub mod Bits
pub mod Clone
pub mod Answers
pub mod Init
pub mod Commit
pub mod Add
pub mod AddExtent
pub mod Reach
pub mod Delete
pub mod Deleted
pub mod Calls
pub mod Used
pub mod FromLayout
pub mod Owned
pub mod Mark
pub mod Writes
pub mod Mirrored
pub mod Added
pub mod Succeeds
unfoldable pub use Manager.*
use Prim.Native.Nat.{bit_and, bit_or, min}
use pancake_store.Base.{
  ℕ, zero, suc, ◌+◌, ◌-◌, ◌*◌, ◌/◌, ◌%◌, ◌^◌, Bool, true, false, not, Option, none, some, List, [],
  ◌∷◌, ◌++◌, length, get_or, set, take, replicate, ◌==◌, ltb, if◌then◌else◌, get_elem?,
}
use pancake_store.Comm.ErrorCode.{
  ErrorCode, pancake_store_ok, pancake_store_code_error, datanode_storage_fs_init_failed,
  datanode_storage_fs_full, datanode_storage_internal_error, datanode_storage_extent_already_exists,
  is_not_ok,
}
use pancake_store.Block.Host.{Host}
use pancake_store.Block.Bytes.{k_block_size, k_block_data_size}
use pancake_store.Block.Footer.{BlockFooter, fill_without_extent_id}
use pancake_store.Block.Bitmap
use pancake_store.Block.Bitmap.{BitMapBlock}
use pancake_store.Block.ExtentHeader
use pancake_store.Block.ExtentHeader.{ExtentHeaderBlock}
use pancake_store.Io.{File, is_block_align, read_at, write_at}
use pancake_store.Layout.{sizeof_uint8}

-- What an operation answers, and what it leaves: the manager, the device, the caller's header.
pub record Answer (S : Type 0) : Type 0 where
  pub code : ErrorCode
  pub manager : ExtentManager
  pub device : S
  pub header : ExtentHeaderBlock

module _ {S : Type 0} (host : Host) (file : File S) where
  -- What both operations do when `WriteAt` has answered: an error is passed on; else the bit in
  -- memory is set to `used` and the map becomes `map`. `none` is a write past the bitmap.
  unfoldable pub finish_commit :
      ExtentManager
      → ExtentHeaderBlock
      → ℕ
      → Bool
      → List (ℕ × ℕ)
      → ErrorCode × S
      → Option (Answer S)
  finish_commit m header ext_block_index used map result =
      if is_not_ok result.0
      then some (record { code = result.0; manager = m; device = result.1; header = header })
      else if ltb ext_block_index (length m.bitmap)
      then some (record {
        code = pancake_store_ok;
        manager = record m { bitmap = set m.bitmap ext_block_index used; extent_offset_map = map };
        device = result.1;
        header = header;
      })
      else none

  -- The last steps of both operations, from the footer on. `none` is also an abort.
  unfoldable pub commit_bit :
      ExtentManager
      → S
      → ExtentHeaderBlock
      → ℕ
      → BitMapBlock
      → Bool
      → List (ℕ × ℕ)
      → Option (Answer S)
  unfolding finish_commit
  commit_bit m device header ext_block_index block used map =
      let filled : BitMapBlock = record block {
        footer = fill_without_extent_id k_block_data_size block.footer;
      } in
      elim (Bitmap.serialize host filled) [
        | none ↦ none
        | some (written, bytes) ↦ finish_commit m header ext_block_index used map (
            write_at file device (bitmap_block_device_offset m (bitmap_index ext_block_index))
              bytes)
      ]

  -- `AddExtent` when the header's `WriteAt` has answered.
  unfoldable pub finish_place :
      ExtentManager → ExtentHeaderBlock → ℕ → ErrorCode × S → Option (Answer S)
  unfolding commit_bit
  finish_place m header ext_block_index result =
      if is_not_ok result.0
      then some (record { code = result.0; manager = m; device = result.1; header = header })
      else elim (clone_bit_map_block m ext_block_index) [
        | none ↦ none
        | some block ↦
            commit_bit m result.1 header ext_block_index
              (mark_extent_block_used block ext_block_index) true
              ((header.extent_id, extent_block_device_offset m ext_block_index)
                ∷ m.extent_offset_map)
      ]

  -- `AddExtent` from `// got extent block` on.
  unfoldable pub place_extent : ExtentManager → S → ExtentHeaderBlock → ℕ → Option (Answer S)
  unfolding finish_place
  place_extent m device header ext_block_index =
      elim (ExtentHeader.serialize host (record header { bitmap_ext_index = ext_block_index })) [
        | none ↦ none
        | some (header', bytes) ↦
            finish_place m header' ext_block_index
              (write_at file device (extent_block_device_offset m ext_block_index) bytes)
      ]

  unfoldable pub add_extent : ExtentManager → S → ExtentHeaderBlock → Option (Answer S)
  unfolding place_extent contains find_unused
  add_extent m device header =
      let stopped = λ (e : ErrorCode) (m' : ExtentManager).
        let a : Answer S = record { code = e; manager = m'; device = device; header = header } in
        a in
      if contains m.extent_offset_map header.extent_id
      then some (stopped datanode_storage_extent_already_exists m)
      else if m.used_cnt == m.extent_block_count
      then some (stopped datanode_storage_fs_full m)
      else elim (find_unused m.extent_block_count m.bitmap_block_count m.bitmap m.cursor) [
        | fault ↦ none
        | exhausted c ↦ some (stopped pancake_store_code_error (record m { cursor = c }))
        | found i c ↦ place_extent (record m { cursor = c }) device header i
      ]

  -- `tmp` is the uninitialized `tmp_ext_header`. An extent that is not in the map is only logged.
  unfoldable pub del_extent :
      ExtentManager → S → ExtentHeaderBlock → ExtentHeaderBlock → Option (Answer S)
  unfolding commit_bit
  del_extent m device header tmp =
      let stopped = λ (e : ErrorCode).
        let a : Answer S = record { code = e; manager = m; device = device; header = header } in
        a in
      let read =
        read_at file device (extent_block_device_offset m header.bitmap_ext_index) k_block_size
          [] in
      let parsed = ExtentHeader.deserialize host tmp read.1 in
      if is_not_ok read.0
      then some (stopped read.0)
      else if is_not_ok parsed.0
      then some (stopped parsed.0)
      else if not (parsed.1.extent_id == header.extent_id)
      then some (stopped datanode_storage_internal_error)
      else elim (clone_bit_map_block m header.bitmap_ext_index) [
        | none ↦ none
        | some block ↦
            commit_bit m device header header.bitmap_ext_index
              (mark_extent_block_unused block header.bitmap_ext_index) false m.extent_offset_map
      ]
