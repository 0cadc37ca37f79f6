-- ===== src/Pancake.antt =====
-- src/datanode/storage/engine/pancake/pancake.{h,cc} and src/datanode/storage/engine/engine.h: the
-- engine, and how it makes a file system.
pub mod Extents
pub mod Engine
pub mod Format
use pancake_store.Base.{
  ℕ, zero, suc, ◌+◌, ◌*◌, ◌%◌, ◌^◌, ◌*◌, Bool, true, false, not, Option, none, some, List, [], ◌∷◌,
  ◌++◌, ◌==◌, ltb, if◌then◌else◌,
}
use pancake_store.Comm.ErrorCode.{
  ErrorCode, pancake_store_ok, pancake_store_code_error, datanode_device_already_mounted,
  datanode_storage_device_capacity_too_small, is_not_ok,
}
use pancake_store.Io
use pancake_store.Io.{PancakeIo, new_io}
use pancake_store.Layout.{
  k_min_device_size, k_extent_block_size, PancakeFsLayoutItem, build_layout, extents_blocks_layout,
}
use pancake_store.Block.Bytes.{k_block_data_size, k_block_size}
use pancake_store.Datanode.Device.{System, is_device_mounted, get_device_uuid, get_device_size}

-- `FSType` of proto/device.proto.
pub data FsType : Type 0 where
  fs_type_unknown fs_type_posix fs_type_pancake_by_raw fs_type_pancake_by_spdk : FsType

pub record MakeFsRequest : Type 0 where
  pub device_id : ℕ
  pub device_path : List ℕ
  pub fs_type : FsType

pub record MakeFsResponse : Type 0 where
  pub device_uuid : List ℕ
  pub total_capacity : ℕ

-- `DeviceType` of proto/device.proto.
pub data DeviceType : Type 0 where
  device_type_unknown device_type_hdd device_type_ssd device_type_nvme_ssd : DeviceType

-- The members, but for the logger and `pancake_io_`, a pointer that no operation sets.
pub record Pancake : Type 0 where
  pub device_id : ℕ
  pub device_uuid : List ℕ
  pub device_path : List ℕ
  pub device_type : DeviceType
  pub device_capacity : ℕ
  pub block_size : ℕ

-- The members' initializers.
abbrev pub new_pancake : Pancake
new_pancake = record {
  device_id = 0;
  device_uuid = [];
  device_path = [];
  device_type = device_type_unknown;
  device_capacity = 0;
  block_size = k_block_data_size;
}

unfoldable pub get_fs_type : Pancake → FsType
get_fs_type self = fs_type_pancake_by_raw

unfoldable pub is_raw : FsType → Bool
is_raw fs_type_pancake_by_raw = true
is_raw _ = false

-- `path::filename`: what follows the last separator.
unfoldable pub after_last_separator : List ℕ → List ℕ → List ℕ
after_last_separator name [] = name
after_last_separator name (c ∷ path) =
    after_last_separator (if c == b'/' then [] else name ++ (c ∷ [])) path

unfoldable pub filename : List ℕ → List ℕ
unfolding after_last_separator
filename path = after_last_separator [] path

-- `k_extent_block_size * i` is a product of two `int`s: `none` is its overflow.
unfoldable pub dev_offset : PancakeFsLayoutItem → ℕ → Option ℕ
dev_offset extent_blocks i =
    if ltb (k_extent_block_size * i) (2 ^ 31)
    then some
        ((extent_blocks.block_index * k_block_size % 2 ^ 64 + k_extent_block_size * i) % 2 ^ 64)
    else none

-- The loop with `rounds` left at `i`, which does nothing with the offset.
unfoldable pub init_extents : ℕ → ℕ → PancakeFsLayoutItem → Option (Unit {0})
unfolding dev_offset
init_extents zero i extent_blocks = some tt
init_extents (suc rounds) i extent_blocks =
    let rest = init_extents rounds (i + 1) extent_blocks in
    elim (dev_offset extent_blocks i) [ none ↦ none | some offset ↦ rest ]

-- What an operation answers, and what it leaves.
pub record Made : Type 0 where
  pub code : ErrorCode
  pub engine : Pancake
  pub response : MakeFsResponse

module _ {F : Type 0} (system : System) (open_file_dma : List ℕ → Option F) where
  -- From the layout on. The file that was opened is dropped.
  unfoldable pub init_device : Pancake → MakeFsRequest → MakeFsResponse → Made
  unfolding Io.init
  init_device self request response =
      let err_code = (Io.init open_file_dma new_io request.device_path request.device_id).0 in
      if is_not_ok err_code
      then record { code = err_code; engine = self; response = response }
      else record { code = pancake_store_ok; engine = self; response = response }

  -- From the size of the device on.
  unfoldable pub check_size : Pancake → MakeFsRequest → MakeFsResponse → Made
  unfolding init_device filename
  check_size self request response =
      let device_size_res = get_device_size system (filename request.device_path) in
      if is_not_ok device_size_res.0
      then record { code = device_size_res.0; engine = self; response = response }
      else if ltb device_size_res.1 k_min_device_size
      then record {
        code = datanode_storage_device_capacity_too_small;
        engine = self;
        response = response;
      }
      else init_device (record self { device_capacity = device_size_res.1 }) request response

  -- Up to the loop.
  unfoldable pub check_device : Pancake → MakeFsRequest → MakeFsResponse → Made
  unfolding is_raw check_size
  check_device self request response =
      let stopped = λ (e : ErrorCode).
        let m : Made = record { code = e; engine = self; response = response } in m in
      let mounted_res = is_device_mounted system request.device_path in
      let get_uuid_res = get_device_uuid system request.device_path in
      if not (is_raw request.fs_type)
      then stopped pancake_store_code_error
      else if is_not_ok mounted_res.0
      then stopped mounted_res.0
      else if mounted_res.1
      then stopped datanode_device_already_mounted
      else if is_not_ok get_uuid_res.0
      then stopped get_uuid_res.0
      else check_size self request response

  -- `none` is the overflow of an `int` in the loop.
  unfoldable pub make_fs : Pancake → MakeFsRequest → MakeFsResponse → Option Made
  unfolding check_device init_extents
  make_fs self request response =
      let checked = check_device self request response in
      let extent_blocks = extents_blocks_layout (build_layout checked.engine.device_capacity) in
      if is_not_ok checked.code
      then some checked
      else elim (init_extents extent_blocks.block_count 0 extent_blocks) [
        | none ↦ none
        | some done ↦ some checked
      ]
