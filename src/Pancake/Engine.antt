-- ===== src/Pancake/Engine.antt =====
-- The interface of the engines, src/datanode/storage/engine/engine.h, and the operations of
-- pancake.cc other than `MakeFS`: their bodies are empty.
use pancake_store.Base.{ℕ, Option, none, List}
use mathlib.Core.Option
use pancake_store.Comm.ErrorCode.{ErrorCode}
use pancake_store.Datanode.Device.{System}
use pancake_store.Pancake.{
  FsType, MakeFsRequest, MakeFsResponse, Pancake, Made, make_fs, get_fs_type,
}

pub record MountRequest : Type 0 where
  pub device_id : ℕ
  pub device_path : List ℕ
  pub device_uuid : List ℕ
  pub fs_type : FsType
  pub total_capacity : ℕ

pub data MountResponse : Type 0 where
  mount_response : MountResponse

-- An engine with the state `E`; `I` is the message `ExtentInfo`. An operation returns its code and
-- what it leaves of the engine, and of the response where it has one. `none` is undefined
-- behaviour, such as a function that ends without the value that it has to return.
pub record AbstractEngine (I E : Type 0) : Type 0 where
  pub make_fs : E → MakeFsRequest → MakeFsResponse → Option (ErrorCode × E × MakeFsResponse)
  pub mount : E → MountRequest → MountResponse → Option (ErrorCode × E × MountResponse)
  pub read_at : E → ℕ → ℕ → ℕ → Option (ErrorCode × E)
  pub write_at : E → ℕ → List ℕ → ℕ → Option (ErrorCode × E)
  pub add_extent : E → I → Option (ErrorCode × E)
  pub del_extent : E → ℕ → Option (ErrorCode × E)
  pub recover_extent : E → ℕ → Option (ErrorCode × E)
  pub get_fs_type : E → FsType
  pub device_id : E → ℕ
  pub device_uuid : E → List ℕ
  pub device_path : E → List ℕ
  pub get_total_capacity : E → Option ℕ
  pub get_free_capacity : E → Option ℕ
  pub get_used_capacity : E → Option ℕ
  pub get_allocate_capacity : E → Option ℕ

unfoldable pub mount :
    Pancake → MountRequest → MountResponse → Option (ErrorCode × Pancake × MountResponse)
mount self request response = none

unfoldable pub read_at : Pancake → ℕ → ℕ → ℕ → Option (ErrorCode × Pancake)
read_at self ext_id offset size = none

unfoldable pub write_at : Pancake → ℕ → List ℕ → ℕ → Option (ErrorCode × Pancake)
write_at self ext_id bytes offset = none

unfoldable pub add_extent : {I : Type 0} → Pancake → I → Option (ErrorCode × Pancake)
add_extent self ext_info = none

unfoldable pub del_extent : Pancake → ℕ → Option (ErrorCode × Pancake)
del_extent self ext_id = none

unfoldable pub recover_extent : Pancake → ℕ → Option (ErrorCode × Pancake)
recover_extent self ext_id = none

unfoldable pub device_id : Pancake → ℕ
device_id self = self.device_id

unfoldable pub device_uuid : Pancake → List ℕ
device_uuid self = self.device_uuid

unfoldable pub device_path : Pancake → List ℕ
device_path self = self.device_path

-- Its body is the word `return` alone.
unfoldable pub get_total_capacity : Pancake → Option ℕ
get_total_capacity self = none

unfoldable pub get_free_capacity : Pancake → Option ℕ
get_free_capacity self = none

unfoldable pub get_used_capacity : Pancake → Option ℕ
get_used_capacity self = none

unfoldable pub get_allocate_capacity : Pancake → Option ℕ
get_allocate_capacity self = none

module _ {F : Type 0} (system : System) (open_file_dma : List ℕ → Option F) where
  -- The class `Pancake` as an engine.
  unfoldable pub pancake_engine : {I : Type 0} → AbstractEngine I Pancake
  pancake_engine = record {
    make_fs = λ self request response.
        Option.map (λ (made : Made). (made.code, made.engine, made.response))
          (make_fs system open_file_dma self request response);
    mount = mount;
    read_at = read_at;
    write_at = write_at;
    add_extent = add_extent;
    del_extent = del_extent;
    recover_extent = recover_extent;
    get_fs_type = get_fs_type;
    device_id = device_id;
    device_uuid = device_uuid;
    device_path = device_path;
    get_total_capacity = get_total_capacity;
    get_free_capacity = get_free_capacity;
    get_used_capacity = get_used_capacity;
    get_allocate_capacity = get_allocate_capacity;
  }
