-- ===== src/Datanode/Device.antt =====
-- src/datanode/comm/device.{h,cc}: what the datanode asks the system about a device.
pub mod Mounted
use pancake_store.Base.{
  ℕ, ◌*◌, ◌-◌, ◌%◌, ◌^◌, Bool, true, false, Option, none, some, List, [], ◌∷◌, ◌++◌, if◌then◌else◌,
}
use pancake_store.Comm.ErrorCode.{
  ErrorCode, pancake_store_ok, datanode_device_read_link_failed, datanode_device_file_not_exist,
  datanode_device_file_system_error, is_not_ok,
}
use pancake_store.Comm.Text.{c_str, same_text, getlines, first_word, read_uint64}

-- The system, as it is during a call. `open_file` is what is in a file that can be opened, `readlink`
-- what it fills of a buffer of the size given. The names in /dev/disk/by-uuid are `by_uuid`, and
-- `equivalent` compares one with a path; both may throw, which is `none`. `canonical` is the call in
-- `GetDeviceUUID`, which is given the very path that is being declared: reading that is undefined
-- behaviour, of which nothing follows. The model covers the executions in which the call returns a
-- path, any one, or throws, which is `none`.
pub record System : Type 0 where
  pub open_file : List ℕ → Option (List ℕ)
  pub readlink : List ℕ → ℕ → Option (List ℕ)
  pub canonical : Option (List ℕ)
  pub by_uuid : Option (List (List ℕ))
  pub equivalent : List ℕ → List ℕ → Option Bool

abbrev pub k_path_max : ℕ
k_path_max = 4096

abbrev pub proc_mounts : List ℕ
proc_mounts = b'/' ∷ b'p' ∷ b'r' ∷ b'o' ∷ b'c' ∷ b'/' ∷ b'm' ∷ b'o' ∷ b'u' ∷ b'n' ∷ b't' ∷ b's' ∷ []

unfoldable pub uuid_path : List ℕ → List ℕ
uuid_path uuid =
    (b'/' ∷ b'd' ∷ b'e' ∷ b'v' ∷ b'/' ∷ b'd' ∷ b'i' ∷ b's' ∷ b'k' ∷ b'/' ∷ b'b' ∷ b'y' ∷ b'-' ∷ b'u'
      ∷ b'u' ∷ b'i' ∷ b'd' ∷ b'/' ∷ [])
    ++ uuid

abbrev pub sys_block : List ℕ
sys_block = b'/' ∷ b's' ∷ b'y' ∷ b's' ∷ b'/' ∷ b'b' ∷ b'l' ∷ b'o' ∷ b'c' ∷ b'k' ∷ b'/' ∷ []

unfoldable pub block_size_path : List ℕ → List ℕ
block_size_path path =
    sys_block
    ++ (path
        ++ (b'/' ∷ b'q' ∷ b'u' ∷ b'e' ∷ b'u' ∷ b'e' ∷ b'/' ∷ b'l' ∷ b'o' ∷ b'g' ∷ b'i' ∷ b'c' ∷ b'a'
            ∷ b'l' ∷ b'_' ∷ b'b' ∷ b'l' ∷ b'o' ∷ b'c' ∷ b'k' ∷ b'_' ∷ b's' ∷ b'i' ∷ b'z' ∷ b'e'
            ∷ []))

unfoldable pub device_size_path : List ℕ → List ℕ
device_size_path device_name = sys_block ++ (device_name ++ (b'/' ∷ b's' ∷ b'i' ∷ b'z' ∷ b'e' ∷ []))

-- The loop over the lines.
unfoldable pub mounted_loop : List (List ℕ) → List ℕ → Bool
mounted_loop [] device_path = false
mounted_loop (line ∷ lines) device_path =
    let rest = mounted_loop lines device_path in
    if same_text (first_word line) device_path then true else rest

-- The loop over the names.
unfoldable pub uuid_loop :
    (List ℕ → List ℕ → Option Bool) → List (List ℕ) → List ℕ → ErrorCode × List ℕ
uuid_loop equivalent [] dev_path = (datanode_device_file_not_exist, [])
uuid_loop equivalent (entry ∷ entries) dev_path =
    let rest = uuid_loop equivalent entries dev_path in
    elim (equivalent entry (c_str dev_path)) [
      | none ↦ (datanode_device_file_system_error, [])
      | some same ↦ if same then (pancake_store_ok, entry) else rest
    ]

module _ (system : System) where
  unfoldable pub get_device_path_by_uuid : List ℕ → ErrorCode × List ℕ
  unfolding uuid_path
  get_device_path_by_uuid uuid = elim (system.readlink (c_str (uuid_path uuid)) (k_path_max - 1)) [
    | none ↦ (datanode_device_read_link_failed, [])
    | some real_path ↦ (pancake_store_ok, real_path)
  ]

  unfoldable pub is_device_mounted : List ℕ → ErrorCode × Bool
  unfolding mounted_loop
  is_device_mounted device_path = elim (system.open_file proc_mounts) [
    | none ↦ (datanode_device_file_not_exist, false)
    | some mounts ↦ (pancake_store_ok, mounted_loop (getlines mounts) device_path)
  ]

  unfoldable pub get_device_block_size : List ℕ → ErrorCode × ℕ
  unfolding block_size_path
  get_device_block_size path = elim (system.open_file (block_size_path path)) [
    | none ↦ (datanode_device_file_not_exist, 0)
    | some size_file ↦ (pancake_store_ok, read_uint64 size_file)
  ]

  unfoldable pub get_device_block_count : List ℕ → ErrorCode × ℕ
  unfolding device_size_path
  get_device_block_count device_name = elim (system.open_file (device_size_path device_name)) [
    | none ↦ (datanode_device_file_not_exist, 0)
    | some size_file ↦ (pancake_store_ok, read_uint64 size_file)
  ]

  unfoldable pub get_device_size : List ℕ → ErrorCode × ℕ
  unfolding get_device_block_size get_device_block_count
  get_device_size device_name =
      let block_size_res = get_device_block_size device_name in
      let block_cnt_res = get_device_block_count device_name in
      if is_not_ok block_size_res.0
      then (block_size_res.0, 0)
      else if is_not_ok block_cnt_res.0
      then (block_cnt_res.0, 0)
      else (pancake_store_ok, block_size_res.1 * block_cnt_res.1 % 2 ^ 64)

  unfoldable pub get_device_uuid : List ℕ → ErrorCode × List ℕ
  unfolding uuid_loop
  get_device_uuid dev_path = elim system.canonical [
    | none ↦ (datanode_device_file_system_error, [])
    | some device_path ↦ elim system.by_uuid [
      | none ↦ (datanode_device_file_system_error, [])
      | some entries ↦ uuid_loop system.equivalent entries dev_path
    ]
  ]
