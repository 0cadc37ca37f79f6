-- ===== src/Examples/Format.antt =====
-- The theorem on `MakeFS` at a system with one device.
use pancake_store.Base.{ℕ, true, Option, none, some, List, [], ◌∷◌, if◌then◌else◌}
use pancake_store.Comm.Text.{same_text}
use pancake_store.Datanode.Device.{System, proc_mounts}
use pancake_store.Pancake.{MakeFsRequest, MakeFsResponse, fs_type_pancake_by_raw}

-- No mounts, and files of sizes with one number.
abbrev files : List ℕ → Option (List ℕ)
files path =
    if same_text path proc_mounts
    then some []
    else some (b'4' ∷ b'0' ∷ b'9' ∷ b'6' ∷ b'0' ∷ b'0' ∷ b'0' ∷ b'0' ∷ [])

abbrev one_device : System
one_device = record {
  open_file = files;
  readlink = λ path size. none;
  canonical = some [];
  by_uuid = some ((b'u' ∷ []) ∷ []);
  equivalent = λ entry path. some true;
}

abbrev a_request : MakeFsRequest
a_request = record {
  device_id = 3;
  device_path = b'/' ∷ b'd' ∷ b'e' ∷ b'v' ∷ b'/' ∷ b's' ∷ b'd' ∷ b'b' ∷ [];
  fs_type = fs_type_pancake_by_raw;
}

abbrev a_response : MakeFsResponse
a_response = record { device_uuid = []; total_capacity = 0 }

abbrev opens : List ℕ → Option ℕ
opens path = some 5
