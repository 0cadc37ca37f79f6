-- ===== src/Examples/Datanode.antt =====
-- The theorems on the configuration, the manager service and the mounts at concrete inputs.
use pancake_store.Base.{
  ℕ, ◌≡◌, ◌≢◌, ◌⊎◌, refl, Bool, true, false, Option, none, some, List, [], ◌∷◌, arith,
  if◌then◌else◌,
}
use pancake_store.Comm.ErrorCode.{pancake_store_ok, pancake_store_yaml_config_invalid}
use pancake_store.Comm.Text.{same_text, is_space}
use pancake_store.Datanode.Config.{Yaml, Config, new_config, check_config, run, started}
use pancake_store.Datanode.Config.Parsed.{run-started}
use pancake_store.Datanode.Config.Checked.{IsAccepted, check_config-IsAccepted}
use pancake_store.Datanode.Manager.{
  AddDeviceRequest, ManagerService, new_service, handle_add_device, start,
}
use pancake_store.Datanode.Manager.Answers
use pancake_store.Datanode.Manager.Answers.{
  Reason, handle_add_device_answers, after, handle_add_device-after,
}
use pancake_store.Datanode.Manager.Start.{start_throws}
use pancake_store.Datanode.Device.{System, proc_mounts, is_device_mounted}
use pancake_store.Datanode.Device.Mounted.{Mount, Mounts, printed, is_device_mounted-printed}
use pancake_store.Rpc.Server.{DatanodeDeviceServer}
use pancake_store.Examples.Rpc.{small_messages, table, Table, no_handlers, put-RefusesTaken}

-- Documents: a map whose keys all have the same value, a scalar, or neither.
data Node : Type 0 where
  absent : Node
  scalar : ℕ → Node
  mapping : Node → Node

abbrev node_is_defined : Node → Bool
node_is_defined absent = false
node_is_defined _ = true

abbrev node_is_map : Node → Bool
node_is_map (mapping n) = true
node_is_map _ = false

abbrev node_is_scalar : Node → Bool
node_is_scalar (scalar v) = true
node_is_scalar _ = false

abbrev node_get : Node → List ℕ → Node
node_get (mapping n) key = n
node_get _ key = absent

abbrev node_as_string : Node → Option (List ℕ)
node_as_string (scalar v) = some (v ∷ [])
node_as_string _ = none

abbrev node_as_uint16 : Node → Option ℕ
node_as_uint16 (scalar v) = some v
node_as_uint16 _ = none

node_no_number : (n : Node) → node_is_scalar n ≡ false → node_as_uint16 n ≡ none
node_no_number (scalar v) h = cc
node_no_number absent h = refl
node_no_number (mapping n) h = refl

-- Every file is a map of scalars.
abbrev documents : Yaml Node
documents = record {
  load_file = λ path. some (mapping (scalar 8080));
  is_defined = node_is_defined;
  is_map = node_is_map;
  is_scalar = node_is_scalar;
  get = node_get;
  as_string = node_as_string;
  as_uint16 = node_as_uint16;
  as_uint16_lem = node_no_number;
}

-- The only address.
abbrev local_host : List ℕ
local_host = b'1' ∷ b'2' ∷ b'7' ∷ b'.' ∷ b'0' ∷ b'.' ∷ b'0' ∷ b'.' ∷ b'1' ∷ []

abbrev only_local : List ℕ → ℕ
only_local text = if same_text text local_host then 1 else 0

run-started_example : run documents only_local false (b'c' ∷ []) new_config ≢ started 8080
run-started_example = run-started documents only_local false (b'c' ∷ []) new_config 8080

abbrev a_config : Config
a_config = record {
  datanode_id = b'n' ∷ [];
  datanode_ip = local_host;
  cluster_id = b'c' ∷ [];
  http_server_port = 8080;
  manager_service_port = 8081;
  data_service_port_min = 9000;
  data_service_port_max = 9100;
}

check_config-IsAccepted_example :
    ((check_config only_local a_config ≡ pancake_store_ok) × IsAccepted only_local a_config)
    ⊎ ((check_config only_local a_config ≡ pancake_store_yaml_config_invalid)
        × (¬ IsAccepted only_local a_config))
check_config-IsAccepted_example = check_config-IsAccepted only_local a_config

-- A request is the number of its disk, for this cluster and datanode.
abbrev disk_of : List ℕ → ℕ
disk_of [] = 0
disk_of (id ∷ rest) = id

abbrev request_fields : AddDeviceRequest small_messages
request_fields = record {
  cluster_id = λ request. b'c' ∷ [];
  datanode_id = λ request. b'n' ∷ [];
  disk_id = disk_of;
}

handle_add_device_answers_example :
    Reason small_messages ℕ request_fields a_config new_service
      (0 ∷ [])
      (handle_add_device small_messages ℕ request_fields a_config new_service
        (0 ∷ [])
        pancake_store_ok).0.0
    × ((handle_add_device small_messages ℕ request_fields a_config new_service
          (0 ∷ [])
          pancake_store_ok).0.1
        ≡ pancake_store_ok)
    × ((handle_add_device small_messages ℕ request_fields a_config new_service
          (0 ∷ [])
          pancake_store_ok).1
        ≡ new_service)
handle_add_device_answers_example =
    handle_add_device_answers small_messages ℕ request_fields a_config new_service (0 ∷ [])
      pancake_store_ok

handle_add_device-after_example :
    (handle_add_device small_messages ℕ request_fields a_config
      (after small_messages ℕ request_fields a_config new_service
        (Answers.adds (7 ∷ []) pancake_store_ok ∷ []))
      (7 ∷ [])
      pancake_store_ok).0.0
    ≡ pancake_store_ok
handle_add_device-after_example =
    handle_add_device-after small_messages ℕ request_fields a_config
      (Answers.adds (7 ∷ []) pancake_store_ok ∷ []) (7 ∷ []) pancake_store_ok
      (refl, refl, omega arith)

abbrev manager_server : DatanodeDeviceServer small_messages (ManagerService ℕ) Table
manager_server = record {
  rpc = no_handlers;
  service_ptr = none;
  add_device_handler = none;
  del_device_handler = none;
}

start_throws_example :
    start small_messages ℕ request_fields a_config table manager_server new_service ≡ none
start_throws_example =
    start_throws small_messages ℕ request_fields a_config table put-RefusesTaken manager_server
      new_service refl

-- A system with two mounts.
abbrev two_mounts : List Mount
two_mounts =
    record {
      device = b'/' ∷ b'd' ∷ b'e' ∷ b'v' ∷ b'/' ∷ b's' ∷ b'd' ∷ b'a' ∷ [];
      others = b'/' ∷ b' ' ∷ b'e' ∷ b'x' ∷ b't' ∷ b'4' ∷ [];
    }
    ∷ record {
      device = b'p' ∷ b'r' ∷ b'o' ∷ b'c' ∷ [];
      others = b'/' ∷ b'p' ∷ b'r' ∷ b'o' ∷ b'c' ∷ b' ' ∷ b'p' ∷ b'r' ∷ b'o' ∷ b'c' ∷ [];
    }
    ∷ []

abbrev mounts_file : List ℕ → Option (List ℕ)
mounts_file path = if same_text path proc_mounts then some (printed two_mounts) else none

abbrev a_system : System
a_system = record {
  open_file = mounts_file;
  readlink = λ path size. none;
  canonical = none;
  by_uuid = none;
  equivalent = λ entry path. none;
}

is_device_mounted-printed_example :
    ((is_device_mounted a_system (b'/' ∷ b'd' ∷ b'e' ∷ b'v' ∷ b'/' ∷ b's' ∷ b'd' ∷ b'b' ∷ [])
        ≡ (pancake_store_ok, true))
      × Mounts (b'/' ∷ b'd' ∷ b'e' ∷ b'v' ∷ b'/' ∷ b's' ∷ b'd' ∷ b'b' ∷ []) two_mounts)
    ⊎ ((is_device_mounted a_system (b'/' ∷ b'd' ∷ b'e' ∷ b'v' ∷ b'/' ∷ b's' ∷ b'd' ∷ b'b' ∷ [])
          ≡ (pancake_store_ok, false))
        × (¬ Mounts (b'/' ∷ b'd' ∷ b'e' ∷ b'v' ∷ b'/' ∷ b's' ∷ b'd' ∷ b'b' ∷ []) two_mounts))
unfolding same_text is_space
is_device_mounted-printed_example =
    is_device_mounted-printed a_system (b'/' ∷ b'd' ∷ b'e' ∷ b'v' ∷ b'/' ∷ b's' ∷ b'd' ∷ b'b' ∷ [])
      two_mounts refl
      (
        (λ e. cc, (refl, (refl, (refl, (refl, (refl, (refl, (refl, (refl, tt)))))))), omega arith),
        ((λ e. cc, (refl, (refl, (refl, (refl, tt)))), omega arith), tt),
      )
