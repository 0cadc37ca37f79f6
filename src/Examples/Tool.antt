-- ===== src/Examples/Tool.antt =====
-- The client program and a datanode, with messages that are lists of numbers.
use pancake_store.Base.{
  ℕ, ◌+◌, ◌-◌, ◌≡◌, refl, Bool, true, false, none, some, List, [], ◌∷◌, ◌++◌, length, take, drop,
  arith,
}
use mathlib.Core.Option
use pancake_store.Comm.ErrorCode.{ErrorCode, pancake_store_ok, pancake_store_cluster_id_not_match}
use pancake_store.Rpc.Message.{Messages}
use pancake_store.Rpc.Server.{DatanodeDeviceServer, serve_add_device}
use pancake_store.Rpc.Caller.{Client}
use pancake_store.Datanode.Config.{Config, check_config}
use pancake_store.Datanode.Manager.{AddDeviceRequest, ManagerService}
use pancake_store.Tool.{NewRequest, got_response, parse_failed, client_stop, tool_request, run_tool}
use pancake_store.Tool.Answered.{registered, request_bytes, run_tool-serve}
use pancake_store.Examples.Rpc.{bytes_of, code_of}

record DeviceRequest : Type 0 where
  cluster : List ℕ
  datanode : List ℕ
  disk : ℕ

abbrev no_request : DeviceRequest
no_request = record { cluster = []; datanode = []; disk = 0 }

-- The disk, the length of the datanode's name, both raised by one, and the two names.
abbrev write_request : DeviceRequest → List ℕ
write_request r = (r.disk + 1) ∷ (length r.datanode + 1) ∷ (r.datanode ++ r.cluster)

abbrev parse_request : List ℕ → Bool × DeviceRequest
parse_request (d ∷ n ∷ names) =
    (true, record { cluster = drop (n - 1) names; datanode = take (n - 1) names; disk = d - 1 })
parse_request _ = (false, no_request)

abbrev device_messages : Messages
device_messages = record {
  Request = λ m. DeviceRequest;
  Response = λ m. ErrorCode;
  request_codec =
      λ m. record { serialize_as_string = write_request; parse_from_string = parse_request };
  response_codec = λ m. record {
    serialize_as_string = bytes_of;
    parse_from_string = λ bytes. (true, code_of bytes);
  };
  fresh = λ m. pancake_store_ok;
  error_code = λ m r. r;
  set_error_code = λ m c r. c;
  error_code_lem = λ m c r. refl;
}

abbrev device_fields : AddDeviceRequest device_messages
device_fields = record {
  cluster_id = λ r. r.cluster;
  datanode_id = λ r. r.datanode;
  disk_id = λ r. r.disk;
}

abbrev device_request : NewRequest device_messages device_fields
device_request = record {
  new_request = no_request;
  set_datanode_id = λ t r. record r { datanode = t };
  set_disk_id = λ n r. record r { disk = n };
  new_cluster_id = refl;
  datanode_id_set = λ t r. refl;
  datanode_id_cluster = λ t r. refl;
  disk_id_set = λ n r. refl;
  disk_id_cluster = λ n r. refl;
  disk_id_datanode = λ n r. refl;
}

-- The datanode that the request names, of the cluster "c".
abbrev abc_config : Config
abc_config = record {
  datanode_id = b'a' ∷ b'b' ∷ b'c' ∷ [];
  datanode_ip = b'1' ∷ [];
  cluster_id = b'c' ∷ [];
  http_server_port = 8080;
  manager_service_port = 8888;
  data_service_port_min = 9000;
  data_service_port_max = 9100;
}

abbrev one_device : ManagerService (Unit {0})
one_device = record { data_services = (7, tt) ∷ [] }

abbrev abc_server : DatanodeDeviceServer device_messages (ManagerService (Unit {0})) ℕ
abc_server =
    registered device_messages device_fields device_request (Unit {0}) abc_config 0 none one_device

-- The other end counts the calls.
abbrev abc_client : Client ℕ
abc_client = record {
  invoke = λ calls id bytes. (
    Option.map (λ (x : List ℕ × ManagerService (Unit {0})). x.0)
        (serve_add_device device_messages (ManagerService (Unit {0})) abc_server bytes),
    calls + 1,
  );
  stop = λ calls. some calls;
}

run_tool-serve_example :
    (serve_add_device device_messages
        (ManagerService (Unit {0}))
        abc_server
        (request_bytes device_messages device_fields device_request (Unit {0}) abc_config)
      ≡ some (1 ∷ [], one_device))
    × (pancake_store_cluster_id_not_match ≡ pancake_store_cluster_id_not_match)
    × (run_tool device_messages device_fields device_request abc_client 5
        ≡ record { said = got_response ∷ parse_failed ∷ client_stop ∷ []; stopped = some 6 })
unfolding tool_request check_config
run_tool-serve_example =
    run_tool-serve device_messages device_fields device_request (Unit {0}) abc_config (λ ip. 1)
      abc_client 5 6 6 0 none one_device refl
      (omega arith, (omega arith, (omega arith, (omega arith, (omega arith, tt))))) refl refl refl
      refl
