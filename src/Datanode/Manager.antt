-- ===== src/Datanode/Manager.antt =====
-- src/datanode/service/manager_service.{h,cc}: the service that the devices' server calls. All of it
-- runs on the first shard, which its assertions test.
pub mod Answers
pub mod Start
use pancake_store.Base.{
  ℕ, Bool, true, false, not, Option, none, some, List, [], ◌∷◌, ◌==◌, if◌then◌else◌,
}
use pancake_store.Comm.ErrorCode.{
  ErrorCode, pancake_store_ok, pancake_store_cluster_id_not_match,
  datanode_service_datanode_id_not_match, datanode_service_request_argument_invalid,
}
use pancake_store.Comm.Text.{same_text}
use pancake_store.Rpc.Method.{add_device, del_device}
use pancake_store.Rpc.Message.{Messages}
use pancake_store.Rpc.Server.{
  Protocol, DatanodeDeviceServer, register_device_service_ptr, register_add_device_handler,
  register_del_device_handler, Handler,
}
use pancake_store.Datanode.Config.{Config}

-- What is read of an `AddDeviceRequest`.
pub record AddDeviceRequest (messages : Messages) : Type 0 where
  pub cluster_id : messages.Request add_device → List ℕ
  pub datanode_id : messages.Request add_device → List ℕ
  pub disk_id : messages.Request add_device → ℕ

-- `data_services_`, with the values `V`.
pub record ManagerService (V : Type 0) : Type 0 where
  pub data_services : List (ℕ × V)

abbrev pub new_service : {V : Type 0} → ManagerService V
new_service = record { data_services = [] }

-- `data_services_.find(id) != data_services_.end()`.
unfoldable pub has_device : {V : Type 0} → List (ℕ × V) → ℕ → Bool
has_device [] id = false
has_device ((k, v) ∷ services) id = if k == id then true else has_device services id

module _ (messages : Messages) (V : Type 0) (fields : AddDeviceRequest messages)
    (config : Config) where
  unfoldable pub handle_add_device : Handler messages (ManagerService V) add_device
  unfolding has_device
  handle_add_device self request response =
      if not (same_text (fields.cluster_id request) config.cluster_id)
      then ((pancake_store_cluster_id_not_match, response), self)
      else if not (same_text (fields.datanode_id request) config.datanode_id)
      then ((datanode_service_datanode_id_not_match, response), self)
      else if fields.disk_id request == 0
      then ((datanode_service_request_argument_invalid, response), self)
      else if has_device self.data_services (fields.disk_id request)
      then ((pancake_store_cluster_id_not_match, response), self)
      else ((pancake_store_ok, response), self)

  unfoldable pub handle_del_device : Handler messages (ManagerService V) del_device
  handle_del_device self request response = ((pancake_store_ok, response), self)

  -- `Start` up to the server that waits for connections: `none` is an exception.
  unfoldable pub start :
      {T : Type 0}
      → Protocol T
      → DatanodeDeviceServer messages (ManagerService V) T
      → ManagerService V
      → Option (DatanodeDeviceServer messages (ManagerService V) T)
  unfolding handle_add_device handle_del_device
  start protocol rpc_server self =
      let S = ManagerService V in
      elim (register_add_device_handler messages S protocol
        (register_device_service_ptr messages S rpc_server self) handle_add_device) [
          | none ↦ none
          | some server ↦ register_del_device_handler messages S protocol server handle_del_device
        ]
