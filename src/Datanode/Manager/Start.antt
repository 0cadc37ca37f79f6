-- ===== src/Datanode/Manager/Start.antt =====
-- How far the manager service starts.
use pancake_store.Base.{ℕ, ◌≡◌, refl, none, some, Option-cases, inl, inr}
use pancake_store.Rpc.Method.{Method, add_device, del_device, datanode_rpc_add_device}
use pancake_store.Rpc.Message.{Messages}
use pancake_store.Rpc.Server.{
  Protocol, DatanodeDeviceServer, register_add_device_handler, register_del_device_handler,
  register_device_service_ptr,
}
use pancake_store.Datanode.Config.{Config}
use pancake_store.Datanode.Manager.{AddDeviceRequest, ManagerService, start}

-- `register_handler` throws for a number that has a handler.
abbrev pub RefusesTaken : {T : Type 0} → Protocol T → Type 0
RefusesTaken {T} protocol =
    (t : T) (id : ℕ) (m m' : Method)
    → protocol.handler_of t id ≡ some m
    → protocol.register_handler t id m' ≡ none

module _ (messages : Messages) (V : Type 0) (fields : AddDeviceRequest messages) (config : Config)
    {T : Type 0} (protocol : Protocol T) where
  -- Where a number that has a handler is refused another, starting the manager service on a
  -- protocol with no handler under the number of DATANODE_RPC_ADD_DEVICE always throws: both
  -- handlers are registered under it.
  pub start_throws :
      RefusesTaken protocol
      → (rpc_server : DatanodeDeviceServer messages (ManagerService V) T) (self : ManagerService V)
      → protocol.handler_of rpc_server.rpc datanode_rpc_add_device ≡ none
      → start messages V fields config protocol rpc_server self ≡ none
  unfolding start register_add_device_handler register_del_device_handler
      register_device_service_ptr
  start_throws refuses rpc_server self free =
      elim (Option-cases
        (protocol.register_handler rpc_server.rpc datanode_rpc_add_device add_device)) [
          | inl e ↦ rw (e, start) refl
          | inr (t', e) ↦
              let taken =
                protocol.registered_lem rpc_server.rpc t' datanode_rpc_add_device add_device e
                  free in
              rw (e, start, refuses t' datanode_rpc_add_device add_device del_device taken) refl
        ]
