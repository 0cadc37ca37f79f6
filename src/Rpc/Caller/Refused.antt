-- ===== src/Rpc/Caller/Refused.antt =====
-- What the callers of extents, reads and writes get from the servers as they are registered.
use pancake_store.Base.{ℕ, ◌≡◌, ◌≢◌, refl, none, List, arith}
use pancake_store.Comm.ErrorCode.{rpc_caller_invoke_failed}
use pancake_store.Rpc.Method.{
  Method, add_extent, del_extent, seal_extent, list_extents, write_at, read_at,
  datanode_rpc_add_device, datanode_rpc_add_extent, datanode_rpc_del_extent,
  datanode_rpc_seal_extent, datanode_rpc_list_extents, datanode_rpc_read_at, datanode_rpc_write_at,
}
use pancake_store.Rpc.Message.{Messages}
use pancake_store.Rpc.Server.{Protocol, DatanodeServer}
use pancake_store.Rpc.Server.Registered.{ExtentServer, ExtentServer-none}
use pancake_store.Rpc.Caller.{
  Client, on_reply, call_add_extent, call_del_extent, call_seal_extent, call_list_extents,
  call_read_at, call_write_at,
}

module _ (messages : Messages) (S : Type 0) {T W : Type 0} (protocol : Protocol T)
    (client : Client W) (server : DatanodeServer messages S T) where
  -- The client is connected to the server: a procedure that has no handler there is an exception
  -- at the client, and nothing else happens.
  abbrev pub Connected : Type 0
  Connected =
      (world : W) (id : ℕ) (bytes : List ℕ)
      → protocol.handler_of server.rpc id ≡ none
      → client.invoke world id bytes ≡ (none, world)

  -- All six calls fail in this way.
  abbrev pub Refused :
      W → ((m : Method) → messages.Request m) → ((m : Method) → messages.Response m) → Type 0
  Refused world request response =
      (call_add_extent messages client world (request add_extent) (response add_extent)
        ≡ ((rpc_caller_invoke_failed, response add_extent), world))
      × (call_del_extent messages client world (request del_extent) (response del_extent)
          ≡ ((rpc_caller_invoke_failed, response del_extent), world))
      × (call_seal_extent messages client world (request seal_extent) (response seal_extent)
          ≡ ((rpc_caller_invoke_failed, response seal_extent), world))
      × (call_list_extents messages client world (request list_extents) (response list_extents)
          ≡ ((rpc_caller_invoke_failed, response list_extents), world))
      × (call_read_at messages client world (request read_at) (response read_at)
          ≡ ((rpc_caller_invoke_failed, response read_at), world))
      × (call_write_at messages client world (request write_at) (response write_at)
          ≡ ((rpc_caller_invoke_failed, response write_at), world))

  -- A caller that is connected to a server whose handlers of extents, reads and writes were
  -- registered, in any order, on a protocol that had none: each of its six calls, whatever the
  -- request, answers INVOKE_FAILED, leaves the caller's response as it was, and changes nothing at
  -- the other end.
  pub ExtentServer-Refused :
      Connected
      → ExtentServer messages S protocol server
      → (world : W) (request : (m : Method) → messages.Request m)
        (response : (m : Method) → messages.Response m)
      → Refused world request response
  unfolding call_add_extent call_del_extent call_seal_extent call_list_extents call_read_at
      call_write_at on_reply
  ExtentServer-Refused connected registered world request response =
      let fails = λ (id : ℕ) (other : id ≢ datanode_rpc_add_device) (bytes : List ℕ).
        connected world id bytes
          (ExtentServer-none messages S protocol server id registered other) in
      (
        rw (fails datanode_rpc_add_extent (omega arith) _) refl,
        rw (fails datanode_rpc_del_extent (omega arith) _) refl,
        rw (fails datanode_rpc_seal_extent (omega arith) _) refl,
        rw (fails datanode_rpc_list_extents (omega arith) _) refl,
        rw (fails datanode_rpc_read_at (omega arith) _) refl,
        rw (fails datanode_rpc_write_at (omega arith) _) refl,
      )
