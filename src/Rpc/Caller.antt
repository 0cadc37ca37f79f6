-- ===== src/Rpc/Caller.antt =====
-- src/pkg/rpc_caller/datanode_caller.{h,cc} and datanode_manager_caller.{h,cc}: the calls of the
-- remote procedures.
pub mod Answers
pub mod Refused
use pancake_store.Base.{ℕ, Bool, true, false, Option, none, some, List, if◌then◌else◌}
use pancake_store.Comm.ErrorCode.{
  ErrorCode, rpc_caller_invoke_failed, rpc_caller_response_parse_failed,
}
use pancake_store.Rpc.Method.{
  Method, add_device, del_device, add_extent, del_extent, seal_extent, list_extents, write_at,
  read_at, datanode_rpc_add_device, datanode_rpc_del_device, datanode_rpc_add_extent,
  datanode_rpc_del_extent, datanode_rpc_seal_extent, datanode_rpc_list_extents,
  datanode_rpc_read_at, datanode_rpc_write_at,
}
use pancake_store.Rpc.Message.{Codec, Messages}

-- `make_client` and a call: the number of the procedure and the request's bytes go to the other
-- end, in the state `W` of all that is not the caller. `none` is an exception.
pub record Client (W : Type 0) : Type 0 where
  pub invoke : W → ℕ → List ℕ → Option (List ℕ) × W
  pub stop : W → Option W

module _ (messages : Messages) where
  -- The two continuations of every call. `ret` is the bool of `ParseFromString`, of which a code
  -- other than 0 is taken for a failure.
  unfoldable pub on_reply :
      (m : Method) → messages.Response m → Option (List ℕ) → ErrorCode × messages.Response m
  on_reply m response none = (rpc_caller_invoke_failed, response)
  on_reply m response (some resp_str) =
      let parsed = (messages.response_codec m).parse_from_string resp_str in
      let ret = parsed.0 in
      if ret
      then (rpc_caller_response_parse_failed, parsed.1)
      else (messages.error_code m parsed.1, parsed.1)

module _ (messages : Messages) {W : Type 0} (client : Client W) where
  -- What a call answers: the code, and the caller's response.
  abbrev pub Answer : Method → Type 0
  Answer m = (ErrorCode × messages.Response m) × W

  unfoldable pub call_add_extent :
      W → messages.Request add_extent → messages.Response add_extent → Answer add_extent
  unfolding on_reply
  call_add_extent world request response =
      let reply =
        client.invoke world datanode_rpc_add_extent
          ((messages.request_codec add_extent).serialize_as_string request) in
      (on_reply messages add_extent response reply.0, reply.1)

  unfoldable pub call_del_extent :
      W → messages.Request del_extent → messages.Response del_extent → Answer del_extent
  unfolding on_reply
  call_del_extent world request response =
      let reply =
        client.invoke world datanode_rpc_del_extent
          ((messages.request_codec del_extent).serialize_as_string request) in
      (on_reply messages del_extent response reply.0, reply.1)

  unfoldable pub call_seal_extent :
      W → messages.Request seal_extent → messages.Response seal_extent → Answer seal_extent
  unfolding on_reply
  call_seal_extent world request response =
      let reply =
        client.invoke world datanode_rpc_seal_extent
          ((messages.request_codec seal_extent).serialize_as_string request) in
      (on_reply messages seal_extent response reply.0, reply.1)

  unfoldable pub call_list_extents :
      W → messages.Request list_extents → messages.Response list_extents → Answer list_extents
  unfolding on_reply
  call_list_extents world request response =
      let reply =
        client.invoke world datanode_rpc_list_extents
          ((messages.request_codec list_extents).serialize_as_string request) in
      (on_reply messages list_extents response reply.0, reply.1)

  unfoldable pub call_read_at :
      W → messages.Request read_at → messages.Response read_at → Answer read_at
  unfolding on_reply
  call_read_at world request response =
      let reply =
        client.invoke world datanode_rpc_read_at
          ((messages.request_codec read_at).serialize_as_string request) in
      (on_reply messages read_at response reply.0, reply.1)

  unfoldable pub call_write_at :
      W → messages.Request write_at → messages.Response write_at → Answer write_at
  unfolding on_reply
  call_write_at world request response =
      let reply =
        client.invoke world datanode_rpc_write_at
          ((messages.request_codec write_at).serialize_as_string request) in
      (on_reply messages write_at response reply.0, reply.1)

  unfoldable pub call_add_device :
      W → messages.Request add_device → messages.Response add_device → Answer add_device
  unfolding on_reply
  call_add_device world request response =
      let reply =
        client.invoke world datanode_rpc_add_device
          ((messages.request_codec add_device).serialize_as_string request) in
      (on_reply messages add_device response reply.0, reply.1)

  unfoldable pub call_del_device :
      W → messages.Request del_device → messages.Response del_device → Answer del_device
  unfolding on_reply
  call_del_device world request response =
      let reply =
        client.invoke world datanode_rpc_del_device
          ((messages.request_codec del_device).serialize_as_string request) in
      (on_reply messages del_device response reply.0, reply.1)

-- A caller, which must be closed before it is destroyed.
pub record Caller : Type 0 where
  pub closed : Bool

-- The member's initializer.
abbrev pub new_caller : Caller
new_caller = record { closed = false }

module _ {W : Type 0} (client : Client W) where
  unfoldable pub close : W → Caller → Option (Caller × W)
  close world caller = elim (client.stop world) [
    | none ↦ none
    | some world' ↦ some (record caller { closed = true }, world')
  ]

-- `none` is `std::terminate`.
unfoldable pub destroy : Caller → Option (Unit {0})
destroy caller = if caller.closed then some tt else none

-- The class of the two calls that concern devices, which has a `Close` and a destructor of its own.
pub record ManagerCaller : Type 0 where
  pub closed : Bool

-- The member's initializer.
abbrev pub new_manager_caller : ManagerCaller
new_manager_caller = record { closed = false }

module _ {W : Type 0} (client : Client W) where
  unfoldable pub close_manager : W → ManagerCaller → Option (ManagerCaller × W)
  close_manager world caller = elim (client.stop world) [
    | none ↦ none
    | some world' ↦ some (record caller { closed = true }, world')
  ]

-- `none` is `std::terminate`.
unfoldable pub destroy_manager : ManagerCaller → Option (Unit {0})
destroy_manager caller = if caller.closed then some tt else none
