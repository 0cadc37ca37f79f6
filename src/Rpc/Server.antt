-- ===== src/Rpc/Server.antt =====
-- src/rpc/datanode.{h,cc}: the two servers, and what a registered lambda does with a request.
pub mod Requests
pub mod Registered
use pancake_store.Base.{ℕ, ◌≡◌, ◌≢◌, Bool, Option, none, some, List, [], ◌∷◌, ◌==◌, if◌then◌else◌}
use mathlib.Core.Option
use pancake_store.Comm.ErrorCode.{ErrorCode, is_not_ok}
use pancake_store.Comm.Text.{c_str}
use pancake_store.Rpc.Method.{
  Method, add_device, del_device, add_extent, del_extent, seal_extent, list_extents, write_at,
  read_at, datanode_rpc_add_device,
}
use pancake_store.Rpc.Message.{Codec, Messages}

-- `seastar::rpc::protocol<Serializer>`, as the table from numbers to the lambdas given to
-- `register_handler`, each named by its method. `none` is an exception. A number that has no
-- handler gets the one that is registered, and the other numbers keep theirs.
pub record Protocol (T : Type 0) : Type 0 where
  pub register_handler : T → ℕ → Method → Option T
  pub handler_of : T → ℕ → Option Method
  pub registered_lem :
      (t t' : T) (id : ℕ) (m : Method)
      → register_handler t id m ≡ some t'
      → handler_of t id ≡ none
      → handler_of t' id ≡ some m
  pub other_lem :
      (t t' : T) (id other : ℕ) (m : Method)
      → register_handler t id m ≡ some t'
      → other ≢ id
      → handler_of t' other ≡ handler_of t other

module _ (messages : Messages) (S : Type 0) where
  -- A handler on the service's state: the code, the response that it filled, the state.
  abbrev pub Handler : Method → Type 0
  Handler m = S → messages.Request m → messages.Response m → (ErrorCode × messages.Response m) × S

  -- The body of the registered lambdas: `ParseFromString` is not tested.
  unfoldable pub serve : (m : Method) → Handler m → S → List ℕ → List ℕ × S
  unfolding c_str
  serve m handler state request_data =
      let request = ((messages.request_codec m).parse_from_string (c_str request_data)).1 in
      let answer = handler state request (messages.fresh m) in
      let err_code = answer.0.0 in
      let response =
        if is_not_ok err_code then messages.set_error_code m err_code answer.0.1 else answer.0.1 in
      ((messages.response_codec m).serialize_as_string response, answer.1)

  -- The handlers are empty until they are registered.
  pub record DatanodeDeviceServer (T : Type 0) : Type 0 where
    pub rpc : T
    pub service_ptr : Option S
    pub add_device_handler : Option (Handler add_device)
    pub del_device_handler : Option (Handler del_device)

  pub record DatanodeServer (T : Type 0) : Type 0 where
    pub rpc : T
    pub service_ptr : Option S
    pub add_extent_handler : Option (Handler add_extent)
    pub del_extent_handler : Option (Handler del_extent)
    pub seal_extent_handler : Option (Handler seal_extent)
    pub list_extents_handler : Option (Handler list_extents)
    pub write_at_handler : Option (Handler write_at)
    pub read_at_handler : Option (Handler read_at)

  unfoldable pub register_device_service_ptr :
      {T : Type 0} → DatanodeDeviceServer T → S → DatanodeDeviceServer T
  register_device_service_ptr server service = record server { service_ptr = some service }

  unfoldable pub register_service_ptr : {T : Type 0} → DatanodeServer T → S → DatanodeServer T
  register_service_ptr server service = record server { service_ptr = some service }

  -- The member that a lambda finds through `this`, called with the service behind `service_ptr_`:
  -- `none` is the exception of an empty function, or a null pointer.
  unfoldable pub invoke :
      (m : Method) → Option (Handler m) → Option S → List ℕ → Option (List ℕ × S)
  unfolding serve
  invoke m none service request_data = none
  invoke m (some handler) none request_data = none
  invoke m (some handler) (some state) request_data = some (serve m handler state request_data)

  -- The lambdas.
  module _ {T : Type 0} where
    unfoldable pub serve_add_device : DatanodeDeviceServer T → List ℕ → Option (List ℕ × S)
    unfolding invoke
    serve_add_device server request_data =
        invoke add_device server.add_device_handler server.service_ptr request_data

    unfoldable pub serve_del_device : DatanodeDeviceServer T → List ℕ → Option (List ℕ × S)
    unfolding invoke
    serve_del_device server request_data =
        invoke del_device server.del_device_handler server.service_ptr request_data

    unfoldable pub serve_add_extent : DatanodeServer T → List ℕ → Option (List ℕ × S)
    unfolding invoke
    serve_add_extent server request_data =
        invoke add_extent server.add_extent_handler server.service_ptr request_data

    unfoldable pub serve_del_extent : DatanodeServer T → List ℕ → Option (List ℕ × S)
    unfolding invoke
    serve_del_extent server request_data =
        invoke del_extent server.del_extent_handler server.service_ptr request_data

    unfoldable pub serve_seal_extent : DatanodeServer T → List ℕ → Option (List ℕ × S)
    unfolding invoke
    serve_seal_extent server request_data =
        invoke seal_extent server.seal_extent_handler server.service_ptr request_data

    unfoldable pub serve_list_extents : DatanodeServer T → List ℕ → Option (List ℕ × S)
    unfolding invoke
    serve_list_extents server request_data =
        invoke list_extents server.list_extents_handler server.service_ptr request_data

    unfoldable pub serve_write_at : DatanodeServer T → List ℕ → Option (List ℕ × S)
    unfolding invoke
    serve_write_at server request_data =
        invoke write_at server.write_at_handler server.service_ptr request_data

    unfoldable pub serve_read_at : DatanodeServer T → List ℕ → Option (List ℕ × S)
    unfolding invoke
    serve_read_at server request_data =
        invoke read_at server.read_at_handler server.service_ptr request_data

  module _ {T : Type 0} (protocol : Protocol T) where
    unfoldable pub register_add_device_handler :
        DatanodeDeviceServer T → Handler add_device → Option (DatanodeDeviceServer T)
    register_add_device_handler server handler =
        Option.map (λ rpc. record server { rpc = rpc; add_device_handler = some handler })
          (protocol.register_handler server.rpc datanode_rpc_add_device add_device)

    unfoldable pub register_del_device_handler :
        DatanodeDeviceServer T → Handler del_device → Option (DatanodeDeviceServer T)
    register_del_device_handler server handler =
        Option.map (λ rpc. record server { rpc = rpc; del_device_handler = some handler })
          (protocol.register_handler server.rpc datanode_rpc_add_device del_device)

    unfoldable pub register_add_extent_handler :
        DatanodeServer T → Handler add_extent → Option (DatanodeServer T)
    register_add_extent_handler server handler =
        Option.map (λ rpc. record server { rpc = rpc; add_extent_handler = some handler })
          (protocol.register_handler server.rpc datanode_rpc_add_device add_extent)

    unfoldable pub register_del_extent_handler :
        DatanodeServer T → Handler del_extent → Option (DatanodeServer T)
    register_del_extent_handler server handler =
        Option.map (λ rpc. record server { rpc = rpc; del_extent_handler = some handler })
          (protocol.register_handler server.rpc datanode_rpc_add_device del_extent)

    unfoldable pub register_seal_extent_handler :
        DatanodeServer T → Handler seal_extent → Option (DatanodeServer T)
    register_seal_extent_handler server handler =
        Option.map (λ rpc. record server { rpc = rpc; seal_extent_handler = some handler })
          (protocol.register_handler server.rpc datanode_rpc_add_device seal_extent)

    unfoldable pub register_list_extents_handler :
        DatanodeServer T → Handler list_extents → Option (DatanodeServer T)
    register_list_extents_handler server handler =
        Option.map (λ rpc. record server { rpc = rpc; list_extents_handler = some handler })
          (protocol.register_handler server.rpc datanode_rpc_add_device list_extents)

    unfoldable pub register_write_at_handler :
        DatanodeServer T → Handler write_at → Option (DatanodeServer T)
    register_write_at_handler server handler =
        Option.map (λ rpc. record server { rpc = rpc; write_at_handler = some handler })
          (protocol.register_handler server.rpc datanode_rpc_add_device write_at)

    unfoldable pub register_read_at_handler :
        DatanodeServer T → Handler read_at → Option (DatanodeServer T)
    register_read_at_handler server handler =
        Option.map (λ rpc. record server { rpc = rpc; read_at_handler = some handler })
          (protocol.register_handler server.rpc datanode_rpc_add_device read_at)
