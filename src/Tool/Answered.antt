-- ===== src/Tool/Answered.antt =====
-- The program against a datanode's manager service.
use pancake_store.Base.{
  ℕ, ◌≡◌, ◌≢◌, inl, inr, refl, sym, ◌∙◌, true, Option, some, List, [], ◌∷◌, All, Bool-cases,
}
use mathlib.Core.Option
use pancake_store.Comm.ErrorCode.{
  pancake_store_ok, pancake_store_cluster_id_not_match, pancake_store_yaml_config_invalid,
}
use pancake_store.Comm.Text.{c_str_whole, same_text, same_text-eq}
use pancake_store.Rpc.Method.{add_device, del_device, datanode_rpc_add_device}
use pancake_store.Rpc.Message.{Messages}
use pancake_store.Rpc.Server.{DatanodeDeviceServer, Handler, serve_add_device, invoke, serve}
use pancake_store.Rpc.Caller.{Client}
use pancake_store.Datanode.Config.{Config, check_config}
use pancake_store.Datanode.Config.Checked.{check_config-IsAccepted}
use pancake_store.Datanode.Manager.{AddDeviceRequest, ManagerService, handle_add_device}
use pancake_store.Tool.{
  NewRequest, got_response, parse_failed, client_stop, tool_request, run_tool, on_response,
}

ok≢invalid : pancake_store_ok ≢ pancake_store_yaml_config_invalid
ok≢invalid e = cc

module _ (messages : Messages) (fields : AddDeviceRequest messages)
    (fresh_request : NewRequest messages fields) (V : Type 0) (config : Config) where
  -- The program sets no cluster id.
  tool_cluster_id : fields.cluster_id (tool_request messages fields fresh_request) ≡ []
  unfolding tool_request
  tool_cluster_id =
      fresh_request.disk_id_cluster _ _
      ∙ fresh_request.datanode_id_cluster _ _
      ∙ fresh_request.new_cluster_id

  -- A datanode with a cluster id refuses the request.
  tool_refused :
      (service : ManagerService V) (response : messages.Response add_device)
      → config.cluster_id ≢ []
      → handle_add_device messages V fields config service
          (tool_request messages fields fresh_request)
          response
        ≡ ((pancake_store_cluster_id_not_match, response), service)
  unfolding handle_add_device
  tool_refused service response given =
      let request = tool_request messages fields fresh_request in
      elim (Bool-cases (same_text (fields.cluster_id request) config.cluster_id)) [
        | inl e ↦ absurd (given (sym (same_text-eq _ _ e) ∙ tool_cluster_id))
        | inr e ↦ rw (e, handle_add_device) refl
      ]

  -- The answer that the server sends.
  abbrev pub sent : messages.Response add_device
  sent =
      messages.set_error_code add_device pancake_store_cluster_id_not_match
        (messages.fresh add_device)

  abbrev pub request_bytes : List ℕ
  request_bytes =
      (messages.request_codec add_device).serialize_as_string
        (tool_request messages fields fresh_request)

  -- A server in which the service has registered `addDevice`.
  abbrev pub registered :
      {T : Type 0}
      → T
      → Option (Handler messages (ManagerService V) del_device)
      → ManagerService V
      → DatanodeDeviceServer messages (ManagerService V) T
  registered rpc del_device_handler service = record {
    rpc = rpc;
    service_ptr = some service;
    add_device_handler = some (handle_add_device messages V fields config);
    del_device_handler = del_device_handler;
  }

  serve_tool_request :
      {T : Type 0} (rpc : T)
      (del_device_handler : Option (Handler messages (ManagerService V) del_device))
      (service : ManagerService V)
      → config.cluster_id ≢ []
      → All (λ b. b ≢ 0) request_bytes
      → (messages.request_codec add_device).parse_from_string request_bytes
        ≡ (true, tool_request messages fields fresh_request)
      → serve_add_device messages
          (ManagerService V)
          (registered rpc del_device_handler service)
          request_bytes
        ≡ some ((messages.response_codec add_device).serialize_as_string sent, service)
  unfolding serve_add_device invoke serve
  serve_tool_request rpc del_device_handler service given clean understood =
      rw (c_str_whole _ clean, understood)
        (rw (tool_refused service (messages.fresh add_device) given) refl)

  -- Let a server have the `addDevice` of a service registered whose configuration `CheckConfig`
  -- accepts, and the client be connected to it. Let the request's bytes have no zero byte and parse
  -- to the request, the bytes of the response that the server sends parse to that response, and the
  -- client be stopped without an exception. Then the program's request is refused with
  -- CLUSTER_ID_NOT_MATCH, since it names no cluster, and leaves the service as it was; the program
  -- says that it got a response and could not parse it, and stops and resets its client.
  pub run_tool-serve :
      {T W : Type 0} (inet_pton : List ℕ → ℕ) (client : Client W) (world world' world'' : W)
      (rpc : T) (del_device_handler : Option (Handler messages (ManagerService V) del_device))
      (service : ManagerService V)
      → check_config inet_pton config ≡ pancake_store_ok
      → All (λ b. b ≢ 0) request_bytes
      → (messages.request_codec add_device).parse_from_string request_bytes
        ≡ (true, tool_request messages fields fresh_request)
      → (messages.response_codec add_device).parse_from_string
          ((messages.response_codec add_device).serialize_as_string sent)
        ≡ (true, sent)
      → client.invoke world datanode_rpc_add_device request_bytes ≡ (
        Option.map
            (λ (x : List ℕ × ManagerService V). x.0)
            (serve_add_device messages
              (ManagerService V)
              (registered rpc del_device_handler service)
              request_bytes),
        world',
      )
      → client.stop world' ≡ some world''
      → (serve_add_device messages
            (ManagerService V)
            (registered rpc del_device_handler service)
            request_bytes
          ≡ some ((messages.response_codec add_device).serialize_as_string sent, service))
        × (messages.error_code add_device sent ≡ pancake_store_cluster_id_not_match)
        × (run_tool messages fields fresh_request client world ≡ record {
          said = got_response ∷ parse_failed ∷ client_stop ∷ [];
          stopped = some world'';
        })
  unfolding run_tool on_response
  run_tool-serve inet_pton client world world' world'' rpc del_device_handler service accepted clean
        understood read_back connected stopped =
      let given : config.cluster_id ≢ [] = elim (check_config-IsAccepted inet_pton config) [
        | inl t ↦ t.1.cluster_given
        | inr t ↦ absurd (ok≢invalid (sym accepted ∙ t.0))
      ] in
      let served = serve_tool_request rpc del_device_handler service given clean understood in
      (
        served,
        messages.error_code_lem add_device _ _,
        rw (connected, served, stopped) (rw read_back refl),
      )
