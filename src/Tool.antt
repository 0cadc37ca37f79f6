-- ===== src/Tool.antt =====
-- src/tools/client/main.cc: a program that asks a datanode to add a device.
pub mod Answered
use pancake_store.Base.{ℕ, ◌≡◌, Option, none, some, List, [], ◌∷◌, ◌++◌, if◌then◌else◌}
use pancake_store.Rpc.Method.{add_device, datanode_rpc_add_device}
use pancake_store.Rpc.Message.{Codec, Messages}
use pancake_store.Rpc.Caller.{Client}
use pancake_store.Datanode.Manager.{AddDeviceRequest}

-- The text "abc", and the number of the disk.
abbrev pub tool_datanode_id : List ℕ
tool_datanode_id = b'a' ∷ b'b' ∷ b'c' ∷ []

abbrev pub tool_disk_id : ℕ
tool_disk_id = 123

-- A new `AddDeviceRequest`, whose texts are empty, and the two fields that the program sets. A field
-- that is set is there, and the other fields stay.
pub record NewRequest (messages : Messages) (fields : AddDeviceRequest messages) : Type 0 where
  pub new_request : messages.Request add_device
  pub set_datanode_id : List ℕ → messages.Request add_device → messages.Request add_device
  pub set_disk_id : ℕ → messages.Request add_device → messages.Request add_device
  pub new_cluster_id : fields.cluster_id new_request ≡ []
  pub datanode_id_set :
      (t : List ℕ) (r : messages.Request add_device) → fields.datanode_id (set_datanode_id t r) ≡ t
  pub datanode_id_cluster :
      (t : List ℕ) (r : messages.Request add_device)
      → fields.cluster_id (set_datanode_id t r) ≡ fields.cluster_id r
  pub disk_id_set : (n : ℕ) (r : messages.Request add_device) → fields.disk_id (set_disk_id n r) ≡ n
  pub disk_id_cluster :
      (n : ℕ) (r : messages.Request add_device)
      → fields.cluster_id (set_disk_id n r) ≡ fields.cluster_id r
  pub disk_id_datanode :
      (n : ℕ) (r : messages.Request add_device)
      → fields.datanode_id (set_disk_id n r) ≡ fields.datanode_id r

-- What the program prints and logs, once the request has been sent.
pub data Said (R : Type 0) : Type 0 where
  got_response : Said R
  parse_failed : Said R
  response_is : R → Said R
  exception : Said R
  client_stop : Said R

-- The end of the program: what it said, and all that is not the program, when the client was
-- stopped and reset; `none` is an exception of `stop`, behind which there is no `reset`.
pub record Ended (W R : Type 0) : Type 0 where
  pub said : List (Said R)
  pub stopped : Option W

module _ (messages : Messages) (fields : AddDeviceRequest messages)
    (fresh_request : NewRequest messages fields) where
  unfoldable pub tool_request : messages.Request add_device
  tool_request =
      fresh_request.set_disk_id tool_disk_id
        (fresh_request.set_datanode_id tool_datanode_id fresh_request.new_request)

  -- The two continuations. `ret` is the bool of `ParseFromString`.
  unfoldable pub on_response : Option (List ℕ) → List (Said (messages.Response add_device))
  on_response none = exception ∷ []
  on_response (some resp_str) =
      let parsed = (messages.response_codec add_device).parse_from_string resp_str in
      let ret = parsed.0 in
      if ret then got_response ∷ parse_failed ∷ [] else got_response ∷ response_is parsed.1 ∷ []

  -- The function that `app.run` calls, with the locals that its continuations refer to still there.
  unfoldable pub run_tool : {W : Type 0} → Client W → W → Ended W (messages.Response add_device)
  unfolding tool_request on_response
  run_tool client world =
      let reply =
        client.invoke world datanode_rpc_add_device
          ((messages.request_codec add_device).serialize_as_string tool_request) in
      record { said = on_response reply.0 ++ (client_stop ∷ []); stopped = client.stop reply.1 }
