-- ===== src/Datanode/Manager/Answers.antt =====
-- What the manager service answers to requests to add a device.
use pancake_store.Base.{
  ◌≡◌, ◌≢◌, ◌⊎◌, inl, inr, refl, ◌∙◌, true, false, List, [], ◌∷◌, ◌==◌, ==→eq, eq→==, ne→==,
  Bool-cases,
}
use pancake_store.Comm.ErrorCode.{
  ErrorCode, pancake_store_ok, pancake_store_cluster_id_not_match,
  datanode_service_datanode_id_not_match, datanode_service_request_argument_invalid,
}
use pancake_store.Comm.Text.{same_text, same_text-eq, same_text-ne, same_text_self}
use pancake_store.Rpc.Method.{add_device, del_device}
use pancake_store.Rpc.Message.{Messages}
use pancake_store.Datanode.Config.{Config}
use pancake_store.Datanode.Manager.{
  AddDeviceRequest, ManagerService, new_service, has_device, handle_add_device, handle_del_device,
}

module _ (messages : Messages) (V : Type 0) (fields : AddDeviceRequest messages)
    (config : Config) where
  -- The request names this cluster, this datanode and a disk.
  abbrev pub IsRight : messages.Request add_device → Type 0
  IsRight request =
      (fields.cluster_id request ≡ config.cluster_id)
      × (fields.datanode_id request ≡ config.datanode_id)
      × (fields.disk_id request ≢ 0)

  -- When a request is answered with a code.
  abbrev pub Reason : ManagerService V → messages.Request add_device → ErrorCode → Type 0
  Reason self request pancake_store_ok =
      IsRight request × (has_device self.data_services (fields.disk_id request) ≡ false)
  Reason self request pancake_store_cluster_id_not_match =
      (fields.cluster_id request ≢ config.cluster_id)
      ⊎ (IsRight request × (has_device self.data_services (fields.disk_id request) ≡ true))
  Reason self request datanode_service_datanode_id_not_match =
      (fields.cluster_id request ≡ config.cluster_id)
      × (fields.datanode_id request ≢ config.datanode_id)
  Reason self request datanode_service_request_argument_invalid =
      (fields.cluster_id request ≡ config.cluster_id)
      × (fields.datanode_id request ≡ config.datanode_id)
      × (fields.disk_id request ≡ 0)
  Reason self request _ = ⊥

  -- `AddDevice` answers OK for a request that names this cluster, this datanode and a disk that is
  -- not there; CLUSTER_ID_NOT_MATCH for another cluster, and also for a disk that is there;
  -- DATANODE_ID_NOT_MATCH for another datanode; REQUEST_ARGUMENT_INVALID for the disk 0; no other
  -- code, and none of these for another reason. It changes neither the response nor the service.
  pub handle_add_device_answers :
      (self : ManagerService V) (request : messages.Request add_device)
      (response : messages.Response add_device)
      → Reason self request (handle_add_device messages V fields config self request response).0.0
        × ((handle_add_device messages V fields config self request response).0.1 ≡ response)
        × ((handle_add_device messages V fields config self request response).1 ≡ self)
  unfolding handle_add_device
  handle_add_device_answers self request response =
      elim (Bool-cases (same_text (fields.cluster_id request) config.cluster_id)) [
        | inr c ↦ rw (c, handle_add_device) (inl (same_text-ne _ _ c), refl, refl)
        | inl c ↦ elim (Bool-cases (same_text (fields.datanode_id request) config.datanode_id)) [
          | inr d ↦
              rw (c, d, handle_add_device) ((same_text-eq _ _ c, same_text-ne _ _ d), refl, refl)
          | inl d ↦ elim (Bool-cases (fields.disk_id request == 0)) [
            | inl z ↦
                rw (c, d, z, handle_add_device)
                  ((same_text-eq _ _ c, same_text-eq _ _ d, ==→eq _ _ z), refl, refl)
            | inr z ↦
                let right : IsRight request =
                  (same_text-eq _ _ c, same_text-eq _ _ d, λ e. cc (z, eq→== _ _ e)) in
                elim (Bool-cases (has_device self.data_services (fields.disk_id request))) [
                  | inl h ↦ rw (c, d, z, h, handle_add_device) (inr (right, h), refl, refl)
                  | inr h ↦ rw (c, d, z, h, handle_add_device) ((right, h), refl, refl)
                ]
          ]
        ]
      ]

  -- A request to either handler.
  pub data Call : Type 0 where
    adds : messages.Request add_device → messages.Response add_device → Call
    deletes : messages.Request del_device → messages.Response del_device → Call

  unfoldable pub after : ManagerService V → List Call → ManagerService V
  after self [] = self
  after self (adds request response ∷ calls) =
      after (handle_add_device messages V fields config self request response).1 calls
  after self (deletes request response ∷ calls) =
      after (handle_del_device messages V fields config self request response).1 calls

  after_same : (calls : List Call) (self : ManagerService V) → after self calls ≡ self
  unfolding after handle_del_device
  after_same [] self = refl
  after_same (adds request response ∷ calls) self =
      after_same calls _ ∙ (handle_add_device_answers self request response).2
  after_same (deletes request response ∷ calls) self = after_same calls self

  -- After any calls of the two handlers on a new service, a request to add a device that names
  -- this cluster, this datanode and a disk is answered OK, also when one of the calls has added
  -- this disk.
  pub handle_add_device-after :
      (calls : List Call) (request : messages.Request add_device)
      (response : messages.Response add_device)
      → IsRight request
      → (handle_add_device messages V fields config (after new_service calls) request response).0.0
        ≡ pancake_store_ok
  unfolding handle_add_device has_device
  handle_add_device-after calls request response (c, d, z) =
      rw
        (
          after_same calls new_service,
          c,
          d,
          same_text_self config.cluster_id,
          same_text_self config.datanode_id,
          ne→== _ _ z,
        )
        refl
