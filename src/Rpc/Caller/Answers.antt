-- ===== src/Rpc/Caller/Answers.antt =====
-- What the callers make of the servers' answers.
use pancake_store.Base.{◌≡◌, ◌≢◌, ◌⊎◌, inl, inr, refl, true, some, All, Bool-cases, if◌then◌else◌}
use pancake_store.Comm.ErrorCode.{
  ErrorCode, pancake_store_ok, rpc_caller_response_parse_failed, is_not_ok, ok_of,
}
use pancake_store.Rpc.Method.{Method}
use pancake_store.Rpc.Message.{Messages}
use pancake_store.Rpc.Server.{Handler, serve}
use pancake_store.Comm.Text.{c_str_whole}
use pancake_store.Rpc.Caller.{on_reply}

-- What the server answers, and puts into the response.
abbrev pub told : ErrorCode → {R : Type 0} → (ErrorCode → R → R) → R → R
told c set r = if is_not_ok c then set c r else r

module _ (messages : Messages) (S : Type 0) (m : Method) (handler : Handler messages S m)
    (state : S) (request : messages.Request m) (response : messages.Response m) where
  -- What the handler makes of the request.
  abbrev pub handled : (ErrorCode × messages.Response m) × S
  handled = handler state request (messages.fresh m)

  abbrev pub sent : messages.Response m
  sent = told handled.0.0 (messages.set_error_code m) handled.0.1

  -- Let the request's bytes have no zero byte and parse to the request, and the bytes of the
  -- response that the server sends parse to that response. Then the caller, given the reply of the
  -- server, always reports RPC_CALLER_RESPONSE_PARSE_FAILED, with the server's response in its own;
  -- when the handler failed, its code is in that response.
  pub on_reply-serve :
      All (λ b. b ≢ 0) ((messages.request_codec m).serialize_as_string request)
      → (messages.request_codec m).parse_from_string
          ((messages.request_codec m).serialize_as_string request)
        ≡ (true, request)
      → (messages.response_codec m).parse_from_string
          ((messages.response_codec m).serialize_as_string sent)
        ≡ (true, sent)
      → (on_reply messages m response (
            some
              (serve messages S m handler state
                ((messages.request_codec m).serialize_as_string request)).0)
          ≡ (rpc_caller_response_parse_failed, sent))
        × ((handled.0.0 ≡ pancake_store_ok) ⊎ (messages.error_code m sent ≡ handled.0.0))
  unfolding on_reply serve
  on_reply-serve clean understood read_back =
      rw (c_str_whole _ clean, serve, understood)
        (rw read_back (
          refl,
          elim (Bool-cases (is_not_ok handled.0.0)) [
            | inl e ↦ inr (rw e (messages.error_code_lem m handled.0.0 handled.0.1))
            | inr e ↦ inl (ok_of handled.0.0 e)
          ],
        ))
