-- ===== src/Examples/Rpc.antt =====
-- The theorems on the remote procedure calls at concrete connections, messages and tables.
use pancake_store.Base.{
  ℕ, ◌+◌, ◌<◌, ◌≡◌, ◌≢◌, ◌⊎◌, inl, inr, refl, sym, ap, ◌∙◌, true, Option, none, some, List, [], ◌∷◌,
  ◌++◌, length, take, drop, take-append, Option-cases, drop-append, length-append, if◌then◌else◌,
  ltb, lt→ltb, le→ltb, ◌==◌, ne→==, eq→==, arith,
}
use mathlib.Core.Option.{some-injective, none-ne-some}
use pancake_store.Comm.ErrorCode.{
  ErrorCode, pancake_store_ok, pancake_store_cluster_id_not_match, rpc_caller_response_parse_failed,
}
use pancake_store.Rpc.Serializer.{Output, Input}
use pancake_store.Rpc.Serializer.RoundTrip.{
  string, int, text, number, write_all, read_all, read_all-write_all,
}
use pancake_store.Rpc.Method.{Method, add_extent, datanode_rpc_add_device}
use pancake_store.Rpc.Message.{Messages}
use pancake_store.Rpc.Server.{Protocol, Handler, serve, DatanodeServer, register_add_extent_handler}
use pancake_store.Rpc.Server.Requests.{serve_cut}
use pancake_store.Rpc.Server.Registered
use pancake_store.Rpc.Server.Registered.{ExtentServer}
use pancake_store.Rpc.Caller.{Client, on_reply}
use pancake_store.Rpc.Caller.Refused.{Refused, ExtentServer-Refused}
use pancake_store.Rpc.Caller.Answers.{on_reply-serve}
use pancake_store.Examples.{big_endian}

-- A connection as the bytes on it.
abbrev wire : Output (List ℕ)
wire = record { write = λ o bytes. o ++ bytes; written = λ o. o; write_lem = λ o bytes. refl }

abbrev read_wire : List ℕ → ℕ → Option (List ℕ × List ℕ)
read_wire i n = if ltb (length i) n then none else some (take n i, drop n i)

read_wire_lem :
    (i bytes rest : List ℕ)
    → i ≡ bytes ++ rest
    → (i' : List ℕ) × (read_wire i (length bytes) ≡ some (bytes, i')) × (i' ≡ rest)
read_wire_lem i bytes rest e = (
  rest,
  rw
      (
        e,
        le→ltb (length (bytes ++ rest)) (length bytes) (omega (arith, length-append bytes rest)),
        take-append (length bytes) bytes rest refl,
        drop-append (length bytes) bytes rest refl,
      )
      refl,
  refl,
)

read_wire_short : (i : List ℕ) (n : ℕ) → length i < n → read_wire i n ≡ none
read_wire_short i n h = rw (lt→ltb (length i) n h) refl

abbrev end_of_wire : Input (List ℕ)
end_of_wire = record {
  read = read_wire;
  unread = λ i. i;
  read_lem = read_wire_lem;
  read_short = read_wire_short;
}

abbrev hello : List ℕ
hello = 104 ∷ 101 ∷ 0 ∷ 111 ∷ []

read_all-write_all_example :
    (i' : List ℕ) × (read_all big_endian end_of_wire
        (string ∷ int ∷ [])
        (write_all big_endian wire [] (text hello ∷ number 4000000000 ∷ []) ++ (7 ∷ []))
      ≡ some (text hello ∷ number 4000000000 ∷ [], i'))
    × (i' ≡ 7 ∷ [])
read_all-write_all_example =
    read_all-write_all big_endian wire end_of_wire []
      (write_all big_endian wire [] (text hello ∷ number 4000000000 ∷ []) ++ (7 ∷ []))
      (text hello ∷ number 4000000000 ∷ []) (7 ∷ []) (omega arith, (omega arith, tt)) refl refl

-- Messages that are bytes, and whose responses are codes.
abbrev pub bytes_of : ErrorCode → List ℕ
bytes_of pancake_store_ok = []
bytes_of _ = 1 ∷ []

abbrev pub code_of : List ℕ → ErrorCode
code_of [] = pancake_store_ok
code_of _ = pancake_store_cluster_id_not_match

abbrev pub small_messages : Messages
small_messages = record {
  Request = λ m. List ℕ;
  Response = λ m. ErrorCode;
  request_codec = λ m. record {
    serialize_as_string = λ request. request;
    parse_from_string = λ bytes. (true, bytes);
  };
  response_codec = λ m. record {
    serialize_as_string = bytes_of;
    parse_from_string = λ bytes. (true, code_of bytes);
  };
  fresh = λ m. pancake_store_ok;
  error_code = λ m r. r;
  set_error_code = λ m c r. c;
  error_code_lem = λ m c r. refl;
}

-- A service that counts the requests, and refuses those that are not empty.
abbrev count_and_refuse : Handler small_messages ℕ add_extent
count_and_refuse state [] response = ((pancake_store_ok, response), state + 1)
count_and_refuse state (b ∷ bytes) response =
    ((pancake_store_cluster_id_not_match, response), state + 1)

serve_cut_example :
    serve small_messages ℕ add_extent count_and_refuse 5 (8 ∷ 0 ∷ 1 ∷ [])
    ≡ serve small_messages ℕ add_extent count_and_refuse 5 (8 ∷ 0 ∷ 2 ∷ 3 ∷ [])
serve_cut_example =
    serve_cut small_messages ℕ add_extent count_and_refuse 5 (8 ∷ []) (1 ∷ []) (2 ∷ 3 ∷ [])

on_reply-serve_example :
    (on_reply small_messages add_extent pancake_store_ok
        (some (serve small_messages ℕ add_extent count_and_refuse 5 (8 ∷ [])).0)
      ≡ (rpc_caller_response_parse_failed, pancake_store_cluster_id_not_match))
    × (◌≡◌ {A = ErrorCode} pancake_store_cluster_id_not_match pancake_store_ok
        ⊎ ◌≡◌ {A = ErrorCode} pancake_store_cluster_id_not_match pancake_store_cluster_id_not_match)
on_reply-serve_example =
    on_reply-serve small_messages ℕ add_extent count_and_refuse 5 (8 ∷ []) pancake_store_ok
      (omega arith, tt) refl refl

abbrev pub Table : Type 0
Table = ℕ → Option Method

-- A number that is taken is refused.
abbrev pub put : Table → ℕ → Method → Option Table
put t id m = elim (t id) [ none ↦ some (λ i. if i == id then some m else t i) | some taken ↦ none ]

put_free :
    (t t' : Table) (id : ℕ) (m : Method)
    → put t id m ≡ some t'
    → (λ i. if i == id then some m else t i) ≡ t'
put_free t t' id m e = elim (Option-cases (t id)) [
  | inl free ↦
      let at : put t id m ≡ some (λ i. if i == id then some m else t i) = rw (free, put) refl in
      some-injective _ _ (sym at ∙ e)
  | inr (taken, f) ↦
      let at : put t id m ≡ none = rw (f, put) refl in absurd (none-ne-some t' (sym at ∙ e))
]

pub put-RefusesTaken : (t : Table) (id : ℕ) (m m' : Method) → t id ≡ some m → put t id m' ≡ none
put-RefusesTaken t id m m' e = rw (e, put) refl

pub put_registered :
    (t t' : Table) (id : ℕ) (m : Method) → put t id m ≡ some t' → t id ≡ none → t' id ≡ some m
put_registered t t' id m e free =
    ap (λ (u : Table). u id) (sym (put_free t t' id m e)) ∙ rw (eq→== id id refl) refl

pub put_other :
    (t t' : Table) (id other : ℕ) (m : Method)
    → put t id m ≡ some t'
    → other ≢ id
    → t' other ≡ t other
put_other t t' id other m e h =
    ap (λ (u : Table). u other) (sym (put_free t t' id m e)) ∙ rw (ne→== other id h) refl

abbrev pub table : Protocol Table
table = record {
  register_handler = put;
  handler_of = λ t. t;
  registered_lem = put_registered;
  other_lem = put_other;
}

abbrev pub no_handlers : Table
no_handlers id = none

abbrev new_extent_server : DatanodeServer small_messages ℕ Table
new_extent_server = record {
  rpc = no_handlers;
  service_ptr = some 0;
  add_extent_handler = none;
  del_extent_handler = none;
  seal_extent_handler = none;
  list_extents_handler = none;
  write_at_handler = none;
  read_at_handler = none;
}

abbrev one_table : Table
one_table i = if i == datanode_rpc_add_device then some add_extent else none

abbrev extent_server : DatanodeServer small_messages ℕ Table
extent_server = record new_extent_server {
  rpc = one_table;
  add_extent_handler = some count_and_refuse;
}

extent_server-ExtentServer : ExtentServer small_messages ℕ table extent_server
unfolding register_add_extent_handler
extent_server-ExtentServer =
    Registered.add_extent_registered extent_server count_and_refuse
      (ExtentServer.fresh new_extent_server (λ id. refl)) refl

-- A client whose every call is an exception.
abbrev no_server : Client ℕ
no_server = record { invoke = λ world id bytes. (none, world); stop = λ world. some world }

ExtentServer-Refused_example :
    Refused small_messages ℕ table no_server extent_server 3 (λ m. 1 ∷ []) (λ m. pancake_store_ok)
ExtentServer-Refused_example =
    ExtentServer-Refused small_messages ℕ table no_server extent_server (λ world id bytes h. refl)
      extent_server-ExtentServer 3 (λ m. 1 ∷ []) (λ m. pancake_store_ok)
