-- ===== src/Rpc/Server/Registered.antt =====
-- Which numbers have a handler after the registrations.
use pancake_store.Base.{ℕ, ◌≡◌, ◌≢◌, refl, sym, ap, ◌∙◌, none, some}
use mathlib.Core.Option
use pancake_store.Rpc.Method.{
  Method, add_extent, del_extent, seal_extent, list_extents, write_at, read_at,
  datanode_rpc_add_device,
}
use pancake_store.Rpc.Message.{Messages}
use pancake_store.Rpc.Server.{
  Protocol, Handler, DatanodeServer, register_add_extent_handler, register_del_extent_handler,
  register_seal_extent_handler, register_list_extents_handler, register_write_at_handler,
  register_read_at_handler,
}

module _ {T V : Type 0} (protocol : Protocol T) where
  -- A number other than the one that is registered keeps what it has.
  map_keeps :
      (t : T) (m : Method) (build : T → V) (rpc_of : V → T) (v : V) (id : ℕ)
      → ((t' : T) → rpc_of (build t') ≡ t')
      → id ≢ datanode_rpc_add_device
      → Option.map build (protocol.register_handler t datanode_rpc_add_device m) ≡ some v
      → protocol.handler_of (rpc_of v) id ≡ protocol.handler_of t id
  map_keeps t m build rpc_of v id same other e =
      let (t', at, made) = (Option.map-eq-some_iff build _).0 e in
      ap (λ (w : V). protocol.handler_of (rpc_of w) id) (sym made)
      ∙ ap (λ (u : T). protocol.handler_of u id) (same t')
      ∙ protocol.other_lem t t' datanode_rpc_add_device id m at other

module _ (messages : Messages) (S : Type 0) {T : Type 0} (protocol : Protocol T) where
  -- A server on a protocol with no handler, after registrations in any order, of any handlers.
  pub data ExtentServer : DatanodeServer messages S T → Type 0 where
    fresh :
        (server : DatanodeServer messages S T)
        → ((id : ℕ) → protocol.handler_of server.rpc id ≡ none)
        → ExtentServer server
    add_extent_registered :
        {server : DatanodeServer messages S T} (server' : DatanodeServer messages S T)
        (handler : Handler messages S add_extent)
        → ExtentServer server
        → register_add_extent_handler messages S protocol server handler ≡ some server'
        → ExtentServer server'
    del_extent_registered :
        {server : DatanodeServer messages S T} (server' : DatanodeServer messages S T)
        (handler : Handler messages S del_extent)
        → ExtentServer server
        → register_del_extent_handler messages S protocol server handler ≡ some server'
        → ExtentServer server'
    seal_extent_registered :
        {server : DatanodeServer messages S T} (server' : DatanodeServer messages S T)
        (handler : Handler messages S seal_extent)
        → ExtentServer server
        → register_seal_extent_handler messages S protocol server handler ≡ some server'
        → ExtentServer server'
    list_extents_registered :
        {server : DatanodeServer messages S T} (server' : DatanodeServer messages S T)
        (handler : Handler messages S list_extents)
        → ExtentServer server
        → register_list_extents_handler messages S protocol server handler ≡ some server'
        → ExtentServer server'
    write_at_registered :
        {server : DatanodeServer messages S T} (server' : DatanodeServer messages S T)
        (handler : Handler messages S write_at)
        → ExtentServer server
        → register_write_at_handler messages S protocol server handler ≡ some server'
        → ExtentServer server'
    read_at_registered :
        {server : DatanodeServer messages S T} (server' : DatanodeServer messages S T)
        (handler : Handler messages S read_at)
        → ExtentServer server
        → register_read_at_handler messages S protocol server handler ≡ some server'
        → ExtentServer server'

  -- Whatever handlers of extents, reads and writes are registered, a number other than that of
  -- DATANODE_RPC_ADD_DEVICE has none: the numbers that the callers of extents, reads and writes
  -- use among them.
  pub ExtentServer-none :
      (server : DatanodeServer messages S T) (id : ℕ)
      → ExtentServer server
      → id ≢ datanode_rpc_add_device
      → protocol.handler_of server.rpc id ≡ none
  unfolding register_add_extent_handler register_del_extent_handler register_seal_extent_handler
      register_list_extents_handler register_write_at_handler register_read_at_handler
  ExtentServer-none server id (fresh _ h) other = h id
  ExtentServer-none server id (add_extent_registered {server = before} _ handler r e) other =
      map_keeps protocol before.rpc add_extent _ (λ s. s.rpc) server id (λ t. refl) other e
      ∙ ExtentServer-none before id r other
  ExtentServer-none server id (del_extent_registered {server = before} _ handler r e) other =
      map_keeps protocol before.rpc del_extent _ (λ s. s.rpc) server id (λ t. refl) other e
      ∙ ExtentServer-none before id r other
  ExtentServer-none server id (seal_extent_registered {server = before} _ handler r e) other =
      map_keeps protocol before.rpc seal_extent _ (λ s. s.rpc) server id (λ t. refl) other e
      ∙ ExtentServer-none before id r other
  ExtentServer-none server id (list_extents_registered {server = before} _ handler r e) other =
      map_keeps protocol before.rpc list_extents _ (λ s. s.rpc) server id (λ t. refl) other e
      ∙ ExtentServer-none before id r other
  ExtentServer-none server id (write_at_registered {server = before} _ handler r e) other =
      map_keeps protocol before.rpc write_at _ (λ s. s.rpc) server id (λ t. refl) other e
      ∙ ExtentServer-none before id r other
  ExtentServer-none server id (read_at_registered {server = before} _ handler r e) other =
      map_keeps protocol before.rpc read_at _ (λ s. s.rpc) server id (λ t. refl) other e
      ∙ ExtentServer-none before id r other
