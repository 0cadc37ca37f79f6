-- ===== src/Rpc/Method.antt =====
-- `DatanodeRpc` of proto/datanode_rpc.proto: the numbers of the remote procedures.
use pancake_store.Base.{ℕ}

abbrev pub datanode_rpc_add_device : ℕ
datanode_rpc_add_device = 1001

abbrev pub datanode_rpc_del_device : ℕ
datanode_rpc_del_device = 1002

abbrev pub datanode_rpc_add_extent : ℕ
datanode_rpc_add_extent = 2001

abbrev pub datanode_rpc_del_extent : ℕ
datanode_rpc_del_extent = 2002

abbrev pub datanode_rpc_seal_extent : ℕ
datanode_rpc_seal_extent = 2003

abbrev pub datanode_rpc_list_extents : ℕ
datanode_rpc_list_extents = 2004

abbrev pub datanode_rpc_read_at : ℕ
datanode_rpc_read_at = 3001

abbrev pub datanode_rpc_write_at : ℕ
datanode_rpc_write_at = 3002

-- The procedures that have a handler. A type of request and of response belongs to each.
pub data Method : Type 0 where
  add_device del_device add_extent del_extent seal_extent list_extents write_at read_at : Method
