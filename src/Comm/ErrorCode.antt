-- ===== src/Comm/ErrorCode.antt =====
-- proto/error_code.proto and src/comm/error_code.h.
use pancake_store.Base.{◌≡◌, refl, Bool, true, false}

pub data ErrorCode : Type 0 where
  pancake_store_ok : ErrorCode
  pancake_store_cluster_id_not_match : ErrorCode
  pancake_store_yaml_config_invalid : ErrorCode
  pancake_store_config_invalid : ErrorCode
  pancake_store_code_error : ErrorCode
  datanode_service_device_already_exists : ErrorCode
  datanode_service_datanode_id_not_match : ErrorCode
  datanode_service_request_argument_invalid : ErrorCode
  datanode_device_read_link_failed : ErrorCode
  datanode_device_file_not_exist : ErrorCode
  datanode_device_already_mounted : ErrorCode
  datanode_device_file_system_error : ErrorCode
  datanode_storage_block_size_illegal : ErrorCode
  datanode_storage_block_data_illegal : ErrorCode
  datanode_storage_block_magic_illegal : ErrorCode
  datanode_storage_block_crc_mismatch : ErrorCode
  datanode_storage_device_open_failed : ErrorCode
  datanode_storage_not_block_aligned : ErrorCode
  datanode_storage_io_read_at_failed : ErrorCode
  datanode_storage_io_write_at_failed : ErrorCode
  datanode_storage_fs_init_failed : ErrorCode
  datanode_storage_fs_full : ErrorCode
  datanode_storage_internal_error : ErrorCode
  datanode_storage_extent_already_exists : ErrorCode
  datanode_storage_extent_not_exists : ErrorCode
  datanode_storage_device_capacity_too_small : ErrorCode
  rpc_caller_invoke_failed : ErrorCode
  rpc_caller_response_parse_failed : ErrorCode

abbrev pub is_ok : ErrorCode → Bool
is_ok pancake_store_ok = true
is_ok _ = false

abbrev pub is_not_ok : ErrorCode → Bool
is_not_ok pancake_store_ok = false
is_not_ok _ = true

pub ok_of : (c : ErrorCode) → is_not_ok c ≡ false → c ≡ pancake_store_ok
ok_of pancake_store_ok h = refl
ok_of _ h = cc
