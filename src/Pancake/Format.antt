-- ===== src/Pancake/Format.antt =====
-- On which devices a file system is made, and what that leaves.
use pancake_store.Base.{ℕ, ◌<◌, none, some, ◌≤◌, ◌≡◌, ◌⊎◌, true, false, Option, List}
use pancake_store.Comm.ErrorCode.{pancake_store_ok, datanode_storage_device_open_failed, is_not_ok}
use pancake_store.Io
use pancake_store.Layout.{k_min_device_size, build_layout, extents_blocks_layout}
use pancake_store.Datanode.Device.{System, is_device_mounted, get_device_uuid, get_device_size}
use pancake_store.Pancake.{is_raw, MakeFsRequest, MakeFsResponse, Pancake, Made, filename}

module _ {F : Type 0} (system : System) (open_file_dma : List ℕ → Option F) where
  -- The request is for this engine, the device is not mounted, has a UUID, has at least the least
  -- size, and can be opened.
  pub record IsFormattable (request : MakeFsRequest) : Type 0 where
    pub raw : is_raw request.fs_type ≡ true
    pub mounts_known : is_not_ok (is_device_mounted system request.device_path).0 ≡ false
    pub not_mounted : (is_device_mounted system request.device_path).1 ≡ false
    pub uuid_known : is_not_ok (get_device_uuid system request.device_path).0 ≡ false
    pub size_known : is_not_ok (get_device_size system (filename request.device_path)).0 ≡ false
    pub large : k_min_device_size ≤ (get_device_size system (filename request.device_path)).1
    pub opened :
        is_not_ok (Io.init open_file_dma Io.new_io request.device_path request.device_id).0 ≡ false

  -- The engine with the size of the request's device as its capacity.
  abbrev pub sized : Pancake → MakeFsRequest → Pancake
  sized self request = record self {
    device_capacity = (get_device_size system (filename request.device_path)).1;
  }

  abbrev Outcome : Pancake → MakeFsRequest → MakeFsResponse → Made → Type 0
  Outcome self request response made =
      ((made ≡ record { code = pancake_store_ok; engine = sized self request; response = response })
        × IsFormattable request)
      ⊎ ((is_not_ok made.code ≡ true)
          × ((made.engine ≡ self)
              ⊎ ((made.engine ≡ sized self request)
                  × (made.code ≡ datanode_storage_device_open_failed)))
          × (made.response ≡ response)
          × (¬ IsFormattable request))

  -- How many extent blocks are laid out on the request's device.
  abbrev pub laid_out : MakeFsRequest → ℕ
  laid_out request =
      (extents_blocks_layout
        (build_layout (get_device_size system (filename request.device_path)).1)).block_count

  -- What `MakeFS` comes to.
  abbrev pub Result : Pancake → MakeFsRequest → MakeFsResponse → Option Made → Type 0
  Result self request response result =
      ((result
          ≡ some (record {
            code = pancake_store_ok;
            engine = sized self request;
            response = response;
          }))
        × IsFormattable request
        × (laid_out request ≤ 32))
      ⊎ (((result ≡ none) × IsFormattable request × (32 < laid_out request))
          ⊎ ((made : Made) × (result ≡ some made)
              × (is_not_ok made.code ≡ true)
              × ((made.engine ≡ self)
                  ⊎ ((made.engine ≡ sized self request)
                      × (made.code ≡ datanode_storage_device_open_failed)))
              × (made.response ≡ response)
              × (¬ IsFormattable request)))
