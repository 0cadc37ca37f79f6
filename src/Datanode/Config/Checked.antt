-- ===== src/Datanode/Config/Checked.antt =====
-- Which configurations `CheckConfig` accepts.
use pancake_store.Base.{
  ℕ, ◌≤◌, ◌≡◌, ◌≢◌, ◌⊎◌, inl, inr, refl, Bool, true, false, not, List, [], ◌∷◌, ltb, arith,
  if◌then◌else◌,
}
use pancake_store.Comm.ErrorCode.{ErrorCode, pancake_store_ok, pancake_store_yaml_config_invalid}
use pancake_store.Datanode.Config.{
  Config, is_empty, is_ipv4_address, check_config, k_system_min_listen_port,
}

is_empty-eq : (text : List ℕ) → is_empty text ≡ true → text ≡ []
unfolding is_empty
is_empty-eq [] h = refl
is_empty-eq (b ∷ text) h = cc

is_empty-ne : (text : List ℕ) → is_empty text ≡ false → text ≢ []
unfolding is_empty
is_empty-ne [] h = cc
is_empty-ne (b ∷ text) h = λ e. cc

-- A code is OK when `P` holds, and YAML_CONFIG_INVALID when it does not.
abbrev Decides : Type 0 → ErrorCode → Type 0
Decides P r = ((r ≡ pancake_store_ok) × P) ⊎ ((r ≡ pancake_store_yaml_config_invalid) × (¬ P))

reject_or :
    (P : Type 0) (b : Bool) (r : ErrorCode)
    → (b ≡ true → ¬ P)
    → (b ≡ false → Decides P r)
    → Decides P (if b then pancake_store_yaml_config_invalid else r)
reject_or P true r bad good = inr (refl, bad refl)
reject_or P false r bad good = good refl

module _ (inet_pton : List ℕ → ℕ) where
  -- The names are not empty, the address is one, no port is below the least that the system
  -- leaves, and the range of the data services' ports is not empty.
  pub record IsAccepted (config : Config) : Type 0 where
    pub id_given : config.datanode_id ≢ []
    pub ip_valid : is_ipv4_address inet_pton config.datanode_ip ≡ true
    pub cluster_given : config.cluster_id ≢ []
    pub http_port : k_system_min_listen_port ≤ config.http_server_port
    pub manager_port : k_system_min_listen_port ≤ config.manager_service_port
    pub data_ports : k_system_min_listen_port ≤ config.data_service_port_min
    pub range : config.data_service_port_min ≤ config.data_service_port_max

  -- A configuration is answered OK exactly when it is accepted, and YAML_CONFIG_INVALID exactly
  -- when it is not.
  pub check_config-IsAccepted :
      (config : Config)
      → ((check_config inet_pton config ≡ pancake_store_ok) × IsAccepted config)
        ⊎ ((check_config inet_pton config ≡ pancake_store_yaml_config_invalid)
            × (¬ IsAccepted config))
  unfolding check_config is_empty
  check_config-IsAccepted config =
      reject_or (IsAccepted config) (is_empty config.datanode_id) _
        (λ e a. a.id_given (is_empty-eq config.datanode_id e))
        (λ id.
          reject_or (IsAccepted config) (not (is_ipv4_address inet_pton config.datanode_ip)) _
            (λ e a. ground (arith, e, a.ip_valid))
            (λ ip.
              reject_or (IsAccepted config) (is_empty config.cluster_id) _
                (λ e a. a.cluster_given (is_empty-eq config.cluster_id e))
                (λ cluster.
                  reject_or (IsAccepted config)
                    (ltb config.http_server_port k_system_min_listen_port) _
                    (λ e a. ground (arith, e, a.http_port))
                    (λ http.
                      reject_or (IsAccepted config)
                        (ltb config.manager_service_port k_system_min_listen_port) _
                        (λ e a. ground (arith, e, a.manager_port))
                        (λ manager.
                          reject_or (IsAccepted config)
                            (ltb config.data_service_port_min k_system_min_listen_port) _
                            (λ e a. ground (arith, e, a.data_ports))
                            (λ low.
                              reject_or (IsAccepted config)
                                (ltb config.data_service_port_max k_system_min_listen_port) _
                                (λ e a. ground (arith, e, a.data_ports, a.range))
                                (λ high.
                                  reject_or (IsAccepted config)
                                    (ltb config.data_service_port_max config.data_service_port_min)
                                    _ (λ e a. ground (arith, e, a.range))
                                    (λ range. inl (
                                      refl,
                                      record {
                                        id_given = is_empty-ne config.datanode_id id;
                                        ip_valid = ground (arith, ip);
                                        cluster_given = is_empty-ne config.cluster_id cluster;
                                        http_port = ground (arith, http);
                                        manager_port = ground (arith, manager);
                                        data_ports = ground (arith, low);
                                        range = ground (arith, range);
                                      },
                                    )))))))))
