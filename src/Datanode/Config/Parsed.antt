-- ===== src/Datanode/Config/Parsed.antt =====
-- What comes of a configuration file.
use pancake_store.Base.{
  ℕ, ◌≡◌, ◌⊎◌, ◌≢◌, inl, inr, refl, Bool, true, false, not, ◌||◌, Option, none, some, List,
  Option-cases, if◌then◌else◌, arith,
}
use pancake_store.Comm.ErrorCode.{ErrorCode, pancake_store_yaml_config_invalid}
use pancake_store.Datanode.Config.{
  Yaml, Config, missing, parse_ports, parse_fields, parse_node, parse_config, is_empty, started,
  run, http_server_port_key, datanode_id_key, datanode_ip_key, cluster_id_key,
  manager_service_port_key, data_service_port_min_key, data_service_port_max_key,
}

module _ {N : Type 0} (yaml : Yaml N) where
  -- Either an exception, or a refusal that leaves the configuration as it was.
  abbrev pub Refuses : Config → Option (ErrorCode × Config) → Type 0
  Refuses self r = (r ≡ none) ⊎ (r ≡ some (pancake_store_yaml_config_invalid, self))

  -- The port of the HTTP server is not a scalar.
  parse_ports_throws :
      (node : N) (self : Config)
      → yaml.is_scalar (yaml.get node http_server_port_key) ≡ false
      → parse_ports yaml node self ≡ none
  unfolding parse_ports
  parse_ports_throws node self h =
      rw (yaml.as_uint16_lem (yaml.get node http_server_port_key) h, parse_ports) refl

  parse_fields_throws :
      (node : N) (self : Config)
      → yaml.is_scalar (yaml.get node http_server_port_key) ≡ false
      → parse_fields yaml node self ≡ none
  unfolding parse_fields
  parse_fields_throws node self h =
      elim (Option-cases (yaml.as_string (yaml.get node datanode_id_key))) [
        | inl e ↦ rw (e, parse_fields) refl
        | inr (id, e) ↦ elim (Option-cases (yaml.as_string (yaml.get node datanode_ip_key))) [
          | inl f ↦ rw (e, f, parse_fields) refl
          | inr (ip, f) ↦ elim (Option-cases (yaml.as_string (yaml.get node cluster_id_key))) [
            | inl g ↦ rw (e, f, g, parse_fields) refl
            | inr (cluster, g) ↦
                rw (e, f, g, parse_fields)
                  (parse_ports_throws node
                    (record self { datanode_id = id; datanode_ip = ip; cluster_id = cluster }) h)
          ]
        ]
      ]

  refuse_or :
      (self : Config) (b : Bool) (r : Option (ErrorCode × Config))
      → (b ≡ false → Refuses self r)
      → Refuses self (if b then some (pancake_store_yaml_config_invalid, self) else r)
  refuse_or self true r h = inr refl
  refuse_or self false r h = h refl

  missing-scalar :
      (node : N) (key : List ℕ)
      → missing yaml node key ≡ false
      → yaml.is_scalar (yaml.get node key) ≡ false
  unfolding missing
  missing-scalar node key h = ground (arith, h)

  parse_node-Refuses : (node : N) (self : Config) → Refuses self (parse_node yaml node self)
  unfolding parse_node
  parse_node-Refuses node self =
      refuse_or self (not (yaml.is_defined node) || not (yaml.is_map node)) _ (λ map.
        refuse_or self (missing yaml node datanode_id_key) _ (λ id.
          refuse_or self (missing yaml node datanode_ip_key) _ (λ ip.
            refuse_or self (missing yaml node cluster_id_key) _ (λ cluster.
              refuse_or self (missing yaml node http_server_port_key) _ (λ http.
                refuse_or self (missing yaml node manager_service_port_key) _ (λ manager.
                  refuse_or self (missing yaml node data_service_port_min_key) _ (λ low.
                    refuse_or self (missing yaml node data_service_port_max_key) _ (λ high. inl (
                      parse_fields_throws node self
                        (missing-scalar node http_server_port_key http))))))))))

  -- No file makes a configuration: whatever the path, and whatever yaml-cpp makes of the file,
  -- parsing throws, or answers YAML_CONFIG_INVALID and leaves the configuration as it was.
  pub parse_config-Refuses :
      (self : Config) (config_path : List ℕ) → Refuses self (parse_config yaml self config_path)
  unfolding parse_config
  parse_config-Refuses self config_path = refuse_or self (is_empty config_path) _ (λ given.
      elim (Option-cases (yaml.load_file config_path)) [
        | inl e ↦ inl (rw (e, parse_config) refl)
        | inr (node, e) ↦ rw (e, parse_config) (parse_node-Refuses node self)
      ])

  -- Whatever its two options are, and whatever yaml-cpp makes of the file, `main` does not come to
  -- start the manager service.
  pub run-started :
      (inet_pton : List ℕ → ℕ) (version : Bool) (config_file : List ℕ) (config : Config) (port : ℕ)
      → run yaml inet_pton version config_file config ≢ started port
  unfolding run
  run-started inet_pton true config_file config port = λ e. cc
  run-started inet_pton false config_file config port =
      elim (parse_config-Refuses config config_file) [
        | inl e ↦ rw (e, run) (λ e. cc)
        | inr e ↦ rw (e, run) (λ e. cc)
      ]
