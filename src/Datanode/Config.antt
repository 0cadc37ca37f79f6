-- ===== src/Datanode/Config.antt =====
-- src/datanode/comm/config.{h,cc}, src/comm/ip_address.h and the start of src/datanode/main.cc.
pub mod Parsed
pub mod Checked
use pancake_store.Base.{
  ℕ, ◌≡◌, Bool, true, false, not, ◌||◌, Option, none, some, List, [], ◌∷◌, ◌==◌, ltb, if◌then◌else◌,
}
use pancake_store.Comm.ErrorCode.{
  ErrorCode, pancake_store_ok, pancake_store_yaml_config_invalid, is_not_ok,
}
use pancake_store.Comm.Text.{c_str}

abbrev pub k_system_min_listen_port : ℕ
k_system_min_listen_port = 4096

-- The keys of the file.
abbrev pub datanode_id_key : List ℕ
datanode_id_key = b'd' ∷ b'a' ∷ b't' ∷ b'a' ∷ b'n' ∷ b'o' ∷ b'd' ∷ b'e' ∷ b'_' ∷ b'i' ∷ b'd' ∷ []

abbrev pub datanode_ip_key : List ℕ
datanode_ip_key = b'd' ∷ b'a' ∷ b't' ∷ b'a' ∷ b'n' ∷ b'o' ∷ b'd' ∷ b'e' ∷ b'_' ∷ b'i' ∷ b'p' ∷ []

abbrev pub cluster_id_key : List ℕ
cluster_id_key = b'c' ∷ b'l' ∷ b'u' ∷ b's' ∷ b't' ∷ b'e' ∷ b'r' ∷ b'_' ∷ b'i' ∷ b'd' ∷ []

abbrev pub http_server_port_key : List ℕ
http_server_port_key =
    b'h' ∷ b't' ∷ b't' ∷ b'p' ∷ b'_' ∷ b's' ∷ b'e' ∷ b'r' ∷ b'v' ∷ b'e' ∷ b'r' ∷ b'_' ∷ b'p' ∷ b'o'
    ∷ b'r' ∷ b't' ∷ []

abbrev pub manager_service_port_key : List ℕ
manager_service_port_key =
    b'm' ∷ b'a' ∷ b'n' ∷ b'a' ∷ b'g' ∷ b'e' ∷ b'r' ∷ b'_' ∷ b's' ∷ b'e' ∷ b'r' ∷ b'v' ∷ b'i' ∷ b'c'
    ∷ b'e' ∷ b'_' ∷ b'p' ∷ b'o' ∷ b'r' ∷ b't' ∷ []

abbrev pub data_service_port_min_key : List ℕ
data_service_port_min_key =
    b'd' ∷ b'a' ∷ b't' ∷ b'a' ∷ b'_' ∷ b's' ∷ b'e' ∷ b'r' ∷ b'v' ∷ b'i' ∷ b'c' ∷ b'e' ∷ b'_' ∷ b'p'
    ∷ b'o' ∷ b'r' ∷ b't' ∷ b'_' ∷ b'm' ∷ b'i' ∷ b'n' ∷ []

abbrev pub data_service_port_max_key : List ℕ
data_service_port_max_key =
    b'd' ∷ b'a' ∷ b't' ∷ b'a' ∷ b'_' ∷ b's' ∷ b'e' ∷ b'r' ∷ b'v' ∷ b'i' ∷ b'c' ∷ b'e' ∷ b'_' ∷ b'p'
    ∷ b'o' ∷ b'r' ∷ b't' ∷ b'_' ∷ b'm' ∷ b'a' ∷ b'x' ∷ []

-- yaml-cpp on nodes `N`. `none` is an exception: one is thrown for a file that cannot be read, and
-- where a node that is no scalar is converted to a number.
pub record Yaml (N : Type 0) : Type 0 where
  pub load_file : List ℕ → Option N
  pub is_defined : N → Bool
  pub is_map : N → Bool
  pub is_scalar : N → Bool
  pub get : N → List ℕ → N
  pub as_string : N → Option (List ℕ)
  pub as_uint16 : N → Option ℕ
  pub as_uint16_lem : (n : N) → is_scalar n ≡ false → as_uint16 n ≡ none

pub record Config : Type 0 where
  pub datanode_id : List ℕ
  pub datanode_ip : List ℕ
  pub cluster_id : List ℕ
  pub http_server_port : ℕ
  pub manager_service_port : ℕ
  pub data_service_port_min : ℕ
  pub data_service_port_max : ℕ

-- The members' initializers.
abbrev pub new_config : Config
new_config = record {
  datanode_id = [];
  datanode_ip = [];
  cluster_id = [];
  http_server_port = 0;
  manager_service_port = 0;
  data_service_port_min = 0;
  data_service_port_max = 0;
}

-- `std::string::empty`.
unfoldable pub is_empty : List ℕ → Bool
is_empty [] = true
is_empty _ = false

module _ {N : Type 0} (yaml : Yaml N) where
  unfoldable pub missing : N → List ℕ → Bool
  missing config_node key =
      not (yaml.is_defined (yaml.get config_node key)) || yaml.is_scalar (yaml.get config_node key)

  -- The ports, from line 61 on.
  unfoldable pub parse_ports : N → Config → Option (ErrorCode × Config)
  parse_ports node self = elim (yaml.as_uint16 (yaml.get node http_server_port_key)) [
    | none ↦ none
    | some http ↦ elim (yaml.as_uint16 (yaml.get node manager_service_port_key)) [
      | none ↦ none
      | some manager ↦ elim (yaml.as_uint16 (yaml.get node data_service_port_min_key)) [
        | none ↦ none
        | some low ↦ elim (yaml.as_uint16 (yaml.get node data_service_port_max_key)) [
          | none ↦ none
          | some high ↦ some (
            pancake_store_ok,
            record self {
              http_server_port = http;
              manager_service_port = manager;
              data_service_port_min = low;
              data_service_port_max = high;
            },
          )
        ]
      ]
    ]
  ]

  -- The assignments, from line 57 on. What an exception leaves assigned is not kept.
  unfoldable pub parse_fields : N → Config → Option (ErrorCode × Config)
  unfolding parse_ports
  parse_fields node self = elim (yaml.as_string (yaml.get node datanode_id_key)) [
    | none ↦ none
    | some id ↦ elim (yaml.as_string (yaml.get node datanode_ip_key)) [
      | none ↦ none
      | some ip ↦ elim (yaml.as_string (yaml.get node cluster_id_key)) [
        | none ↦ none
        | some cluster ↦
            parse_ports node
              (record self { datanode_id = id; datanode_ip = ip; cluster_id = cluster })
      ]
    ]
  ]

  -- From line 21 on.
  unfoldable pub parse_node : N → Config → Option (ErrorCode × Config)
  unfolding missing parse_fields
  parse_node config_node self =
      if not (yaml.is_defined config_node) || not (yaml.is_map config_node)
      then some (pancake_store_yaml_config_invalid, self)
      else if missing config_node datanode_id_key
      then some (pancake_store_yaml_config_invalid, self)
      else if missing config_node datanode_ip_key
      then some (pancake_store_yaml_config_invalid, self)
      else if missing config_node cluster_id_key
      then some (pancake_store_yaml_config_invalid, self)
      else if missing config_node http_server_port_key
      then some (pancake_store_yaml_config_invalid, self)
      else if missing config_node manager_service_port_key
      then some (pancake_store_yaml_config_invalid, self)
      else if missing config_node data_service_port_min_key
      then some (pancake_store_yaml_config_invalid, self)
      else if missing config_node data_service_port_max_key
      then some (pancake_store_yaml_config_invalid, self)
      else parse_fields config_node self

  unfoldable pub parse_config : Config → List ℕ → Option (ErrorCode × Config)
  unfolding is_empty parse_node
  parse_config self config_path =
      if is_empty config_path
      then some (pancake_store_yaml_config_invalid, self)
      else elim (yaml.load_file config_path) [
        | none ↦ none
        | some config_node ↦ parse_node config_node self
      ]

-- `inet_pton` of `AF_INET`: 1 for an address, 0 for any other string.
module _ (inet_pton : List ℕ → ℕ) where
  unfoldable pub is_ipv4_address : List ℕ → Bool
  unfolding c_str
  is_ipv4_address ipstr = not (inet_pton (c_str ipstr) == 0)

  unfoldable pub check_config : Config → ErrorCode
  unfolding is_empty is_ipv4_address
  check_config self =
      if is_empty self.datanode_id
      then pancake_store_yaml_config_invalid
      else if not (is_ipv4_address self.datanode_ip)
      then pancake_store_yaml_config_invalid
      else if is_empty self.cluster_id
      then pancake_store_yaml_config_invalid
      else if ltb self.http_server_port k_system_min_listen_port
      then pancake_store_yaml_config_invalid
      else if ltb self.manager_service_port k_system_min_listen_port
      then pancake_store_yaml_config_invalid
      else if ltb self.data_service_port_min k_system_min_listen_port
      then pancake_store_yaml_config_invalid
      else if ltb self.data_service_port_max k_system_min_listen_port
      then pancake_store_yaml_config_invalid
      else if ltb self.data_service_port_max self.data_service_port_min
      then pancake_store_yaml_config_invalid
      else pancake_store_ok

-- What `main` comes to: an exception, the end, or the main worker with the manager service's port.
pub data Outcome : Type 0 where
  thrown : Outcome
  stopped : Outcome
  started : ℕ → Outcome

-- The function that `main` runs, with the values of its two options.
module _ {N : Type 0} (yaml : Yaml N) (inet_pton : List ℕ → ℕ) where
  unfoldable pub run : Bool → List ℕ → Config → Outcome
  unfolding parse_config check_config
  run version config_file config =
      if version then stopped else elim (parse_config yaml config config_file) [
        | none ↦ thrown
        | some (ret, config') ↦
            if is_not_ok ret
            then stopped
            else if is_not_ok (check_config inet_pton config')
            then stopped
            else started config'.manager_service_port
      ]
