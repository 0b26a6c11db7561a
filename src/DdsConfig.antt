-- ===== src/DdsConfig.antt =====
-- The DDS settings, plugins/advrf_dds_common: qos/reader_policy.hpp and config/dds_config.hpp.
pub mod Valid
use ecat_middleware_advr.Prelude.{
  ℕ, ◌≤◌, Bool, true, false, ◌&&◌, ◌||◌, not, List, [], ◌∷◌, ◌++◌, Option, none, some,
  if◌then◌else◌, ltb, leb, ◌==◌, Text, codes, text_eq, is_empty, Result, ok, err, ◌>>=◌, ◌>>◌,
  guard, int32_max,
}
use ecat_middleware_advr.Config.Yaml.{Yaml, ConfigException, config_error, Outcome}
use ecat_middleware_advr.Config.File.{section, check_keys, value, unsigned_value}
use ecat_middleware_advr.Config.Runtime.{CommonConfig, validate_common, parse_common_config}
use ecat_middleware_advr.Service.{ServiceConfig, ServiceTransport}

pub data Reliability : Type 0 where
  best_effort reliable : Reliability

pub data Durability : Type 0 where
  volatile transient_local transient persistent : Durability

pub record ReaderPolicy : Type 0 where
  pub reliability : Reliability
  pub durability : Durability
  pub history_depth : ℕ

abbrev pub default_policy : ReaderPolicy
default_policy = record {
  reliability = Reliability.best_effort;
  durability = Durability.volatile;
  history_depth = 1;
}

unfoldable pub is_valid : ReaderPolicy → Bool
is_valid policy = ltb 0 policy.history_depth && leb policy.history_depth int32_max

-- `ReaderPolicyBuilder`: an error is the text of `std::invalid_argument`.
unfoldable pub set_reliability : Text → ReaderPolicy → Result Text ReaderPolicy
set_reliability text policy =
    if text_eq text (codes "best_effort")
    then ok (record policy { reliability = Reliability.best_effort })
    else if text_eq text (codes "reliable")
    then ok (record policy { reliability = Reliability.reliable })
    else err (codes "Invalid reliability string: " ++ text)

unfoldable pub set_durability : Text → ReaderPolicy → Result Text ReaderPolicy
set_durability text policy =
    if text_eq text (codes "volatile")
    then ok (record policy { durability = Durability.volatile })
    else if text_eq text (codes "transient_local")
    then ok (record policy { durability = Durability.transient_local })
    else if text_eq text (codes "transient")
    then ok (record policy { durability = Durability.transient })
    else if text_eq text (codes "persistent")
    then ok (record policy { durability = Durability.persistent })
    else err (codes "Invalid durability string: " ++ text)

unfoldable pub set_history_depth : ℕ → ReaderPolicy → ReaderPolicy
set_history_depth depth policy = record policy { history_depth = depth }

pub record DdsConfig : Type 0 where
  pub domain_id : ℕ
  pub declare_to_ros : Bool
  pub service : ServiceConfig
  pub state : ReaderPolicy
  pub command : ReaderPolicy

pub record DdsPluginConfig : Type 0 where
  pub common : CommonConfig
  pub dds : DdsConfig

-- The handler of `std::invalid_argument`.
abbrev pub invalid_as_config : {A : Type 0} → Text → Result Text A → Outcome A
invalid_as_config path (ok a) = ok a
invalid_as_config path (err what) = err (config_error (path ++ codes ": " ++ what))

abbrev pub transport_of : Text → Outcome ServiceTransport
transport_of transport =
    if text_eq transport (codes "shm")
    then err
        (config_error (codes "dds.service.transport: shm is unsupported by the v3 master; use zmq"))
    else if text_eq transport (codes "zmq")
    then ok ServiceTransport.zmq
    else err (config_error (codes "dds.service.transport: expected shm or zmq"))

unfoldable pub validate_dds : DdsConfig → Outcome (Unit {0})
validate_dds cfg =
    guard (leb cfg.domain_id 232) (config_error (codes "dds.domain_id: must be between 0 and 232"))
    >> (guard (is_valid cfg.state)
          (config_error (codes "dds.qos.state.depth: invalid history depth"))
        >> guard (is_valid cfg.command)
            (config_error (codes "dds.qos.command.depth: invalid history depth")))

unfoldable pub validate_dds_plugin : DdsPluginConfig → Outcome (Unit {0})
validate_dds_plugin cfg = validate_common cfg.common >> validate_dds cfg.dds

module _ (y : Yaml) where
  open y use {Node, get, size, as_string, as_bool}

  unfoldable pub parse_endpoint_policy : Node → Text → Outcome ReaderPolicy
  parse_endpoint_policy node path =
      check_keys y node
        (codes "reliability" ∷ codes "durability" ∷ codes "history" ∷ codes "depth" ∷ []) path
      >> (value y as_string node (codes "reliability") (codes "best_effort") path >>= λ reliability.
          invalid_as_config path (set_reliability reliability default_policy) >>= λ first.
          value y as_string node (codes "durability") (codes "volatile") path >>= λ durability.
          invalid_as_config path (set_durability durability first) >>= λ second.
          unsigned_value y node (codes "depth") 1 path >>= λ depth.
          value y as_string node (codes "history") (codes "keep_last") path >>= λ history.
          (let policy = set_history_depth depth second in
            guard (text_eq history (codes "keep_last"))
              (config_error (path ++ codes ".history: only keep_last is supported"))
            >> (guard (is_valid policy)
                  (config_error (path ++ codes ".depth: must be between 1 and INT32_MAX"))
                >> ok policy)))

  abbrev pub is_defined : Option Node → Bool
  is_defined none = false
  is_defined (some node) = true

  -- The sections for state and command.
  unfoldable pub parse_separate : Node → Outcome (ReaderPolicy × ReaderPolicy)
  parse_separate qos =
      check_keys y qos (codes "state" ∷ codes "command" ∷ []) (codes "dds.qos")
      >> (section y qos (codes "state") (codes "dds.qos") >>= λ state_node.
          parse_endpoint_policy state_node (codes "dds.qos.state") >>= λ state.
          section y qos (codes "command") (codes "dds.qos") >>= λ command_node.
          parse_endpoint_policy command_node (codes "dds.qos.command") >>= λ command.
          ok (state, command))

  -- The flat section: one policy for both.
  unfoldable pub parse_flat : Node → Outcome (ReaderPolicy × ReaderPolicy)
  parse_flat qos = parse_endpoint_policy qos (codes "dds.qos") >>= λ policy. ok (policy, policy)

  unfoldable pub parse_qos : Node → Outcome (ReaderPolicy × ReaderPolicy)
  parse_qos qos =
      if is_defined (get qos (codes "state")) || is_defined (get qos (codes "command"))
      then parse_separate qos
      else if not (size qos == 0)
      then parse_flat qos
      else ok (default_policy, default_policy)

  unfoldable pub parse_service : Node → Outcome ServiceConfig
  parse_service node = section y node (codes "service") (codes "dds") >>= λ service.
      check_keys y service (codes "transport" ∷ codes "command_uri" ∷ codes "timeout_ms" ∷ [])
        (codes "dds.service")
      >> (value y as_string service (codes "transport") (codes "zmq") (codes "dds.service")
          >>= λ text. transport_of text >>= λ transport.
              value y as_string service (codes "command_uri") (codes "tcp://127.0.0.1:5555")
                (codes "dds.service")
              >>= λ command_uri.
                  unsigned_value y service (codes "timeout_ms") 1000 (codes "dds.service")
                  >>= λ timeout_ms.
                      guard (not (is_empty command_uri || timeout_ms == 0 || ltb 60000 timeout_ms))
                        (config_error
                          (codes "dds.service: provide URI and timeout between 1 and 60000 ms"))
                      >> ok (record {
                        transport = transport;
                        command_uri = command_uri;
                        timeout_ms = timeout_ms;
                      }))

  unfoldable pub parse_dds_config : Node → Outcome DdsConfig
  parse_dds_config root = section y root (codes "dds") [] >>= λ node.
      check_keys y node
        (codes "domain"
          ∷ codes "domain_id"
          ∷ codes "declare_to_ros"
          ∷ codes "qos"
          ∷ codes "robot_name"
          ∷ codes "namespace"
          ∷ codes "service"
          ∷ [])
        (codes "dds")
      >> (unsigned_value y node
            (if is_defined (get node (codes "domain_id"))
              then codes "domain_id"
              else codes "domain")
            0 (codes "dds")
          >>= λ domain_id.
              value y as_bool node (codes "declare_to_ros") false (codes "dds")
              >>= λ declare_to_ros. parse_service node >>= λ service.
                  section y node (codes "qos") (codes "dds") >>= λ qos.
                  parse_qos qos >>= λ policies. ok (record {
                    domain_id = domain_id;
                    declare_to_ros = declare_to_ros;
                    service = service;
                    state = policies.0;
                    command = policies.1;
                  }))

  -- `env` is what EC_CFG leads to, where it is set.
  unfoldable pub parse_dds_plugin_config : Node → Option (Outcome Node) → Outcome DdsPluginConfig
  parse_dds_plugin_config root env = parse_common_config y root env >>= λ common.
      parse_dds_config root >>= λ dds. ok (record { common = common; dds = dds })
