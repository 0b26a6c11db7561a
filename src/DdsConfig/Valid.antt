-- ===== src/DdsConfig/Valid.antt =====
-- The DDS settings that config/dds_config.hpp of plugins/advrf_dds_common accepts.
use ecat_middleware_advr.Prelude.{
  ◌≡◌, ◌≤◌, ◌↔◌, refl, subst, Bool, true, false, ◌||◌, not, [], if◌then◌else◌, ltb, leb, ◌==◌, Text,
  codes, text_eq, is_empty, Result, ok, ◌>>◌, guard, >>=-eq-ok, ok-injective, arith,
}
use ecat_middleware_advr.Config.Yaml.{Yaml}
use ecat_middleware_advr.Config.File.{section, check_keys, value, unsigned_value}
use ecat_middleware_advr.Service.{ServiceConfig, ServiceTransport, construct, is_zmq}
use ecat_middleware_advr.DdsConfig.{
  ReaderPolicy, DdsConfig, default_policy, is_valid, set_history_depth, set_reliability,
  set_durability, validate_dds, parse_endpoint_policy, parse_separate, parse_flat, parse_qos,
  parse_service, parse_dds_config, transport_of, is_defined, invalid_as_config,
}

guard-eq-ok :
    {A E : Type 0} (b : Bool) (e : E) (k : Result E A) {a : A}
    → (guard b e >> k) ≡ ok a
    → (b ≡ true) × (k ≡ ok a)
guard-eq-ok true e k h = (refl, h)
guard-eq-ok false e k h = cc

-- What a service's settings must have for its server to be constructed.
abbrev IsService : ServiceConfig → Type 0
IsService service =
    (is_zmq service.transport ≡ true)
    × ((is_empty service.command_uri || service.timeout_ms == 0 || ltb 60000 service.timeout_ms)
        ≡ false)

transport_of-ok : (text : Text) (t : ServiceTransport) → transport_of text ≡ ok t → is_zmq t ≡ true
transport_of-ok text t h = ground arith

if-elim :
    {A : Type 0} (b : Bool) (x x' z : A) {P : Type 0}
    → (x ≡ z → P)
    → (x' ≡ z → P)
    → (if b then x else x') ≡ z
    → P
if-elim true x x' z f g h = f h
if-elim false x x' z f g h = g h

-- What accepted settings have.
abbrev Accepted : DdsConfig → Type 0
Accepted cfg =
    (construct cfg.service ≡ ok (record { config = cfg.service; started = false }))
    × (is_valid cfg.state ≡ true)
    × (is_valid cfg.command ≡ true)
    × ((validate_dds cfg ≡ ok tt) ↔ (cfg.domain_id ≤ 232))

validate_dds_iff :
    (cfg : DdsConfig)
    → is_valid cfg.state ≡ true
    → is_valid cfg.command ≡ true
    → (validate_dds cfg ≡ ok tt) ↔ (cfg.domain_id ≤ 232)
unfolding validate_dds
validate_dds_iff cfg s c = (
  λ h. bounded (guard-eq-ok (leb cfg.domain_id 232) _ _ h).0,
  λ le. let below : leb cfg.domain_id 232 ≡ true = ground arith in rw (below, s, c) refl,
)
  where
    bounded : leb cfg.domain_id 232 ≡ true → cfg.domain_id ≤ 232
    bounded e = ground arith

module _ (y : Yaml) where
  open y use {Node, get, size, as_string, as_bool}

  parse_endpoint_policy-is_valid :
      (node : Node) (path : Text) (policy : ReaderPolicy)
      → parse_endpoint_policy y node path ≡ ok policy
      → is_valid policy ≡ true
  unfolding parse_endpoint_policy
  parse_endpoint_policy-is_valid node path policy h =
      let (_, _, h1) = >>=-eq-ok (check_keys y node _ path) _ h in
      let (reliability, _, h2) =
        >>=-eq-ok (value y as_string node (codes "reliability") (codes "best_effort") path) _ h1 in
      let (first, _, h3) =
        >>=-eq-ok (invalid_as_config path (set_reliability reliability default_policy)) _ h2 in
      let (durability, _, h4) =
        >>=-eq-ok (value y as_string node (codes "durability") (codes "volatile") path) _ h3 in
      let (second, _, h5) =
        >>=-eq-ok (invalid_as_config path (set_durability durability first)) _ h4 in
      let (depth, _, h6) = >>=-eq-ok (unsigned_value y node (codes "depth") 1 path) _ h5 in
      let (history, _, h7) =
        >>=-eq-ok (value y as_string node (codes "history") (codes "keep_last") path) _ h6 in
      let (_, h8) = guard-eq-ok (text_eq history (codes "keep_last")) _ _ h7 in
      let (valid, h9) = guard-eq-ok (is_valid (set_history_depth depth second)) _ _ h8 in
      subst (λ p. is_valid p ≡ true) (ok-injective h9) valid

  abbrev BothValid : ReaderPolicy × ReaderPolicy → Type 0
  BothValid policies = (is_valid policies.0 ≡ true) × (is_valid policies.1 ≡ true)

  parse_separate-is_valid :
      (qos : Node) (policies : ReaderPolicy × ReaderPolicy)
      → parse_separate y qos ≡ ok policies
      → BothValid policies
  unfolding parse_separate
  parse_separate-is_valid qos policies h =
      let (_, _, h1) = >>=-eq-ok (check_keys y qos _ (codes "dds.qos")) _ h in
      let (state_node, _, h2) = >>=-eq-ok (section y qos (codes "state") (codes "dds.qos")) _ h1 in
      let (state, s, h3) =
        >>=-eq-ok (parse_endpoint_policy y state_node (codes "dds.qos.state")) _ h2 in
      let (command_node, _, h4) =
        >>=-eq-ok (section y qos (codes "command") (codes "dds.qos")) _ h3 in
      let (command, c, h5) =
        >>=-eq-ok (parse_endpoint_policy y command_node (codes "dds.qos.command")) _ h4 in
      subst BothValid (ok-injective h5) (
        parse_endpoint_policy-is_valid state_node _ state s,
        parse_endpoint_policy-is_valid command_node _ command c,
      )

  parse_flat-is_valid :
      (qos : Node) (policies : ReaderPolicy × ReaderPolicy)
      → parse_flat y qos ≡ ok policies
      → BothValid policies
  unfolding parse_flat
  parse_flat-is_valid qos policies h =
      let (policy, p, h1) = >>=-eq-ok (parse_endpoint_policy y qos (codes "dds.qos")) _ h in
      let valid = parse_endpoint_policy-is_valid qos _ policy p in
      subst BothValid (ok-injective h1) (valid, valid)

  parse_qos-is_valid :
      (qos : Node) (policies : ReaderPolicy × ReaderPolicy)
      → parse_qos y qos ≡ ok policies
      → BothValid policies
  unfolding parse_qos is_valid
  parse_qos-is_valid qos policies h =
      if-elim _ (parse_separate y qos) _ _ (parse_separate-is_valid qos policies)
        (if-elim (not (size qos == 0)) (parse_flat y qos) _ _ (parse_flat-is_valid qos policies)
          (λ k. subst BothValid (ok-injective k) (refl, refl)))
        h

  parse_service-IsService :
      (node : Node) (service : ServiceConfig)
      → parse_service y node ≡ ok service
      → IsService service
  unfolding parse_service
  parse_service-IsService node cfg h =
      let (service, _, h1) = >>=-eq-ok (section y node (codes "service") (codes "dds")) _ h in
      let (_, _, h2) = >>=-eq-ok (check_keys y service _ (codes "dds.service")) _ h1 in
      let (text, _, h3) =
        >>=-eq-ok
          (value y as_string service (codes "transport") (codes "zmq") (codes "dds.service")) _
          h2 in
      let (transport, t, h4) = >>=-eq-ok (transport_of text) _ h3 in
      let (uri, _, h5) =
        >>=-eq-ok (value y as_string service (codes "command_uri") _ (codes "dds.service")) _ h4 in
      let (timeout, _, h6) =
        >>=-eq-ok (unsigned_value y service (codes "timeout_ms") 1000 (codes "dds.service")) _ h5 in
      let (good, h7) =
        guard-eq-ok (not (is_empty uri || timeout == 0 || ltb 60000 timeout)) _ _ h6 in
      subst IsService (ok-injective h7) (transport_of-ok text transport t, ground arith)

  -- The server of accepted settings is constructed, both their policies are valid, and they pass
  -- `validate` exactly if the domain is at most 232.
  pub parse_dds_config-accepted :
      (root : Node) (cfg : DdsConfig)
      → parse_dds_config y root ≡ ok cfg
      → (construct cfg.service ≡ ok (record { config = cfg.service; started = false }))
        × (is_valid cfg.state ≡ true)
        × (is_valid cfg.command ≡ true)
        × ((validate_dds cfg ≡ ok tt) ↔ (cfg.domain_id ≤ 232))
  unfolding parse_dds_config construct
  parse_dds_config-accepted root cfg h =
      let (node, _, h1) = >>=-eq-ok (section y root (codes "dds") []) _ h in
      let (_, _, h2) = >>=-eq-ok (check_keys y node _ (codes "dds")) _ h1 in
      let (domain, _, h3) =
        >>=-eq-ok
          (unsigned_value y node
            (if is_defined y (get node (codes "domain_id"))
              then codes "domain_id"
              else codes "domain")
            0 (codes "dds"))
          _ h2 in
      let (declare, _, h4) =
        >>=-eq-ok (value y as_bool node (codes "declare_to_ros") false (codes "dds")) _ h3 in
      let (service, sv, h5) = >>=-eq-ok (parse_service y node) _ h4 in
      let (qos, _, h6) = >>=-eq-ok (section y node (codes "qos") (codes "dds")) _ h5 in
      let (policies, pv, h7) = >>=-eq-ok (parse_qos y qos) _ h6 in
      let (z, u) = parse_service-IsService node service sv in
      let (s, c) = parse_qos-is_valid qos policies pv in
      subst Accepted (ok-injective h7) (rw (z, u) refl, s, c, validate_dds_iff _ s c)
