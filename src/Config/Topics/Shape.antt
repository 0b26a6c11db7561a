-- ===== src/Config/Topics/Shape.antt =====
-- Topic names of config/config_topics.hpp: their shape, and that no two topics share a name.
use ecat_middleware_advr.Prelude.{
  append_cancel_left, ◌≡◌, refl, ap, ◌∙◌, sym, List, [], ◌∷◌, ◌++◌, Text, codes, text_eq, ◌==◌,
  Option, none, some, append_assoc, append-nil, is_empty, if◌then◌else◌,
}
use ecat_middleware_advr.Config.Topics.{
  append_namespace, build, Topic, TopicsState, TopicsCommand, TopicsService, TopicsParameters,
  prefix_of, suffix_of, topic_name,
}

-- The components that are not empty, each behind a slash.
unfoldable pub middle : List Text → Text
middle [] = []
middle (component ∷ rest) =
    if is_empty component then middle rest else codes "/" ++ (component ++ middle rest)

append_namespace_lem :
    (topic : Text) (namespace : List Text)
    → append_namespace topic namespace ≡ topic ++ middle namespace
unfolding append_namespace middle
append_namespace_lem topic [] = sym (append-nil topic)
append_namespace_lem topic ([] ∷ rest) = append_namespace_lem topic rest
append_namespace_lem topic ((a ∷ c) ∷ rest) =
    append_namespace_lem ((topic ++ codes "/") ++ (a ∷ c)) rest
    ∙ append_assoc (topic ++ codes "/") (a ∷ c) (middle rest)
    ∙ append_assoc topic (codes "/") ((a ∷ c) ++ middle rest)

-- A topic's name is the prefix, the components that are not empty and the suffix, with slashes between.
pub topic_name_lem :
    (namespace : List Text) (t : Topic)
    → topic_name namespace t ≡ prefix_of t ++ (middle namespace ++ (codes "/" ++ suffix_of t))
unfolding topic_name build
topic_name_lem namespace t =
    ap (λ front. (front ++ codes "/") ++ suffix_of t) (append_namespace_lem (prefix_of t) namespace)
    ∙ append_assoc (prefix_of t ++ middle namespace) (codes "/") (suffix_of t)
    ∙ append_assoc (prefix_of t) (middle namespace) (codes "/" ++ suffix_of t)

-- The topics with no device's name in them.
abbrev fixed_topics : List Topic
fixed_topics =
    Topic.rx TopicsState.joint_state
    ∷ Topic.rx TopicsState.motor
    ∷ Topic.rx TopicsState.gripper
    ∷ Topic.rx TopicsState.valve
    ∷ Topic.tx TopicsCommand.joint_cmd
    ∷ Topic.tx TopicsCommand.motor_cmd
    ∷ Topic.tx TopicsCommand.valve_cmd
    ∷ Topic.tx TopicsCommand.gripper_cmd
    ∷ Topic.tx TopicsCommand.pump_cmd
    ∷ Topic.tx TopicsCommand.power_board_cmd
    ∷ Topic.tx TopicsCommand.force_torque_cmd
    ∷ Topic.parameters TopicsParameters.get_request
    ∷ Topic.parameters TopicsParameters.get_reply
    ∷ Topic.parameters TopicsParameters.get_cmd_request
    ∷ Topic.parameters TopicsParameters.get_cmd_reply
    ∷ Topic.parameters TopicsParameters.set_request
    ∷ Topic.parameters TopicsParameters.set_reply
    ∷ Topic.parameters TopicsParameters.list_request
    ∷ Topic.parameters TopicsParameters.list_reply
    ∷ Topic.parameters TopicsParameters.list_get_request
    ∷ Topic.parameters TopicsParameters.list_get_reply
    ∷ Topic.service TopicsService.request
    ∷ Topic.service TopicsService.reply
    ∷ []

-- What follows a literal at the front of a text.
strip : Text → Text → Option Text
strip [] s = some s
strip (a ∷ l) [] = none
strip (a ∷ l) (b ∷ s) = if a == b then strip l s else none

-- The topics that carry a device's name, by what stands before it.
abbrev device_topics : List (Text × (Text → TopicsState))
device_topics =
    (codes "rx/imu/", TopicsState.imu)
    ∷ (codes "rx/force_torque/", TopicsState.force_torque)
    ∷ (codes "rx/power_board/", TopicsState.power_board)
    ∷ (codes "rx/pump/", TopicsState.pump)
    ∷ []

first_device : List (Text × (Text → TopicsState)) → Text → Option Topic
first_device [] s = none
first_device (entry ∷ rest) s = found (strip entry.0 s) (first_device rest s)
  where
    found : Option Text → Option Topic → Option Topic
    found none other = other
    found (some device) other = some (Topic.rx (entry.1 device))

first_fixed : List Topic → Text → Option Topic
unfolding first_device
first_fixed [] s = first_device device_topics s
first_fixed (t ∷ ts) s = if text_eq (suffix_of t) s then some t else first_fixed ts s

-- Reading a topic back from its suffix.
topic_of-suffix_of : (t : Topic) → first_fixed fixed_topics (suffix_of t) ≡ some t
unfolding first_fixed first_device strip suffix_of text_eq
topic_of-suffix_of (Topic.rx TopicsState.joint_state) = refl
topic_of-suffix_of (Topic.rx TopicsState.motor) = refl
topic_of-suffix_of (Topic.rx TopicsState.gripper) = refl
topic_of-suffix_of (Topic.rx TopicsState.valve) = refl
topic_of-suffix_of (Topic.rx (TopicsState.imu d)) = refl
topic_of-suffix_of (Topic.rx (TopicsState.force_torque d)) = refl
topic_of-suffix_of (Topic.rx (TopicsState.power_board d)) = refl
topic_of-suffix_of (Topic.rx (TopicsState.pump d)) = refl
topic_of-suffix_of (Topic.tx TopicsCommand.joint_cmd) = refl
topic_of-suffix_of (Topic.tx TopicsCommand.motor_cmd) = refl
topic_of-suffix_of (Topic.tx TopicsCommand.valve_cmd) = refl
topic_of-suffix_of (Topic.tx TopicsCommand.gripper_cmd) = refl
topic_of-suffix_of (Topic.tx TopicsCommand.pump_cmd) = refl
topic_of-suffix_of (Topic.tx TopicsCommand.power_board_cmd) = refl
topic_of-suffix_of (Topic.tx TopicsCommand.force_torque_cmd) = refl
topic_of-suffix_of (Topic.parameters TopicsParameters.get_request) = refl
topic_of-suffix_of (Topic.parameters TopicsParameters.get_reply) = refl
topic_of-suffix_of (Topic.parameters TopicsParameters.get_cmd_request) = refl
topic_of-suffix_of (Topic.parameters TopicsParameters.get_cmd_reply) = refl
topic_of-suffix_of (Topic.parameters TopicsParameters.set_request) = refl
topic_of-suffix_of (Topic.parameters TopicsParameters.set_reply) = refl
topic_of-suffix_of (Topic.parameters TopicsParameters.list_request) = refl
topic_of-suffix_of (Topic.parameters TopicsParameters.list_reply) = refl
topic_of-suffix_of (Topic.parameters TopicsParameters.list_get_request) = refl
topic_of-suffix_of (Topic.parameters TopicsParameters.list_get_reply) = refl
topic_of-suffix_of (Topic.service TopicsService.request) = refl
topic_of-suffix_of (Topic.service TopicsService.reply) = refl

some_injective : {A : Type 0} (a b : A) → some a ≡ some b → a ≡ b
some_injective {A = A} a b e = ap (λ o. given o) e
  where
    given : Option A → A
    given none = a
    given (some c) = c

-- Every prefix is two characters.
after_prefix : Text → Text
after_prefix (a ∷ b ∷ s) = s
after_prefix s = s

after_prefix_lem : (t : Topic) (s : Text) → after_prefix (prefix_of t ++ s) ≡ s
unfolding after_prefix prefix_of
after_prefix_lem (Topic.rx t) s = refl
after_prefix_lem (Topic.tx t) s = refl
after_prefix_lem (Topic.parameters TopicsParameters.get_request) s = refl
after_prefix_lem (Topic.parameters TopicsParameters.get_reply) s = refl
after_prefix_lem (Topic.parameters TopicsParameters.get_cmd_request) s = refl
after_prefix_lem (Topic.parameters TopicsParameters.get_cmd_reply) s = refl
after_prefix_lem (Topic.parameters TopicsParameters.set_request) s = refl
after_prefix_lem (Topic.parameters TopicsParameters.set_reply) s = refl
after_prefix_lem (Topic.parameters TopicsParameters.list_request) s = refl
after_prefix_lem (Topic.parameters TopicsParameters.list_reply) s = refl
after_prefix_lem (Topic.parameters TopicsParameters.list_get_request) s = refl
after_prefix_lem (Topic.parameters TopicsParameters.list_get_reply) s = refl
after_prefix_lem (Topic.service TopicsService.request) s = refl
after_prefix_lem (Topic.service TopicsService.reply) s = refl

-- In one namespace, no two topics of `ConfigTopics` have the same name.
pub topic_name_injective :
    (namespace : List Text) (t u : Topic) → topic_name namespace t ≡ topic_name namespace u → t ≡ u
topic_name_injective namespace t u e =
    let behind : (v : Topic)
        → after_prefix (topic_name namespace v) ≡ middle namespace ++ (codes "/" ++ suffix_of v) =
      λ v. ap after_prefix (topic_name_lem namespace v) ∙ after_prefix_lem v _ in
    let suffixes : suffix_of t ≡ suffix_of u =
      append_cancel_left (codes "/") _ _ (
        append_cancel_left (middle namespace) _ _
          (sym (behind t) ∙ ap after_prefix e ∙ behind u)) in
    some_injective t u (
      sym (topic_of-suffix_of t)
      ∙ ap (λ s. first_fixed fixed_topics s) suffixes
      ∙ topic_of-suffix_of u)
