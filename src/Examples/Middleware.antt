-- ===== src/Examples/Middleware.antt =====
-- The theorems on PDOs, publishers, discovery, the service and the processes, at concrete inputs.
use ecat_middleware_advr.Prelude.{
  ℕ, ℤ, pos, ◌≡◌, refl, true, false, ◌&&◌, not, to_uint32, List, [], ◌∷◌, ◌++◌, Option, none, some,
  codes, arith, contains, any_of, length, to_string,
}
use ecat_middleware_advr.Channel.{ChannelRx, DeviceTypeRx, device_for}
use ecat_middleware_advr.Pdo.{PdoType}
use ecat_middleware_advr.Pdo.Frame.{parse_frame, frame, parse_frame-frame}
use ecat_middleware_advr.Publishers.{
  ChannelCaches, Subscription, new_subscription, fill_channel, fill_cache,
}
use ecat_middleware_advr.Publishers.Cache.{IsWellFormed, empty_cache, empty_cache-IsWellFormed}
use ecat_middleware_advr.Publishers.Fill.{last_of, entry_or, fill_channel_lem}
use ecat_middleware_advr.Publishers.Registered.{
  registers, cycles, happen_all, new_adapter, happen_all-IsWellFormed,
}
use ecat_middleware_advr.Service.{
  ServiceConfig, foe_master, other_cmd, ack, other_reply, is_answer, CmdReply, ReplCmd, no_reply,
  received, AdapterServiceServer, zmq, ready, process_request_result, process_request,
}
use ecat_middleware_advr.Service.Contract.{
  was_sent, is_answered, outcome_unknown_lem, process_request-answers,
}
use ecat_middleware_advr.Discover.{
  EcatMap, ids, discover, discover_rounds, discover_once, observe_channels, observe_device,
  observe_all, observe, is_skipped,
}
use ecat_middleware_advr.Channel.{channels_array}
use ecat_middleware_advr.Discover.Found.{IsMap}
use ecat_middleware_advr.Discover.Complete.{round_announces, discover_complete, discover_returns}
use ecat_middleware_advr.PluginExec.{Round, worker_start, worker_rounds}
use ecat_middleware_advr.PluginExec.Lifecycle.{worker_rounds-notices}
use ecat_middleware_advr.RosGraph.{GraphOp, graph_steps, empty_graph}
use ecat_middleware_advr.RosGraph.Sets.{IsGraph, memberships, verdicts, graph_steps-verdicts}
use ecat_middleware_advr.Examples.Samples.{Sample, sample, sample_message}

-- The queue of the motors holds a PDO of device 3, the others are empty.
abbrev one_motor : DeviceTypeRx → List Sample
one_motor DeviceTypeRx.motor = sample PdoType.rx_cia402 3 100 ∷ []
one_motor _ = []

abbrev first_pdo : Sample
first_pdo = sample PdoType.dummy 0 0

abbrev fresh_caches : ChannelCaches Sample
fresh_caches i = empty_cache first_pdo

abbrev motors_of_3 : Subscription Sample
motors_of_3 = new_subscription (ChannelRx.motor ∷ []) (3 ∷ [])

abbrev all_motors : Subscription Sample
all_motors = new_subscription (ChannelRx.motor ∷ []) []

abbrev filled : ChannelCaches Sample
filled = fill_cache one_motor fresh_caches

happen_all-IsWellFormed_example : IsWellFormed (
    (happen_all
        (new_adapter first_pdo)
        (registers (ChannelRx.motor ∷ []) (3 ∷ []) ∷ cycles true one_motor ∷ [])).cache
      1)
happen_all-IsWellFormed_example =
    happen_all-IsWellFormed first_pdo
      (registers (ChannelRx.motor ∷ []) (3 ∷ []) ∷ cycles true one_motor ∷ []) 1

fill_channel_lem_example :
    (fill_channel (empty_cache first_pdo) (one_motor DeviceTypeRx.motor)).entries 3
    ≡ entry_or
        (record ((empty_cache first_pdo).entries 3) { updated_this_cycle = false })
        3
        (last_of 3 (one_motor DeviceTypeRx.motor))
fill_channel_lem_example =
    fill_channel_lem (empty_cache first_pdo) (one_motor DeviceTypeRx.motor) 3
      (empty_cache-IsWellFormed first_pdo)

-- A parser that takes every payload.
abbrev take_all : List ℕ → ℤ → Option (List ℕ)
take_all bytes size = some bytes

parse_frame-frame_example :
    parse_frame take_all (frame (7 ∷ 9 ∷ [])) (pos (length (frame (7 ∷ 9 ∷ []))))
    ≡ some (7 ∷ 9 ∷ [])
parse_frame-frame_example = parse_frame-frame take_all (7 ∷ 9 ∷ []) (omega arith)

-- A service with a usual configuration, and a request that the master acknowledges.
abbrev service_config : ServiceConfig
service_config = record {
  transport = zmq;
  command_uri = codes "tcp://host:5555";
  timeout_ms = 1000;
}

abbrev service : AdapterServiceServer
service = record { config = service_config; started = true }

abbrev request : ReplCmd ℕ
request = record {
  is_initialized = true;
  cmd_type = foe_master;
  header = some 4;
  serialized = 1 ∷ [];
}

abbrev silent_reply : CmdReply ℕ
silent_reply = record {
  reply_type = other_reply 0;
  cmd_type = other_cmd 0;
  msg = [];
  header = none;
}

abbrev parse_reply : List ℕ → Option (CmdReply ℕ)
parse_reply bytes =
    some (record { reply_type = ack; cmd_type = foe_master; msg = []; header = none })

outcome_unknown_lem_example :
    (process_request_result parse_reply silent_reply service request no_reply).outcome_unknown ≡ (
      ready service
      && request.is_initialized
      && was_sent no_reply
      && not (is_answered parse_reply silent_reply request no_reply))
outcome_unknown_lem_example = outcome_unknown_lem parse_reply silent_reply service request no_reply

abbrev answered : CmdReply ℕ
answered = process_request parse_reply silent_reply service request (received (1 ∷ []))

process_request-answers_example :
    (is_answer answered.reply_type ≡ true)
    × (answered.cmd_type ≡ request.cmd_type)
    × ((h : ℕ) → request.header ≡ some h → answered.header ≡ some h)
    × (answered.reply_type ≡ ack
        → (ready service ≡ true)
          × (request.is_initialized ≡ true)
          × (is_answered parse_reply silent_reply request (received (1 ∷ [])) ≡ true))
process_request-answers_example =
    process_request-answers parse_reply silent_reply service request (received (1 ∷ [])) refl

-- A round of the discovery that finds device 3.
abbrev rounds : List (DeviceTypeRx → List Sample)
rounds = one_motor ∷ []

abbrev discovered : EcatMap
discovered =
    (
      3,
      record {
        ecat_id = 3;
        name = codes "ecat_" ++ to_string 3;
        type = PdoType.rx_cia402;
        channel = ChannelRx.motor;
        device = DeviceTypeRx.motor;
      },
    )
    ∷ []

discover_complete_example :
    IsMap (3 ∷ []) discovered × ((id : ℕ) → contains (ids discovered) id ≡ contains (3 ∷ []) id)
discover_complete_example = discover_complete (3 ∷ []) rounds discovered found
  where
    found : discover true (3 ∷ []) rounds ≡ some discovered
    found =
        unfold discover discover_rounds discover_once observe_channels observe_device observe_all
          observe is_skipped channels_array device_for contains to_uint32 in
        refl

announced : (id : ℕ) → contains (3 ∷ []) id ≡ true → any_of (round_announces id) rounds ≡ true
unfolding contains any_of channels_array device_for to_uint32
announced id h = ground arith

discover_returns_example : (result : EcatMap) × (discover true (3 ∷ []) rounds ≡ some result)
discover_returns_example =
    discover_returns (3 ∷ []) rounds (unfold contains in (refl, tt)) announced

abbrev sick_round : ℕ → Round
sick_round now = record { running = true; now = now; healthy = false }

graph_steps-verdicts_example :
    IsGraph (
      graph_steps
        (GraphOp.add_reader 8 ∷ GraphOp.add_reader 8 ∷ GraphOp.remove_reader 8 ∷ [])
        empty_graph)
    × ((a : ℕ)
        → memberships a (
            graph_steps
              (GraphOp.add_reader 8 ∷ GraphOp.add_reader 8 ∷ GraphOp.remove_reader 8 ∷ [])
              empty_graph)
          ≡ verdicts a
              (GraphOp.add_reader 8 ∷ GraphOp.add_reader 8 ∷ GraphOp.remove_reader 8 ∷ [])
              (memberships a empty_graph))
graph_steps-verdicts_example =
    graph_steps-verdicts
      (GraphOp.add_reader 8 ∷ GraphOp.add_reader 8 ∷ GraphOp.remove_reader 8 ∷ []) empty_graph
      (tt, tt)

worker_rounds-notices_example :
    (worker_rounds worker_start (sick_round 400000 ∷ sick_round 1000000 ∷ [])).cleared_running
    ≡ true
worker_rounds-notices_example =
    worker_rounds-notices (sick_round 400000 ∷ []) (sick_round 1000000) ((refl, refl), tt)
      (refl, refl) (omega arith)
