-- ===== src/Examples/DdsCommands.antt =====
-- The theorems on the services and subscribers of the DDS plugins, at concrete inputs.
use ecat_middleware_advr.Prelude.{
  ℕ, pos, ◌+◌, ◌-◌, ◌≡◌, refl, true, false, ◌==◌, List, [], ◌∷◌, ◌++◌, Option, none, some, codes,
  any_of, length, take, drop, arith,
}
use ecat_middleware_advr.Converter.Protobuf
use ecat_middleware_advr.Converter.State.{CmdReply}
use ecat_middleware_advr.Converter.Messages.{MotorTxPdoMsg}
use ecat_middleware_advr.Converter.MotorTx.{EcSlavePdo}
use ecat_middleware_advr.Service
use ecat_middleware_advr.Service.{
  AdapterServiceServer, ReplyType, ack, nack, other_reply, is_ack, is_answer, ReplCmd, Transaction,
  received, zmq, ready, process_request, other_cmd, foe_master,
}
use ecat_middleware_advr.Service.Contract.{is_answered}
use ecat_middleware_advr.Subscribers.Bounded.{Handed, bounded}
use ecat_middleware_advr.DdsService.{Poll, spin_once_fast, call_cyclone, call_fast}
use ecat_middleware_advr.DdsService.Equal.{spins_cyclone, spins_cyclone-eq-fast}
use ecat_middleware_advr.DdsService.Client.{call-returns}
use ecat_middleware_advr.DdsService.Repl.{
  ReplCmdRequest, ReplCmdResponse, command_of, process_request_dds, process_request_dds-answers,
}
use ecat_middleware_advr.DdsSubscribers.{
  DdsSubscriber, motor_subscriber, init_cyclone, init_fast, spin_once, ec_slave_message,
}
use ecat_middleware_advr.DdsSubscribers.Forwarded.{all_commands, for_motors, spin_once_lem}
use ecat_middleware_advr.Examples.Samples.{number}
use ecat_middleware_advr.Examples.Dds.{motor_message, start_request, two_devices}

-- A server that answers with the sum of what it was asked.
abbrev sum_up : ℕ → ℕ → ℕ × ℕ
sum_up request total = (total + request, total + request)

spins_cyclone-eq-fast_example : spins_cyclone (some sum_up) 2 (some 1 ∷ none ∷ some 5 ∷ []) 0 ≡ (
    let (left, written, next) =
      spin_once_fast (some sum_up) (take 2 (some 1 ∷ none ∷ some 5 ∷ [])) 0 in
    (drop 2 (some 1 ∷ none ∷ some 5 ∷ []), written, next))
spins_cyclone-eq-fast_example =
    spins_cyclone-eq-fast (some sum_up) 2 (some 1 ∷ none ∷ some 5 ∷ []) 0

-- Nothing arrives until the time is up.
abbrev silence : List (Poll ℕ)
silence =
    record { arrived = []; timed_out = false }
    ∷ record { arrived = none ∷ []; timed_out = true }
    ∷ []

call-returns_example :
    ((r : Option ℕ × List (Option ℕ)) × ((call_cyclone {Request = ℕ} 7 [] silence).1 ≡ some r))
    × ((r : Option ℕ × List (Option ℕ)) × ((call_fast {Request = ℕ} 7 [] silence).1 ≡ some r))
unfolding any_of
call-returns_example = call-returns 7 [] silence refl

abbrev reply_code : ReplyType → ℕ
reply_code ack = 1
reply_code nack = 2
reply_code (other_reply k) = k + 3

instance abbrev reply_accessors : CmdReply (Service.CmdReply ℕ)
reply_accessors = record {
  type = λ reply. reply_code reply.reply_type;
  ack = 1;
  msg = λ reply. reply.msg;
  str_id = λ reply. [];
  sec = λ reply. pos 0;
  nsec = λ reply. 0;
  pdo = λ reply. [];
}

reads_type : (t : ReplyType) → (reply_code t == 1) ≡ is_ack t
reads_type ack = refl
reads_type nack = refl
reads_type (other_reply k) = ground arith

abbrev default_reply : Service.CmdReply ℕ
default_reply = record {
  reply_type = other_reply 0;
  cmd_type = other_cmd 0;
  msg = [];
  header = none;
}

-- The master acknowledges every command of type 2.
abbrev parse_reply : List ℕ → Option (Service.CmdReply ℕ)
parse_reply bytes =
    some (record { reply_type = ack; cmd_type = other_cmd 2; msg = []; header = none })

abbrev seen_by_core : Protobuf.ReplCmd ℕ → ReplCmd ℕ
seen_by_core command = record {
  is_initialized = true;
  cmd_type = other_cmd command.type;
  header = none;
  serialized = [];
}

abbrev counted : ReplCmd ℕ → ℕ → Transaction × ℕ
counted command world = (received [], world + 1)

abbrev running : AdapterServiceServer
running = record {
  config = record {
    transport = zmq;
    command_uri = codes "tcp://127.0.0.1:5555";
    timeout_ms = 1000;
  };
  started = true;
}

abbrev repl_request : ReplCmdRequest ℕ ℕ
repl_request = record { request_id = 41; request = start_request }

abbrev repl_response : ReplCmdResponse ℕ
repl_response =
    (process_request_dds parse_reply default_reply seen_by_core counted running repl_request 0).0

process_request_dds-answers_example :
    (repl_response.request_id ≡ 41)
    × (repl_response.body.success
        ≡ is_ack
            (process_request parse_reply default_reply running
              (command_of parse_reply default_reply seen_by_core counted running repl_request)
              (received [])).reply_type)
    × (repl_response.body.success ≡ true
        → (ready running ≡ true)
          × ((command_of parse_reply default_reply seen_by_core counted running
                repl_request).is_initialized
              ≡ true)
          × (is_answered parse_reply default_reply
                (command_of parse_reply default_reply seen_by_core counted running repl_request)
                (received [])
              ≡ true))
process_request_dds-answers_example =
    process_request_dds-answers parse_reply default_reply seen_by_core counted running repl_request
      0 (λ reply. reads_type reply.reply_type) refl

-- Commands for a drive that was discovered and for a device that was not.
abbrev motor_reader : DdsSubscriber → List (Option (List (MotorTxPdoMsg ℕ)))
motor_reader subscriber = some (record motor_message { ecat_id = pos 77 } ∷ motor_message ∷ []) ∷ []

spin_once_lem_example :
    (spin_once two_devices (bounded 4) true motor_reader (init_cyclone true []).0 []
      ≡ []
        ++ take
            (4 - length {A = Handed (EcSlavePdo ℕ)} [])
            (for_motors two_devices (all_commands (motor_reader motor_subscriber))))
    × (spin_once two_devices (bounded 4) true motor_reader (init_fast true []).0 []
        ≡ []
          ++ take
              (4 - length {A = Handed (EcSlavePdo ℕ)} [])
              (for_motors two_devices (all_commands (motor_reader motor_subscriber))))
spin_once_lem_example = spin_once_lem two_devices 4 motor_reader []
