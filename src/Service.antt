-- ===== src/Service.antt =====
-- adapters/adapter_service.hpp and src/adapter_service.cpp of core/advrf_middleware_core: the REPL
-- service over ZeroMQ. ZeroMQ and the Protobuf messages are not in the repository: what a transaction
-- on a fresh socket comes to is an argument, a request is what the service reads of it, and the
-- parser of replies and the default reply are parameters.
pub mod Contract
use ecat_middleware_advr.Prelude.{
  ℕ, Bool, true, false, ◌&&◌, ◌||◌, not, List, [], ◌∷◌, ◌++◌, Option, none, some, if◌then◌else◌,
  ltb, ◌==◌, Text, codes, is_empty, ℤ, Result, ok, err,
}

pub data ServiceTransport : Type 0 where
  shm zmq : ServiceTransport

pub record ServiceConfig : Type 0 where
  pub transport : ServiceTransport
  pub command_uri : Text
  pub timeout_ms : ℕ

-- The enumerators of `CmdType` that the service names, and any other.
pub data CmdType : Type 0 where
  ecat_master_cmd foe_master : CmdType
  other_cmd : ℕ → CmdType

abbrev pub same_cmd : CmdType → CmdType → Bool
same_cmd ecat_master_cmd ecat_master_cmd = true
same_cmd foe_master foe_master = true
same_cmd (other_cmd m) (other_cmd n) = m == n
same_cmd _ _ = false

-- `Cmd_reply::Type`.
pub data ReplyType : Type 0 where
  ack nack : ReplyType
  other_reply : ℕ → ReplyType

abbrev pub is_ack : ReplyType → Bool
is_ack ack = true
is_ack _ = false

abbrev pub is_answer : ReplyType → Bool
is_answer ack = true
is_answer nack = true
is_answer _ = false

-- A header is passed on whole.
pub record CmdReply (Header : Type 0) : Type 0 where
  pub reply_type : ReplyType
  pub cmd_type : CmdType
  pub msg : Text
  pub header : Option Header

-- `serialized` is what `SerializeAsString` returns.
pub record ReplCmd (Header : Type 0) : Type 0 where
  pub is_initialized : Bool
  pub cmd_type : CmdType
  pub header : Option Header
  pub serialized : List ℕ

pub record ServiceResult (Header : Type 0) : Type 0 where
  pub success : Bool
  pub outcome_unknown : Bool
  pub message : Text
  pub reply : CmdReply Header

-- What the calls of ZeroMQ come to in one transaction: an exception with its text before or after
-- the message was sent, a failed send, no reply in time, or the bytes of a reply.
pub data Transaction : Type 0 where
  error_before : Text → Transaction
  send_failed : Transaction
  error_after : Text → Transaction
  no_reply : Transaction
  received : List ℕ → Transaction

pub record AdapterServiceServer : Type 0 where
  pub config : ServiceConfig
  pub started : Bool

abbrev pub is_zmq : ServiceTransport → Bool
is_zmq zmq = true
is_zmq shm = false

-- The constructor; an error is its exception.
unfoldable pub construct : ServiceConfig → Result Text AdapterServiceServer
construct config =
    if not (is_zmq config.transport)
    then err (codes "REPL SHM service is unsupported by the v3 master; use zmq")
    else if is_empty config.command_uri || config.timeout_ms == 0 || ltb 60000 config.timeout_ms
    then err (codes "REPL: provide URI and timeout between 1 and 60000 ms")
    else ok (record { config = config; started = false })

unfoldable pub ready : AdapterServiceServer → Bool
ready s = s.started && is_zmq s.config.transport

unfoldable pub start : AdapterServiceServer → AdapterServiceServer × Bool
start s = let started = is_zmq s.config.transport in (record s { started = started }, started)

unfoldable pub is_ok : AdapterServiceServer → Bool
unfolding ready
is_ok s = ready s

unfoldable pub close : AdapterServiceServer → AdapterServiceServer
close s = record s { started = false }

module _ {Header : Type 0} (parse : List ℕ → Option (CmdReply Header))
    (default_reply : CmdReply Header) where
  -- The two frames of the request, in the order in which they are sent.
  unfoldable pub outgoing : ReplCmd Header → List (List ℕ)
  outgoing request =
      (if same_cmd request.cmd_type ecat_master_cmd || same_cmd request.cmd_type foe_master
        then codes "MASTER_CMD"
        else codes "ESC_CMD")
      ∷ request.serialized
      ∷ []

  abbrev failure : Bool → Text → ServiceResult Header
  failure unknown message = record {
    success = false;
    outcome_unknown = unknown;
    message = message;
    reply = default_reply;
  }

  -- The header of the request, where it has one, replaces that of the reply.
  abbrev pub with_header : Option Header → CmdReply Header → CmdReply Header
  with_header none reply = reply
  with_header (some h) reply = record reply { header = some h }

  abbrev malformed : ServiceResult Header
  malformed = failure true (codes "Malformed or unexpected master reply; command outcome unknown")

  unfoldable pub on_reply : ReplCmd Header → Option (CmdReply Header) → ServiceResult Header
  on_reply request none = malformed
  on_reply request (some reply) =
      if not (same_cmd reply.cmd_type request.cmd_type) || not (is_answer reply.reply_type)
      then malformed
      else record {
        success = is_ack reply.reply_type;
        outcome_unknown = false;
        message = reply.msg;
        reply = with_header request.header reply;
      }

  unfoldable pub on_transaction : ReplCmd Header → Transaction → ServiceResult Header
  unfolding on_reply
  on_transaction request (error_before what) = failure false (codes "ZeroMQ: " ++ what)
  on_transaction request send_failed = failure false (codes "ZeroMQ send failed")
  on_transaction request (error_after what) = failure true (codes "ZeroMQ: " ++ what)
  on_transaction request no_reply =
      failure true (codes "Master reply timeout; command outcome unknown; no automatic retry")
  on_transaction request (received bytes) = on_reply request (parse bytes)

  unfoldable pub execute_zmq : ReplCmd Header → Transaction → ServiceResult Header
  unfolding on_transaction
  execute_zmq request t =
      if not request.is_initialized
      then failure false (codes "Uninitialized REPL command")
      else on_transaction request t

  -- `t` is what the transaction comes to, if one is made.
  unfoldable pub process_request_result :
      AdapterServiceServer → ReplCmd Header → Transaction → ServiceResult Header
  unfolding ready execute_zmq
  process_request_result s request t =
      if not (ready s)
      then failure false (codes "REPL service is not started")
      else execute_zmq request t

  -- The other fields of a new reply are those of the default one.
  unfoldable pub make_nack : ReplCmd Header → Text → CmdReply Header
  make_nack request message =
      with_header request.header
        (record default_reply { reply_type = nack; cmd_type = request.cmd_type; msg = message })

  unfoldable pub process_request :
      AdapterServiceServer → ReplCmd Header → Transaction → CmdReply Header
  unfolding process_request_result make_nack
  process_request s request t =
      let result = process_request_result s request t in
      if is_answer result.reply.reply_type then result.reply else make_nack request result.message
