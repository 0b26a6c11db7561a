-- ===== src/Service/Contract.antt =====
-- What the REPL service of core/advrf_middleware_core promises to a client: every request is
-- answered, a reply is passed on only if it answers this request, and a result says whether the
-- outcome is known.
use ecat_middleware_advr.Prelude.{
  ℕ, ◌≤◌, ◌≡◌, ◌↔◌, inl, inr, Bool, true, false, ◌&&◌, not, List, Option, none, some, arith,
  is_empty, ok, Option-cases,
}
use ecat_middleware_advr.Service.{
  ServiceConfig, CmdType, same_cmd, ack, is_answer, is_ack, CmdReply, ReplCmd, Transaction,
  error_before, send_failed, error_after, no_reply, received, AdapterServiceServer, zmq, construct,
  ready, start, is_ok, close, process_request_result, process_request,
}

pub same_cmd_iff : (c d : CmdType) → (same_cmd c d ≡ true) ↔ (c ≡ d)
same_cmd_iff c d = ground arith

-- Whether the message of a transaction was handed to the socket.
abbrev pub was_sent : Transaction → Bool
was_sent (error_before what) = false
was_sent send_failed = false
was_sent _ = true

-- A service that was built is over ZeroMQ, with an address and a timeout from 1 to 60000 ms, and one
-- is built from every such configuration.
pub construct_iff :
    (c : ServiceConfig)
    → (construct c ≡ ok (record { config = c; started = false })) ↔ (
        (c.transport ≡ zmq)
        × (is_empty c.command_uri ≡ false)
        × (1 ≤ c.timeout_ms)
        × (c.timeout_ms ≤ 60000))
unfolding construct
construct_iff c = ground arith

-- A service that was built starts, is usable from then on until it is closed, and not after.
pub construct-lifecycle :
    (c : ServiceConfig) (s : AdapterServiceServer)
    → construct c ≡ ok s
    → (is_ok s ≡ false)
      × ((start s).1 ≡ true)
      × (is_ok (start s).0 ≡ true)
      × (is_ok (close (start s).0) ≡ false)
unfolding construct start is_ok close
construct-lifecycle c s h = ground arith

module _ {Header : Type 0} (parse : List ℕ → Option (CmdReply Header))
    (default_reply : CmdReply Header) where
  -- Whether a reply came that answers the request: it can be parsed, has the command type of the
  -- request, and is an ACK or a NACK.
  pub answers : ReplCmd Header → Option (CmdReply Header) → Bool
  answers request none = false
  answers request (some reply) =
      same_cmd reply.cmd_type request.cmd_type && is_answer reply.reply_type

  pub is_answered : ReplCmd Header → Transaction → Bool
  unfolding answers
  is_answered request (received bytes) = answers request (parse bytes)
  is_answered request _ = false

  -- A result has an unknown outcome exactly if the service was ready and the request complete, so
  -- that its message was sent, and no reply that answers it came.
  pub outcome_unknown_lem :
      (s : AdapterServiceServer) (request : ReplCmd Header) (t : Transaction)
      → (process_request_result parse default_reply s request t).outcome_unknown
        ≡ (ready s && request.is_initialized && was_sent t && not (is_answered request t))
  unfolding process_request_result is_answered
  outcome_unknown_lem s request (received bytes) = elim (Option-cases (parse bytes)) [
    | inl e ↦ rw e (ground arith)
    | inr (reply, e) ↦ rw e (ground arith)
  ]
  outcome_unknown_lem s request (error_before what) = ground arith
  outcome_unknown_lem s request send_failed = ground arith
  outcome_unknown_lem s request (error_after what) = ground arith
  outcome_unknown_lem s request no_reply = ground arith

  -- The fate of the request in a success: the service was ready, the request complete, and the reply
  -- answers it with an ACK.
  pub success_lem :
      (s : AdapterServiceServer) (request : ReplCmd Header) (t : Transaction)
      → (process_request_result parse default_reply s request t).success ≡ (
          ready s
          && request.is_initialized
          && is_answered request t
          && is_ack (process_request_result parse default_reply s request t).reply.reply_type)
  unfolding process_request_result is_answered
  success_lem s request (received bytes) = elim (Option-cases (parse bytes)) [
    | inl e ↦ ground arith
    | inr (reply, e) ↦ ground arith
  ]
  success_lem s request (error_before what) = ground arith
  success_lem s request send_failed = ground arith
  success_lem s request (error_after what) = ground arith
  success_lem s request no_reply = ground arith

  -- Every request is answered by an ACK or a NACK of its own command type and with its own header, if
  -- it has one. It is an ACK only if the service was ready and the master's reply answers the request.
  pub process_request-answers :
      (s : AdapterServiceServer) (request : ReplCmd Header) (t : Transaction)
      → is_answer default_reply.reply_type ≡ false
      → let reply = process_request parse default_reply s request t in
        (is_answer reply.reply_type ≡ true)
        × (reply.cmd_type ≡ request.cmd_type)
        × ((h : Header) → request.header ≡ some h → reply.header ≡ some h)
        × (reply.reply_type ≡ ack
            → (ready s ≡ true) × (request.is_initialized ≡ true) × (is_answered request t ≡ true))
  unfolding process_request is_answered
  process_request-answers s request (received bytes) d = elim (Option-cases (parse bytes)) [
    | inl e ↦ ground arith
    | inr (reply, e) ↦ ground arith
  ]
  process_request-answers s request (error_before what) d = ground arith
  process_request-answers s request send_failed d = ground arith
  process_request-answers s request (error_after what) d = ground arith
  process_request-answers s request no_reply d = ground arith
