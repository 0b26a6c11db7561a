-- ===== src/DdsService/Repl.antt =====
-- `DDSAdapterService` of src/dds_adapter_service.cpp in plugins/advrf_cyclonedds_plugin and
-- plugins/advrf_fastdds_plugin: the REPL service of the core behind a DDS service. What the core reads of
-- a converted command, and the accessors of a reply, are the generated Protobuf classes; what ZeroMQ does
-- with a command is a step of the world.
use ecat_middleware_advr.Prelude.{
  ℕ, ◌≡◌, refl, sym, ap, ◌∙◌, true, false, List, [], ◌∷◌, map, Option, none, some, ◌==◌,
}
use ecat_middleware_advr.Converter.{Number}
use ecat_middleware_advr.Converter.Messages.{ReplCmdContentMsg}
use ecat_middleware_advr.Converter.Protobuf
use ecat_middleware_advr.Converter.Protobuf.{default_repl_cmd}
use ecat_middleware_advr.Converter.Commands.{repl_cmd_from_dds}
use ecat_middleware_advr.Converter.State.{CmdReply, ReplCmdResponseMsg, response_from_reply}
use ecat_middleware_advr.Service.{
  AdapterServiceServer, Transaction, ReplCmd, process_request, ready, is_answer, is_ack, ReplyType,
  ack, nack, other_reply,
}
use ecat_middleware_advr.Service
use ecat_middleware_advr.Service.Contract.{is_answered, process_request-answers}
use ecat_middleware_advr.DdsService.{spin_once_fast}

-- The messages of srv/ReplCmd.idl.
pub record ReplCmdRequest (RequestId V : Type 0) : Type 0 where
  pub request_id : RequestId
  pub request : ReplCmdContentMsg V

pub record ReplCmdResponse (RequestId : Type 0) : Type 0 where
  pub request_id : RequestId
  pub body : ReplCmdResponseMsg

is_ack_inv : (t : ReplyType) → is_ack t ≡ true → t ≡ ack
is_ack_inv ack h = refl
is_ack_inv nack h = cc
is_ack_inv (other_reply k) h = cc

module _ {RequestId V Header World : Type 0} ⦃n : Number V⦄ ⦃r : CmdReply (Service.CmdReply Header)⦄
    (parse : List ℕ → Option (Service.CmdReply Header)) (default_reply : Service.CmdReply Header)
    (view : Protobuf.ReplCmd V → ReplCmd Header)
    (exchange : ReplCmd Header → World → Transaction × World) (server : AdapterServiceServer) where
  -- The command as the core sees it.
  unfoldable pub command_of : ReplCmdRequest RequestId V → ReplCmd Header
  command_of request = view (repl_cmd_from_dds request.request default_repl_cmd)

  unfoldable pub process_request_dds :
      ReplCmdRequest RequestId V → World → ReplCmdResponse RequestId × World
  unfolding command_of
  process_request_dds request world =
      let (transaction, next) = exchange (command_of request) world in
      (
        record {
          request_id = request.request_id;
          body =
              response_from_reply
                (process_request parse default_reply server (command_of request) transaction);
        },
        next,
      )

  -- Every request is answered with its own ID. The answer is a success exactly if the core's reply is an
  -- ACK, and then the core's service was ready, the converted command was complete, and the master's reply
  -- answers it. Hypotheses: the accessor of the type tells an ACK from any other reply, and a reply that
  -- was only constructed is neither ACK nor NACK.
  pub process_request_dds-answers :
      (request : ReplCmdRequest RequestId V) (world : World)
      → ((reply : Service.CmdReply Header) → (r.type reply == r.ack) ≡ is_ack reply.reply_type)
      → is_answer default_reply.reply_type ≡ false
      → let response = (process_request_dds request world).0 in
        let transaction = (exchange (command_of request) world).0 in
        (response.request_id ≡ request.request_id)
        × (response.body.success
            ≡ is_ack
                (process_request parse default_reply server
                  (command_of request)
                  transaction).reply_type)
        × (response.body.success ≡ true
            → (ready server ≡ true)
              × ((command_of request).is_initialized ≡ true)
              × (is_answered parse default_reply (command_of request) transaction ≡ true))
  unfolding process_request_dds response_from_reply
  process_request_dds-answers request world reads d =
      let command = command_of request in
      let transaction = (exchange (command_of request) world).0 in
      let reply = process_request parse default_reply server command transaction in
      let (answer, cmd, header, acked) =
        process_request-answers parse default_reply server command transaction d in
      (
        refl,
        reads reply,
        λ success. acked (is_ack_inv reply.reply_type (sym (reads reply) ∙ success)),
      )

  -- The requests that hold data, and their IDs.
  abbrev pub request_ids : List (Option (ReplCmdRequest RequestId V)) → List RequestId
  request_ids [] = []
  request_ids (none ∷ queue) = request_ids queue
  request_ids (some request ∷ queue) = request.request_id ∷ request_ids queue

  -- A cycle of the Fast DDS server answers every valid request in the reader, in order, each once and
  -- with its own ID, and leaves none.
  pub spin_once_fast-ids :
      (queue : List (Option (ReplCmdRequest RequestId V))) (world : World)
      → let (left, written, next) = spin_once_fast (some process_request_dds) queue world in
        (left ≡ [])
        × (map (λ (response : ReplCmdResponse RequestId). response.request_id) written
            ≡ request_ids queue)
  unfolding spin_once_fast process_request_dds
  spin_once_fast-ids [] world = (refl, refl)
  spin_once_fast-ids (none ∷ queue) world = spin_once_fast-ids queue world
  spin_once_fast-ids (some request ∷ queue) world =
      let (left, ids) = spin_once_fast-ids queue (exchange (command_of request) world).1 in
      (left, ap (λ l. request.request_id ∷ l) ids)
