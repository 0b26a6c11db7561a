-- ===== src/Producer/Replies.antt =====
-- The replies of src/producer.cpp in core/advrf_middleware_core, in a queue of bounded size.
use ecat_middleware_advr.Prelude.{
  ℕ, ◌-◌, ◌≡◌, sym, ◌∙◌, Bool, true, false, inl, inr, Bool-cases, List, [], ◌∷◌, ◌++◌, map,
  if◌then◌else◌, ltb, ltb→lt, arith, length, take,
}
use ecat_middleware_advr.Service.{CmdReply}
use ecat_middleware_advr.Subscribers.Bounded.{take-room, take-full, take-end}
use ecat_middleware_advr.Producer.{rx_pdo_message}
use ecat_middleware_advr.Producer.Master.{Slave, Request, reply_to, answer_all}

module _ {Header : Type 0} (capacity : ℕ) (slaves : List Slave) where
  -- A queue of replies with that capacity, from which nothing is taken meanwhile.
  abbrev pub bounded_replies :
      CmdReply Header → List (CmdReply Header) → List (CmdReply Header) × Bool
  bounded_replies reply queue =
      if ltb (length queue) capacity then (queue ++ reply ∷ [], true) else (queue, false)

  -- The requests that were drained are answered in order, each by the reply to it, as many as fit.
  pub answer_all-bounded :
      (cmds : List (Request Header)) (queue : List (CmdReply Header))
      → answer_all bounded_replies slaves cmds queue
        ≡ queue ++ take (capacity - length queue) (map (reply_to slaves) cmds)
  unfolding answer_all
  answer_all-bounded [] queue = take-end capacity queue
  answer_all-bounded (cmd ∷ cmds) queue = elim (Bool-cases (ltb (length queue) capacity)) [
    | inl room ↦ rw room (
        answer_all-bounded cmds (queue ++ reply_to slaves cmd ∷ [])
        ∙ take-room capacity queue (reply_to slaves cmd) (map (reply_to slaves) cmds)
            (ltb→lt _ _ room))
    | inr full ↦ rw full (
        answer_all-bounded cmds queue
        ∙ sym (take-full capacity queue (map (reply_to slaves) cmds) (ground arith))
        ∙ take-full capacity queue _ (ground arith))
  ]
