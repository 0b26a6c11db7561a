-- ===== src/DdsService.antt =====
-- service/service_server.hpp and service/service_client.hpp of plugins/advrf_cyclonedds_plugin and of
-- plugins/advrf_fastdds_plugin: requests and replies over DDS. A DDS reader is the queue of its samples,
-- where a sample with no valid data is `none`; a writer is the list of what is written. A callback is a
-- step on what it changes.
pub mod Equal
pub mod Repl
pub mod Client
use ecat_middleware_advr.Prelude.{
  ℕ, ℤ, Bool, true, false, List, [], ◌∷◌, ◌++◌, map, Option, none, some, if◌then◌else◌,
}

module _ {Request Response S : Type 0} where
  -- A sample that was taken: what is written for it, and what the callback leaves.
  unfoldable pub serve :
      Option (Request → S → Response × S) → Option Request → S → List Response × S
  serve callback none state = ([], state)
  serve none (some request) state = ([], state)
  serve (some callback) (some request) state =
      let (response, next) = callback request state in (response ∷ [], next)

  -- `spin_once` of Cyclone DDS: `dds_take` has room for one sample. The queue behind it, what is written,
  -- and what the callback leaves.
  unfoldable pub spin_once_cyclone :
      Option (Request → S → Response × S)
      → List (Option Request)
      → S
      → List (Option Request) × List Response × S
  unfolding serve
  spin_once_cyclone callback [] state = ([], [], state)
  spin_once_cyclone callback (sample ∷ queue) state =
      let (written, next) = serve callback sample state in (queue, written, next)

  -- `spin_once` of Fast DDS: `take_next_sample` until there is none.
  unfoldable pub spin_once_fast :
      Option (Request → S → Response × S)
      → List (Option Request)
      → S
      → List (Option Request) × List Response × S
  unfolding serve
  spin_once_fast callback [] state = ([], [], state)
  spin_once_fast callback (sample ∷ queue) state =
      let (written, next) = serve callback sample state in
      let (left, more, last) = spin_once_fast callback queue next in (left, written ++ more, last)

-- What a poll of the client finds, and whether the time is up behind it.
pub record Poll (Response : Type 0) : Type 0 where
  pub arrived : List (Option Response)
  pub timed_out : Bool

module _ {Response : Type 0} where
  -- One sample of the queue, if it is valid: `dds_take` of Cyclone DDS. The reply and the queue behind.
  unfoldable pub take_one : List (Option Response) → Option Response × List (Option Response)
  take_one [] = (none, [])
  take_one (sample ∷ queue) = (sample, queue)

  -- Samples up to the first that is valid: the inner loop of Fast DDS.
  unfoldable pub take_valid : List (Option Response) → Option Response × List (Option Response)
  take_valid [] = (none, [])
  take_valid (none ∷ queue) = take_valid queue
  take_valid (some response ∷ queue) = (some response, queue)

  -- The loop of `call`, over its polls, with what a poll takes: the result and the queue that it leaves.
  -- The outer option is `none` while the polls end and it still waits.
  unfoldable pub wait_reply :
      (List (Option Response) → Option Response × List (Option Response))
      → List (Option Response)
      → List (Poll Response)
      → Option (Option Response × List (Option Response))
  wait_reply take queue [] = none
  wait_reply take queue (poll ∷ polls) =
      let (reply, left) = take (queue ++ poll.arrived) in
      let rest = wait_reply take left polls in
      elim reply [
        | some response ↦ some (some response, left)
        | none ↦ if poll.timed_out then some (none, left) else rest
      ]

-- `call`: the request is written, and then a reply is awaited.
abbrev pub CallResult : Type 0 → Type 0 → Type 0
CallResult Request Response = List Request × Option (Option Response × List (Option Response))

module _ {Request Response : Type 0} where
  unfoldable pub call_cyclone :
      Request → List (Option Response) → List (Poll Response) → CallResult Request Response
  unfolding wait_reply
  call_cyclone request queue polls = (request ∷ [], wait_reply take_one queue polls)

  unfoldable pub call_fast :
      Request → List (Option Response) → List (Poll Response) → CallResult Request Response
  unfolding wait_reply
  call_fast request queue polls = (request ∷ [], wait_reply take_valid queue polls)
