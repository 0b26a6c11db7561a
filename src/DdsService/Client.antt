-- ===== src/DdsService/Client.antt =====
-- `call` of service/service_client.hpp in plugins/advrf_cyclonedds_plugin and plugins/advrf_fastdds_plugin:
-- when it returns, and what.
use ecat_middleware_advr.Prelude.{
  ◌≡◌, refl, true, inl, inr, Bool-cases, List, [], ◌∷◌, ◌++◌, Option, none, some, Option-cases,
  any_of, arith,
}
use ecat_middleware_advr.DdsService.{
  Poll, take_one, take_valid, wait_reply, call_cyclone, call_fast,
}

module _ {Response : Type 0}
    (take : List (Option Response) → Option Response × List (Option Response)) where
  wait_reply-returns :
      (queue : List (Option Response)) (polls : List (Poll Response))
      → any_of (λ poll. poll.timed_out) polls ≡ true
      → (r : Option Response × List (Option Response)) × (wait_reply take queue polls ≡ some r)
  unfolding wait_reply any_of
  wait_reply-returns queue [] h = cc
  wait_reply-returns queue (poll ∷ polls) h = elim (Option-cases (take (queue ++ poll.arrived)).0) [
    | inl nothing ↦ elim (Bool-cases poll.timed_out) [
      | inl over ↦ ((none, (take (queue ++ poll.arrived)).1), rw (nothing, wait_reply, over) refl)
      | inr more ↦
          let (r, returned) =
            wait_reply-returns (take (queue ++ poll.arrived)).1 polls (ground arith) in
          (r, rw (nothing, wait_reply, more) returned)
    ]
    | inr (response, found) ↦
        ((some response, (take (queue ++ poll.arrived)).1), rw (found, wait_reply) refl)
  ]

module _ {Request Response : Type 0} (request : Request) where
  -- `call` returns, in both plugins, by the first poll behind which the time is up.
  pub call-returns :
      (queue : List (Option Response)) (polls : List (Poll Response))
      → any_of (λ poll. poll.timed_out) polls ≡ true
      → ((r : Option Response × List (Option Response)) × ((call_cyclone request queue polls).1
            ≡ some r))
        × ((r : Option Response × List (Option Response)) × ((call_fast request queue polls).1
              ≡ some r))
  unfolding call_cyclone call_fast
  call-returns queue polls h =
      (wait_reply-returns take_one queue polls h, wait_reply-returns take_valid queue polls h)

  -- A valid reply that is in the reader when a call starts, as one that came too late for an earlier call,
  -- is the result of the call in both plugins, whatever its request; the reply to that is left in the
  -- reader.
  pub call-late :
      (late : Response) (queue : List (Option Response)) (poll : Poll Response)
      (polls : List (Poll Response))
      → ((call_cyclone request (some late ∷ queue) (poll ∷ polls)).1
          ≡ some (some late, queue ++ poll.arrived))
        × ((call_fast request (some late ∷ queue) (poll ∷ polls)).1
            ≡ some (some late, queue ++ poll.arrived))
  unfolding call_cyclone call_fast take_one take_valid
  call-late late queue poll polls = (refl, refl)
