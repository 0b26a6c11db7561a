-- ===== src/ZenohPublishers/Cycles.antt =====
-- What adapters/zenoh_adapter_bridge.hpp of plugins/advrf_zenoh_plugin writes in a cycle of the core's
-- adapters/adapter_publishers.hpp.
use ecat_middleware_advr.Prelude.{
  ℕ, ◌≡◌, refl, sym, ap, ◌∙◌, Bool, true, false, List, [], ◌∷◌, ◌++◌, append-nil, append_assoc,
  append_cancel_left, Option, if◌then◌else◌, Result, ok, err, ◌>>=◌,
}
use ecat_middleware_advr.Pdo.{PdoMessage}
use ecat_middleware_advr.Converter.{Number}
use ecat_middleware_advr.Converter.Received.{PdoPayloads}
use ecat_middleware_advr.Converter.State.{NullString}
use ecat_middleware_advr.Publishers.{
  PublisherCall, ChannelCaches, Subscription, dispatch_subscription,
}
use ecat_middleware_advr.Publishers.Dispatch.Offers.{consumes, delivered}
use ecat_middleware_advr.Publishers.Dispatch.Cycle.{reported, dispatch_subscription-calls}
use ecat_middleware_advr.ZenohState.{StateMsg, Ros2MessageType, serialize_cycle}
use ecat_middleware_advr.ZenohSubscribers.{WireFormat}
use ecat_middleware_advr.ZenohPublishers.{
  ZenohBridge, begin_cycle, consume, Encoders, encoded, serialize_all, payloads, publish_each,
  end_cycle, on_call, on_calls,
}

module _ {Pdo : Type 0} where
  abbrev pub pdos_of : List (ℕ × Pdo) → List Pdo
  pdos_of [] = []
  pdos_of ((id, pdo) ∷ entries) = pdo ∷ pdos_of entries

  -- The bridge when a cycle has given it its PDOs.
  abbrev pub holding : ZenohBridge Pdo → List Pdo → ZenohBridge Pdo
  holding bridge pdos = record bridge { messages = pdos }

module _ {Pdo V Payload : Type 0} ⦃p : PdoMessage Pdo⦄ ⦃q : PdoPayloads Pdo V⦄ ⦃n : Number V⦄
    (enc : Encoders Pdo V Payload) where
  -- What is to be written of the PDOs of a valid cycle: in Protobuf a payload for each that can be
  -- serialised, in CDR one for all of them together.
  abbrev pub to_write : WireFormat → Ros2MessageType → List Pdo → Result NullString (List Payload)
  to_write wire_format ros2_type [] = ok []
  to_write WireFormat.protobuf ros2_type (pdo ∷ pdos) =
      ok (publish_each enc WireFormat.protobuf (pdo ∷ pdos))
  to_write WireFormat.ros2_cdr ros2_type (pdo ∷ pdos) =
      serialize_cycle {V = V} ros2_type (pdo ∷ pdos) >>= λ msg. ok (payloads enc (encoded enc msg))

  -- A bridge with what it has written.
  abbrev pub written_by :
      ZenohBridge Pdo
      → Result NullString (List Payload)
      → Result NullString (ZenohBridge Pdo × List Payload)
  written_by bridge (err e) = err e
  written_by bridge (ok written) = ok (bridge, written)

  nothing_before :
      (run : Result NullString (ZenohBridge Pdo × List Payload))
      → (run >>= λ rest. ok (rest.0, [] ++ rest.1)) ≡ run
  nothing_before (err e) = refl
  nothing_before (ok (bridge, written)) = refl

  by_written :
      (bridge : ZenohBridge Pdo) (run : Result NullString (List Payload))
      → ((run >>= λ written.
            let both : ZenohBridge Pdo × List Payload = (bridge, written) in ok both)
          >>= λ first. ok (first.0, first.1 ++ []))
        ≡ written_by bridge run
  by_written bridge (err e) = refl
  by_written bridge (ok written) = ap (λ w. ok (bridge, w)) (append-nil written)

  on_calls-consumes :
      (entries : List (ℕ × Pdo)) (calls : List (PublisherCall Pdo)) (bridge : ZenohBridge Pdo)
      → on_calls enc (consumes entries ++ calls) bridge
        ≡ on_calls enc calls (holding bridge (bridge.messages ++ pdos_of entries))
  unfolding on_calls on_call consume
  on_calls-consumes [] calls bridge = rw append-nil refl
  on_calls-consumes ((id, pdo) ∷ entries) calls bridge =
      nothing_before
        (on_calls enc (consumes entries ++ calls) (holding bridge (bridge.messages ++ pdo ∷ [])))
      ∙ on_calls-consumes entries calls (holding bridge (bridge.messages ++ pdo ∷ []))
      ∙ ap (λ pdos. on_calls enc calls (holding bridge pdos))
          (append_assoc bridge.messages (pdo ∷ []) (pdos_of entries))

  payloads-encoded :
      (run : Result NullString (Option (StateMsg V)))
      → ((run >>= λ msg. ok (encoded enc msg)) >>= λ payload. ok (payloads enc payload))
        ≡ (run >>= λ msg. ok (payloads enc (encoded enc msg)))
  payloads-encoded (err e) = refl
  payloads-encoded (ok msg) = refl

  end_cycle-to_write :
      (f : WireFormat) (t : Ros2MessageType) (valid : Bool) (pdos : List Pdo)
      → end_cycle enc valid
          (record { ready = true; wire_format = f; ros2_type = t; messages = pdos })
        ≡ (if valid then to_write f t pdos else ok [])
  unfolding end_cycle serialize_all
  end_cycle-to_write f t false pdos = refl
  end_cycle-to_write f t true [] = refl
  end_cycle-to_write WireFormat.protobuf t true (pdo ∷ pdos) = refl
  end_cycle-to_write WireFormat.ros2_cdr t true (pdo ∷ pdos) =
      payloads-encoded (serialize_cycle t (pdo ∷ pdos))

  on_calls-begin :
      (calls : List (PublisherCall Pdo)) (bridge : ZenohBridge Pdo)
      → on_calls enc (PublisherCall.begin_cycle ∷ calls) bridge
        ≡ on_calls enc calls (holding bridge [])
  unfolding on_calls on_call begin_cycle
  on_calls-begin calls bridge = nothing_before (on_calls enc calls (holding bridge []))

  on_calls-end :
      (valid : Bool) (bridge : ZenohBridge Pdo)
      → on_calls enc (PublisherCall.end_cycle valid ∷ []) bridge
        ≡ written_by bridge (end_cycle enc valid bridge)
  unfolding on_calls on_call
  on_calls-end valid bridge = by_written bridge (end_cycle enc valid bridge)

  -- A bridge that was initialised gets the calls that a cycle adds to its subscription. It writes what is
  -- to be written of the delivered PDOs if the cycle is reported as valid, and nothing otherwise.
  pub on_calls-to_write :
      (caches : ChannelCaches Pdo) (s : Subscription Pdo) (calls : List (PublisherCall Pdo))
      (bridge : ZenohBridge Pdo)
      → bridge.ready ≡ true
      → (dispatch_subscription caches s).calls ≡ s.calls ++ calls
      → on_calls enc calls bridge
        ≡ written_by (holding bridge (pdos_of (delivered caches s))) (
            if reported caches s
            then to_write bridge.wire_format bridge.ros2_type (pdos_of (delivered caches s))
            else ok [])
  on_calls-to_write caches s calls bridge ready added =
      ap (λ cs. on_calls enc cs bridge)
        (append_cancel_left s.calls _ _ (sym added ∙ dispatch_subscription-calls caches s))
      ∙ on_calls-begin (consumes (delivered caches s) ++ last) bridge
      ∙ on_calls-consumes (delivered caches s) last (holding bridge [])
      ∙ on_calls-end (reported caches s) (holding bridge pdos)
      ∙ ap
          (λ r.
            written_by (holding bridge pdos)
              (end_cycle enc (reported caches s) (record (holding bridge pdos) { ready = r })))
          ready
      ∙ ap (written_by (holding bridge pdos))
          (end_cycle-to_write bridge.wire_format bridge.ros2_type (reported caches s) pdos)
    where
      pdos : List Pdo
      pdos = pdos_of (delivered caches s)

      last : List (PublisherCall Pdo)
      last = PublisherCall.end_cycle (reported caches s) ∷ []
