-- ===== src/Subscribers/Pushed.antt =====
-- When `AdapterSubscribers::push` of adapters/adapter_subscribers.hpp hands a PDO to a queue.
use ecat_middleware_advr.Prelude.{
  ℕ, ◌≡◌, refl, ◌↔◌, Bool, true, false, ◌&&◌, not, inl, inr, Bool-cases, Option, none, some, is_neg,
  to_uint32, arith,
}
use ecat_middleware_advr.Channel.{ChannelTx, DeviceTypeTx, device_for_tx}
use ecat_middleware_advr.Pdo.{PdoMessage}
use ecat_middleware_advr.Subscribers.{is_refused, push_to, push}

module _ {Pdo : Type 0} ⦃m : PdoMessage Pdo⦄ (accepts : DeviceTypeTx → ℕ → Pdo → Bool) where
  -- The message can be routed: it has a header with an index that is not negative.
  abbrev pub is_routed : Pdo → Bool
  is_routed msg = m.has_header msg && m.has_index msg && not (is_neg (m.index msg))

  push_to_lem :
      (is_ok : Bool) (msg : Pdo) (device : Option DeviceTypeTx) (d : DeviceTypeTx) (id : ℕ)
      → ((push_to accepts is_ok msg device).0 ≡ some (d, id)) ↔ (
          (device ≡ some d)
          × (is_ok ≡ true)
          × (is_routed msg ≡ true)
          × (to_uint32 (m.index msg) ≡ id))
  unfolding push_to is_refused
  push_to_lem is_ok msg none d id = (λ h. cc, λ h. cc)
  push_to_lem is_ok msg (some device) d id = (λ h. ground arith, λ h. ground arith)

  push_to_result :
      (is_ok : Bool) (msg : Pdo) (device : Option DeviceTypeTx) (d : DeviceTypeTx) (id : ℕ)
      → (push_to accepts is_ok msg device).0 ≡ some (d, id)
      → (push_to accepts is_ok msg device).1 ≡ accepts d id msg
  unfolding push_to
  push_to_result is_ok msg none d id h = cc
  push_to_result is_ok msg (some device) d id h = elim (Bool-cases (is_refused accepts is_ok msg)) [
    | inl e ↦ cc
    | inr e ↦ cc
  ]

  push_to_nothing :
      (is_ok : Bool) (msg : Pdo) (device : Option DeviceTypeTx)
      → (push_to accepts is_ok msg device).0 ≡ none
      → (push_to accepts is_ok msg device).1 ≡ false
  unfolding push_to
  push_to_nothing is_ok msg none h = refl
  push_to_nothing is_ok msg (some device) h = elim (Bool-cases (is_refused accepts is_ok msg)) [
    | inl e ↦ cc
    | inr e ↦ cc
  ]

  -- A PDO is handed to a queue exactly if its channel has that device, the connection is up and the PDO
  -- has a header with an index that is not negative, and its slave ID is that index. The result is true
  -- only if it was handed to a queue and accepted there.
  pub push_iff :
      (is_ok : Bool) (channel : ChannelTx) (msg : Pdo) (d : DeviceTypeTx) (id : ℕ)
      → (((push accepts is_ok channel msg).0 ≡ some (d, id)) ↔ (
          (device_for_tx channel ≡ some d)
          × (is_ok ≡ true)
          × (is_routed msg ≡ true)
          × (to_uint32 (m.index msg) ≡ id)))
        × ((push accepts is_ok channel msg).0 ≡ some (d, id)
            → (push accepts is_ok channel msg).1 ≡ accepts d id msg)
        × ((push accepts is_ok channel msg).0 ≡ none → (push accepts is_ok channel msg).1 ≡ false)
  unfolding push
  push_iff is_ok channel msg d id = (
    push_to_lem is_ok msg (device_for_tx channel) d id,
    push_to_result is_ok msg (device_for_tx channel) d id,
    push_to_nothing is_ok msg (device_for_tx channel),
  )
