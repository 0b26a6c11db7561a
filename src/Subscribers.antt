-- ===== src/Subscribers.antt =====
-- adapters/adapter_subscribers.hpp of core/advrf_middleware_core: forwarding a PDO to the transmit queue
-- of a channel. The queue, in shared memory, is the answer of `ShmProtoHelper::push`.
pub mod Pushed
pub mod Bounded
use ecat_middleware_advr.Prelude.{
  ℕ, Bool, true, false, ◌||◌, not, Option, none, some, if◌then◌else◌, is_neg, to_uint32,
}
use ecat_middleware_advr.Channel.{ChannelTx, DeviceTypeTx, device_for_tx}
use ecat_middleware_advr.Pdo.{PdoMessage}

module _ {Pdo : Type 0} ⦃m : PdoMessage Pdo⦄ (accepts : DeviceTypeTx → ℕ → Pdo → Bool) where
  -- The guard of `push` on the connection and on the message.
  unfoldable pub is_refused : Bool → Pdo → Bool
  is_refused is_ok msg =
      not is_ok || not (m.has_header msg) || not (m.has_index msg) || is_neg (m.index msg)

  -- What is handed to which queue, under which slave ID, and the result.
  unfoldable pub push_to : Bool → Pdo → Option DeviceTypeTx → Option (DeviceTypeTx × ℕ) × Bool
  push_to is_ok msg none = (none, false)
  push_to is_ok msg (some device) =
      let slave_id = to_uint32 (m.index msg) in
      if is_refused is_ok msg
      then (none, false)
      else (some (device, slave_id), accepts device slave_id msg)

  unfoldable pub push : Bool → ChannelTx → Pdo → Option (DeviceTypeTx × ℕ) × Bool
  push is_ok channel msg = push_to is_ok msg (device_for_tx channel)

module _ {Pdo Queues : Type 0} ⦃m : PdoMessage Pdo⦄
    (put : DeviceTypeTx → ℕ → Pdo → Queues → Queues × Bool) (is_ok : Bool) where
  -- The transmit queues as a state: what is handed over goes into one, which accepts it or not.
  abbrev put_handed : Option (DeviceTypeTx × ℕ) → Pdo → Queues → Queues
  put_handed none pdo queues = queues
  put_handed (some (device, slave_id)) pdo queues = (put device slave_id pdo queues).0

  unfoldable pub push_into : ChannelTx → Pdo → Queues → Queues × Bool
  unfolding push
  push_into channel pdo queues =
      let pushed = push (λ device slave_id p. (put device slave_id p queues).1) is_ok channel pdo in
      (put_handed pushed.0 pdo queues, pushed.1)
