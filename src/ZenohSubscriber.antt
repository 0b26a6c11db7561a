-- ===== src/ZenohSubscriber.antt =====
-- subscriber/zenoh_subscriber.hpp of plugins/advrf_zenoh_plugin: the queue between the thread in which
-- Zenoh delivers samples and the thread of the adapter. Both lock the mutex for as long as they touch
-- the queue, so what happens is a sequence of arrivals and of swaps. A callback is a step on what it
-- changes, with whether an exception left it.
pub mod Newest
use ecat_middleware_advr.Prelude.{
  ℕ, ◌+◌, ◌%◌, Bool, true, false, List, [], ◌∷◌, ◌++◌, Option, none, some, if◌then◌else◌, leb,
  length, u64_mod,
}

-- Without the callback, the deserialiser and the mutex. `pending` has the oldest message first.
pub record ZenohSubscriber (Message : Type 0) : Type 0 where
  pub history_depth : ℕ
  pub dropped_samples : ℕ
  pub pending : List Message

-- `std::max<std::size_t>(1, history_depth)`.
unfoldable pub at_least_one : ℕ → ℕ
at_least_one depth = if leb 1 depth then depth else 1

module _ {Message : Type 0} where
  unfoldable pub new_subscriber : ℕ → ZenohSubscriber Message
  unfolding at_least_one
  new_subscriber history_depth = record {
    history_depth = at_least_one history_depth;
    dropped_samples = 0;
    pending = [];
  }

  -- `while (pending_.size() >= history_depth_) { pending_.pop_front(); ++dropped_samples_; }`, on a depth
  -- that is positive: the queue is not empty where it is popped.
  unfoldable pub drop_oldest : ℕ → ℕ → List Message → ℕ × List Message
  drop_oldest depth dropped [] = (dropped, [])
  drop_oldest depth dropped (oldest ∷ rest) =
      let fewer = drop_oldest depth ((dropped + 1) % u64_mod) rest in
      if leb depth (length (oldest ∷ rest)) then fewer else (dropped, oldest ∷ rest)

  unfoldable pub enqueue : ZenohSubscriber Message → Message → ZenohSubscriber Message
  unfolding drop_oldest
  enqueue s message =
      let (dropped, kept) = drop_oldest s.history_depth s.dropped_samples s.pending in
      record s { dropped_samples = dropped; pending = kept ++ message ∷ [] }

  -- A sample that arrives: what its deserialiser makes of it, if it succeeds.
  unfoldable pub on_sample : ZenohSubscriber Message → Option Message → ZenohSubscriber Message
  unfolding enqueue
  on_sample s none = s
  on_sample s (some message) = enqueue s message

  unfoldable pub on_samples :
      ZenohSubscriber Message → List (Option Message) → ZenohSubscriber Message
  on_samples s [] = s
  on_samples s (sample ∷ samples) = on_samples (on_sample s sample) samples

  -- The loop over the messages. What the callback has changed stays, also where it throws: the
  -- exception is logged and the loop goes on.
  unfoldable pub run_callback :
      {S : Type 0} → Option (Message → S → S × Bool) → List Message → S → S
  run_callback callback [] state = state
  run_callback none (message ∷ messages) state = run_callback none messages state
  run_callback (some callback) (message ∷ messages) state =
      run_callback (some callback) messages (callback message state).0

  unfoldable pub spin_once :
      {S : Type 0}
      → Option (Message → S → S × Bool)
      → ZenohSubscriber Message
      → S
      → ZenohSubscriber Message × S
  unfolding run_callback
  spin_once callback s state = (record s { pending = [] }, run_callback callback s.pending state)
