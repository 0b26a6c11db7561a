-- ===== src/Inspector/Poll.antt =====
-- `poll` of bridge_inspector.hpp in tools/shm_tools: reading the queues, the statistics and the snapshot.
use ecat_middleware_advr.Prelude.{
  ℕ, ℤ, pos, negsuc, ◌+◌, ◌-◌, ◌/◌, Bool, true, false, List, [], ◌∷◌, ◌++◌, map, Option, none, some,
  if◌then◌else◌, Text, ltb, length, Result, ok, ◌>>=◌,
}
use ecat_middleware_advr.Inspector.{
  Proto, QueueDescriptor, QueueStats, new_stats, BridgeInspector, QueueContent, SharedMemoryState,
  find_key, put_key, initialize,
}

abbrev pub stats_or_new : Option QueueStats → QueueStats
stats_or_new none = new_stats
stats_or_new (some stats) = stats

-- The statistics of a queue with messages.
unfoldable pub observed : ℕ → ℕ → QueueStats → QueueStats
observed now count stats = record {
  total_observed = stats.total_observed + count;
  first_seen = if stats.initialized then stats.first_seen else now;
  last_seen = now;
  initialized = true;
}

module _ {Message : Type 0} where
  abbrev pub or_empty : Option (List Message) → List Message
  or_empty none = []
  or_empty (some messages) = messages

  -- `messages[name].push_back(message)` for each of some messages.
  unfoldable pub push_messages :
      Text → List Message → List (Text × List Message) → List (Text × List Message)
  push_messages name [] messages = messages
  push_messages name (message ∷ more) messages =
      push_messages name more
        (put_key name (or_empty (find_key messages name) ++ message ∷ []) messages)

  abbrev pub latest_of : Option Message → List Message
  latest_of none = []
  latest_of (some message) = message ∷ []

  -- What the reader of a queue finds.
  abbrev pub found : Bool → QueueContent Message → List Message
  found true content = content.all
  found false content = latest_of content.latest

  -- `read`, with what is in the queue of each name.
  unfoldable pub read :
      Bool
      → (Text → QueueContent Message)
      → List QueueDescriptor
      → List (Text × List Message)
      → List (Text × List Message)
  unfolding push_messages
  read history contents [] messages = messages
  read history contents (queue ∷ queues) messages =
      read history contents queues
        (push_messages queue.name (found history (contents queue.name)) messages)

  unfoldable pub update_stats :
      ℕ → List (Text × List Message) → List (Text × QueueStats) → List (Text × QueueStats)
  unfolding observed
  update_stats now [] stats = stats
  update_stats now ((name, []) ∷ messages) stats = update_stats now messages stats
  update_stats now ((name, message ∷ more) ∷ messages) stats = update_stats now messages (
      put_key name (observed now (length (message ∷ more)) (stats_or_new (find_key stats name)))
        stats)

-- A queue in a snapshot. The rate is `none` where it is 0.0.
pub record QueueSnapshot (Rate : Type 0) : Type 0 where
  pub name : Text
  pub proto : Proto
  pub buffered : ℕ
  pub capacity : ℕ
  pub observed_messages : ℕ
  pub observed_rate : Option Rate
  pub age_ms : ℤ
  pub messages : List Text

module _ {Message Rate : Type 0} (debug_string : Message → Text) (rate : ℕ → ℕ → Rate)
    (contents : Text → QueueContent Message) (now : ℕ) where
  abbrev pub no_snapshot : QueueDescriptor → List Text → QueueSnapshot Rate
  no_snapshot queue messages = record {
    name = queue.name;
    proto = queue.proto;
    buffered = (contents queue.name).size;
    capacity = queue.capacity;
    observed_messages = 0;
    observed_rate = none;
    age_ms = negsuc 0;
    messages = messages;
  }

  -- The statistics in a snapshot, where there are any. The rate is that of a positive time.
  unfoldable pub with_stats : Option QueueStats → QueueSnapshot Rate → QueueSnapshot Rate
  with_stats none item = item
  with_stats (some stats) item =
      if stats.initialized
      then record item {
        observed_messages = stats.total_observed;
        observed_rate =
            if ltb 0 (now - stats.first_seen)
            then some (rate stats.total_observed (now - stats.first_seen))
            else none;
        age_ms = pos ((now - stats.last_seen) / 1000000);
      }
      else item

  -- The queues of `make_snapshot`, and `total_buffered`.
  unfoldable pub make_snapshot :
      List (Text × List Message)
      → List (Text × QueueStats)
      → List QueueDescriptor
      → List (QueueSnapshot Rate) × ℕ
  unfolding with_stats
  make_snapshot messages stats [] = ([], 0)
  make_snapshot messages stats (queue ∷ queues) =
      let (items, total) = make_snapshot messages stats queues in
      (
        with_stats (find_key stats queue.name)
              (no_snapshot queue (map debug_string (or_empty (find_key messages queue.name))))
            ∷ items,
        (contents queue.name).size + total,
      )

  -- `read`, `update_stats` and `make_snapshot` one after the other.
  unfoldable pub poll_ready :
      Bool → BridgeInspector → BridgeInspector × List (QueueSnapshot Rate) × ℕ
  unfolding read update_stats make_snapshot
  poll_ready history s =
      let messages = read history contents s.queues [] in
      let stats = update_stats now messages s.stats in
      let (items, total) = make_snapshot messages stats s.queues in
      (record s { stats = stats }, items, total)

  -- `poll`: the inspector and what it shows, or the exception of `initialize`.
  unfoldable pub poll :
      Bool
      → Text
      → List QueueDescriptor
      → SharedMemoryState
      → BridgeInspector
      → Result Text (BridgeInspector × List (QueueSnapshot Rate) × ℕ)
  unfolding initialize poll_ready
  poll history shm_name declared shm s =
      initialize shm_name declared shm s >>= λ ready. ok (poll_ready history ready)
