-- ===== src/Inspector/Polled.antt =====
-- What a poll of bridge_inspector.hpp in tools/shm_tools shows of each queue.
use ecat_middleware_advr.Prelude.{
  ℕ, ◌+◌, Bool, List, [], ◌∷◌, ◌++◌, map, Option, some, if◌then◌else◌, Text, text_eq, length,
}
use ecat_middleware_advr.Inspector.{
  QueueDescriptor, QueueStats, BridgeInspector, QueueContent, find_key,
}
use ecat_middleware_advr.Inspector.Poll.{
  QueueSnapshot, found, stats_or_new, observed, no_snapshot, with_stats,
}

module _ {Message : Type 0} where
  abbrev when : Bool → List Message → List Message
  when b messages = if b then messages else []

  module _ (history : Bool) (contents : Text → QueueContent Message) where
    -- The messages that are found under a name, in the order of the queues.
    abbrev pub found_in : List QueueDescriptor → Text → List Message
    found_in [] k = []
    found_in (queue ∷ queues) k =
        when (text_eq queue.name k) (found history (contents queue.name)) ++ found_in queues k

  -- The statistics of a queue in which some messages were found.
  abbrev pub bumped : ℕ → List Message → Option QueueStats → Option QueueStats
  bumped now [] stats = stats
  bumped now (message ∷ more) stats =
      some (observed now (length (message ∷ more)) (stats_or_new stats))

module _ {Message Rate : Type 0} (debug_string : Message → Text) (rate : ℕ → ℕ → Rate)
    (history : Bool) (contents : Text → QueueContent Message) (now : ℕ) where
  -- What is to be shown of a queue of an inspector: its messages under its name, and its statistics with
  -- them.
  abbrev pub shown : BridgeInspector → QueueDescriptor → QueueSnapshot Rate
  shown s queue =
      let messages = found_in history contents s.queues queue.name in
      with_stats debug_string rate contents now (bumped now messages (find_key s.stats queue.name))
        (no_snapshot debug_string rate contents now queue (map debug_string messages))

  abbrev pub buffered_in : List QueueDescriptor → ℕ
  buffered_in [] = 0
  buffered_in (queue ∷ queues) = (contents queue.name).size + buffered_in queues
