-- ===== src/RosGraph/Bridge/Announced.antt =====
-- What ROS learns last of a participant from ros_metadata/ros_graph_bridge.hpp of the DDS plugins.
use ecat_middleware_advr.Prelude.{ℕ, ◌≡◌, true, List, [], ◌∷◌, Option, none, some, Text, last_or}
use ecat_middleware_advr.RosGraph.{RosGraphState, GraphOp, empty_graph, graph_steps}
use ecat_middleware_advr.RosGraph.Bridge.{
  GraphBridge, announcement, EntityCall, op_of, call_cyclone, call_fast,
}

-- Calls of Cyclone DDS one after the other, those that throw included, and of Fast DDS where every message
-- can be written.
pub calls_cyclone : List (EntityCall × Option ℕ) → GraphBridge → GraphBridge
calls_cyclone [] b = b
calls_cyclone ((call, entity) ∷ calls) b = calls_cyclone calls (call_cyclone call entity b).0

pub calls_fast : List (EntityCall × Option ℕ) → GraphBridge → GraphBridge
calls_fast [] b = b
calls_fast ((call, entity) ∷ calls) b = calls_fast calls (call_fast call entity true b).0

-- The operations on the sets of the calls for entities that are there.
abbrev pub ops_of : List (EntityCall × Option ℕ) → List GraphOp
ops_of [] = []
ops_of ((call, none) ∷ calls) = ops_of calls
ops_of ((call, some gid) ∷ calls) = op_of call gid ∷ ops_of calls

-- A bridge whose last message is that of its sets.
abbrev pub IsAnnounced : (ℕ → ℕ) → GraphBridge → Type 0
IsAnnounced gid_of b = last_or (announcement gid_of b) b.written ≡ announcement gid_of b

-- The sets and the names of a bridge.
abbrev pub Shows : RosGraphState → GraphBridge → GraphBridge → Type 0
Shows graph b b' =
    (b'.graph ≡ graph)
    × (b'.node_name ≡ b.node_name)
    × (b'.node_namespace ≡ b.node_namespace)
    × (b'.participant_gid ≡ b.participant_gid)

-- The bridge of a node whose sets are what the calls make of no readers and no writers.
abbrev pub shown : Text → Text → ℕ → List (EntityCall × Option ℕ) → GraphBridge
shown node_name node_namespace participant_gid calls = record {
  graph = graph_steps (ops_of calls) empty_graph;
  node_name = node_name;
  node_namespace = node_namespace;
  participant_gid = participant_gid;
  written = [];
}
