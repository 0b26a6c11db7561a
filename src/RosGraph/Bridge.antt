-- ===== src/RosGraph/Bridge.antt =====
-- ros_metadata/ros_graph_bridge.hpp of plugins/advrf_cyclonedds_plugin and plugins/advrf_fastdds_plugin: the
-- readers and writers of a participant, announced to ROS. What is written is the list of messages; the
-- mutex is held for the whole of a call.
pub mod Announced
use ecat_middleware_advr.Prelude.{
  ℕ, ◌*◌, ◌^◌, Bool, true, false, List, [], ◌∷◌, ◌++◌, map, Option, none, some, if◌then◌else◌, Text,
  codes,
}
use ecat_middleware_advr.RosGraph.{RosGraphState, GraphOp, empty_graph, graph_step}

-- `NodeEntitiesInfo_` and `ParticipantEntitiesInfo_`.
pub record NodeInfo : Type 0 where
  pub node_namespace : Text
  pub node_name : Text
  pub reader_gid_seq : List ℕ
  pub writer_gid_seq : List ℕ

pub record ParticipantInfo : Type 0 where
  pub gid : ℕ
  pub node_entities_info_seq : List NodeInfo

-- The bridge, with what it has written.
pub record GraphBridge : Type 0 where
  pub graph : RosGraphState
  pub node_name : Text
  pub node_namespace : Text
  pub participant_gid : ℕ
  pub written : List ParticipantInfo

unfoldable pub build_node_namespace_cyclone : Text → Text → Text
build_node_namespace_cyclone ns robot_name = codes "/" ++ ns ++ codes "/cyclonedds/" ++ robot_name

unfoldable pub build_node_namespace_fast : Text → Text → Text
build_node_namespace_fast ns robot_name = codes "/" ++ ns ++ codes "/fastdds/" ++ robot_name

-- A GID in a message: its 16 bytes in Cyclone DDS, and those before 8 bytes of zero in Fast DDS.
unfoldable pub make_gid : ℕ → ℕ
make_gid gid = gid

unfoldable pub make_ros_gid : ℕ → ℕ
make_ros_gid gid = gid * 2 ^ 64

-- The message of `publish_locked`, for the GIDs as they are written.
unfoldable pub announcement : (ℕ → ℕ) → GraphBridge → ParticipantInfo
announcement gid_of b = record {
  gid = gid_of b.participant_gid;
  node_entities_info_seq =
      record {
        node_namespace = b.node_namespace;
        node_name = b.node_name;
        reader_gid_seq = map gid_of b.graph.reader_gids;
        writer_gid_seq = map gid_of b.graph.writer_gids;
      }
      ∷ [];
}

unfoldable pub publish_locked : (ℕ → ℕ) → GraphBridge → GraphBridge
unfolding announcement
publish_locked gid_of b = record b { written = b.written ++ announcement gid_of b ∷ [] }

-- The constructor: it publishes when the participant's GID is known.
unfoldable pub new_bridge : (ℕ → ℕ) → Text → Text → ℕ → GraphBridge
unfolding publish_locked
new_bridge gid_of node_name node_namespace participant_gid = publish_locked gid_of (record {
  graph = empty_graph;
  node_name = node_name;
  node_namespace = node_namespace;
  participant_gid = participant_gid;
  written = [];
})

-- One of the four calls, for an entity.
pub data EntityCall : Type 0 where
  add_writer remove_writer add_reader remove_reader : EntityCall

unfoldable pub op_of : EntityCall → ℕ → GraphOp
op_of EntityCall.add_writer gid = GraphOp.add_writer gid
op_of EntityCall.remove_writer gid = GraphOp.remove_writer gid
op_of EntityCall.add_reader gid = GraphOp.add_reader gid
op_of EntityCall.remove_reader gid = GraphOp.remove_reader gid

abbrev pub with_op : EntityCall → ℕ → GraphBridge → GraphBridge
with_op call gid b = record b { graph = graph_step (op_of call gid) b.graph }

-- Cyclone DDS: the call throws where the GUID cannot be retrieved, which is `none`, before anything is
-- changed. The bridge, and whether the call returned.
unfoldable pub call_cyclone : EntityCall → Option ℕ → GraphBridge → GraphBridge × Bool
unfolding publish_locked op_of
call_cyclone call none b = (b, false)
call_cyclone call (some gid) b = (publish_locked make_gid (with_op call gid b), true)

-- Fast DDS: a null entity, which is `none`, is left out. `wrote` is whether the message could be written;
-- where it could not the call throws behind the change.
unfoldable pub call_fast : EntityCall → Option ℕ → Bool → GraphBridge → GraphBridge × Bool
unfolding publish_locked op_of
call_fast call none wrote b = (b, true)
call_fast call (some gid) wrote b =
    if wrote
    then (publish_locked make_ros_gid (with_op call gid b), true)
    else (with_op call gid b, false)
