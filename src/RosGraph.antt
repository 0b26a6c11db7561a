-- ===== src/RosGraph.antt =====
-- ros_metadata/ros_graph_state.hpp of plugins/advrf_dds_common: the reader and writer GIDs that a node
-- announces to ROS. A GID, an array of 16 bytes, is its big-endian number, so that equality is that of
-- the arrays.
pub mod Sets
pub mod Bridge
use ecat_middleware_advr.Prelude.{
  ℕ, Bool, true, false, not, List, [], ◌∷◌, ◌++◌, if◌then◌else◌, ◌==◌, contains, filter_by,
}

pub record RosGraphState : Type 0 where
  pub reader_gids : List ℕ
  pub writer_gids : List ℕ

abbrev pub empty_graph : RosGraphState
empty_graph = record { reader_gids = []; writer_gids = [] }

unfoldable pub add_unique : List ℕ → ℕ → List ℕ
add_unique container gid = if contains container gid then container else container ++ gid ∷ []

-- `erase` of what `std::remove` moves to the end: every equal GID goes, the order of the rest stays.
unfoldable pub remove : List ℕ → ℕ → List ℕ
remove container gid = filter_by (λ other. not (other == gid)) container

unfoldable pub add_reader_gid : ℕ → RosGraphState → RosGraphState
add_reader_gid gid s = record s { reader_gids = add_unique s.reader_gids gid }

unfoldable pub add_writer_gid : ℕ → RosGraphState → RosGraphState
add_writer_gid gid s = record s { writer_gids = add_unique s.writer_gids gid }

unfoldable pub remove_reader_gid : ℕ → RosGraphState → RosGraphState
remove_reader_gid gid s = record s { reader_gids = remove s.reader_gids gid }

unfoldable pub remove_writer_gid : ℕ → RosGraphState → RosGraphState
remove_writer_gid gid s = record s { writer_gids = remove s.writer_gids gid }

-- The four operations.
pub data GraphOp : Type 0 where
  add_reader add_writer remove_reader remove_writer : ℕ → GraphOp

unfoldable pub graph_step : GraphOp → RosGraphState → RosGraphState
graph_step (GraphOp.add_reader gid) s = add_reader_gid gid s
graph_step (GraphOp.add_writer gid) s = add_writer_gid gid s
graph_step (GraphOp.remove_reader gid) s = remove_reader_gid gid s
graph_step (GraphOp.remove_writer gid) s = remove_writer_gid gid s

unfoldable pub graph_steps : List GraphOp → RosGraphState → RosGraphState
graph_steps [] s = s
graph_steps (op ∷ ops) s = graph_steps ops (graph_step op s)
