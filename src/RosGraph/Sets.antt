-- ===== src/RosGraph/Sets.antt =====
-- The GIDs of ros_metadata/ros_graph_state.hpp are sets: after any operations, a GID is in exactly if the
-- last operation on it added it, and once.
use ecat_middleware_advr.Prelude.{
  ℕ, ◌≡◌, refl, ap, ◌∙◌, Bool, ◌&&◌, ◌||◌, not, inl, inr, List, [], ◌∷◌, ◌==◌, ==_iff, contains,
  contains-append, filter_by, Distinct, Distinct-snoc, Bool-cases, arith,
}
use ecat_middleware_advr.RosGraph.{
  RosGraphState, GraphOp, add_unique, remove, add_reader_gid, add_writer_gid, remove_reader_gid,
  remove_writer_gid, graph_step, graph_steps,
}

add_unique-Distinct : (xs : List ℕ) (gid : ℕ) → Distinct xs → Distinct (add_unique xs gid)
unfolding add_unique
add_unique-Distinct xs gid d = elim (Bool-cases (contains xs gid)) [
  | inl e ↦ rw e d
  | inr e ↦ rw e (Distinct-snoc xs gid d e)
]

contains-add_unique :
    (xs : List ℕ) (gid a : ℕ) → contains (add_unique xs gid) a ≡ (gid == a || contains xs a)
unfolding add_unique contains
contains-add_unique xs gid a = elim (Bool-cases (contains xs gid)) [
  | inl e ↦ rw e (elim (Bool-cases (gid == a)) [
    | inl same ↦
        let eq : gid ≡ a = (==_iff _ _).0 same in ground (arith, ap (λ g. contains xs g) eq)
    | inr other ↦ ground arith
  ])
  | inr e ↦ rw e (contains-append xs (gid ∷ []) a ∙ ground arith)
]

contains-remove :
    (xs : List ℕ) (gid a : ℕ) → contains (remove xs gid) a ≡ (not (gid == a) && contains xs a)
unfolding remove filter_by contains
contains-remove [] gid a = ground arith
contains-remove (x ∷ xs) gid a = ground (arith, contains-remove xs gid a)

remove-Distinct : (xs : List ℕ) (gid : ℕ) → Distinct xs → Distinct (remove xs gid)
unfolding remove filter_by
remove-Distinct [] gid d = d
remove-Distinct (x ∷ xs) gid d = elim (Bool-cases (x == gid)) [
  | inl e ↦ rw e (remove-Distinct xs gid d.1)
  | inr e ↦ rw e (
    contains-remove xs gid x ∙ ap (λ b. not (gid == x) && b) d.0 ∙ ground arith,
    remove-Distinct xs gid d.1,
  )
]

-- The abstract state of one GID: whether it is a reader, and whether it is a writer, of the node.
unfoldable pub verdict : ℕ → GraphOp → Bool × Bool → Bool × Bool
verdict a (GraphOp.add_reader gid) (r, w) = (gid == a || r, w)
verdict a (GraphOp.add_writer gid) (r, w) = (r, gid == a || w)
verdict a (GraphOp.remove_reader gid) (r, w) = (not (gid == a) && r, w)
verdict a (GraphOp.remove_writer gid) (r, w) = (r, not (gid == a) && w)

unfoldable pub verdicts : ℕ → List GraphOp → Bool × Bool → Bool × Bool
verdicts a [] v = v
verdicts a (op ∷ ops) v = verdicts a ops (verdict a op v)

abbrev pub memberships : ℕ → RosGraphState → Bool × Bool
memberships a s = (contains s.reader_gids a, contains s.writer_gids a)

abbrev pub IsGraph : RosGraphState → Type 0
IsGraph s = Distinct s.reader_gids × Distinct s.writer_gids

graph_step-IsGraph : (op : GraphOp) (s : RosGraphState) → IsGraph s → IsGraph (graph_step op s)
unfolding graph_step add_reader_gid add_writer_gid remove_reader_gid remove_writer_gid
graph_step-IsGraph (GraphOp.add_reader gid) s h = (add_unique-Distinct s.reader_gids gid h.0, h.1)
graph_step-IsGraph (GraphOp.add_writer gid) s h = (h.0, add_unique-Distinct s.writer_gids gid h.1)
graph_step-IsGraph (GraphOp.remove_reader gid) s h = (remove-Distinct s.reader_gids gid h.0, h.1)
graph_step-IsGraph (GraphOp.remove_writer gid) s h = (h.0, remove-Distinct s.writer_gids gid h.1)

graph_step-verdict :
    (op : GraphOp) (s : RosGraphState) (a : ℕ)
    → memberships a (graph_step op s) ≡ verdict a op (memberships a s)
unfolding graph_step add_reader_gid add_writer_gid remove_reader_gid remove_writer_gid verdict
graph_step-verdict (GraphOp.add_reader gid) s a =
    ap (λ b. (b, contains s.writer_gids a)) (contains-add_unique s.reader_gids gid a)
graph_step-verdict (GraphOp.add_writer gid) s a =
    ap (λ b. (contains s.reader_gids a, b)) (contains-add_unique s.writer_gids gid a)
graph_step-verdict (GraphOp.remove_reader gid) s a =
    ap (λ b. (b, contains s.writer_gids a)) (contains-remove s.reader_gids gid a)
graph_step-verdict (GraphOp.remove_writer gid) s a =
    ap (λ b. (contains s.reader_gids a, b)) (contains-remove s.writer_gids gid a)

-- Whatever the operations, both lists hold each GID at most once, and a GID is in a list exactly if the
-- operations on sets put it there.
pub graph_steps-verdicts :
    (ops : List GraphOp) (s : RosGraphState)
    → IsGraph s
    → IsGraph (graph_steps ops s)
      × ((a : ℕ) → memberships a (graph_steps ops s) ≡ verdicts a ops (memberships a s))
unfolding graph_steps verdicts
graph_steps-verdicts [] s h = (h, λ a. refl)
graph_steps-verdicts (op ∷ ops) s h =
    let (rest, same) = graph_steps-verdicts ops (graph_step op s) (graph_step-IsGraph op s h) in
    (rest, λ a. same a ∙ ap (λ v. verdicts a ops v) (graph_step-verdict op s a))
