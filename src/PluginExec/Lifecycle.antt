-- ===== src/PluginExec/Lifecycle.antt =====
-- The lifecycle of plugin/plugin_exec.hpp: which processes run, and that stopping joins all of them.
use ecat_middleware_advr.Prelude.{
  ◌≤◌, ◌≡◌, ◌⊎◌, refl, ap, Bool, true, false, ◌&&◌, not, inl, inr, ltb, List, [], ◌∷◌, ◌++◌, map,
  if◌then◌else◌, All, Bool-cases, arith, any_of,
}
use ecat_middleware_advr.PluginExec.{
  Process, process_start, process_stop, Round, Worker, worker_start, worker_round, worker_rounds,
  PluginExec, start_all, exec_start, exec_stop,
}

abbrev pub can_start : Process → Bool
can_start p = p.adapter.present && p.adapter.starts

-- The processes before the first that cannot start.
unfoldable pub startable : List Process → List Process
startable [] = []
startable (p ∷ ps) = let rest = startable ps in if can_start p then p ∷ rest else []

unfoldable pub behind : List Process → List Process
behind [] = []
behind (p ∷ ps) = let rest = behind ps in if can_start p then rest else p ∷ ps

abbrev started : Process → Process
started p = record p { joinable = true }

process_start_lem :
    (p : Process) → process_start p ≡ (if can_start p then started p else p, can_start p)
unfolding process_start
process_start_lem p = ground arith

start_all_lem :
    (ps : List Process)
    → start_all ps
      ≡ (map started (startable ps) ++ behind ps, not (any_of (λ p. not (can_start p)) ps))
unfolding start_all startable behind any_of
start_all_lem [] = refl
start_all_lem (p ∷ ps) = elim (Bool-cases (can_start p)) [
  | inl e ↦ rw (process_start_lem p, e, start_all_lem ps) refl
  | inr e ↦ rw (process_start_lem p, e) refl
]

-- `start` starts the processes in order up to the first that cannot start, leaves that one and the later
-- ones as they were, and keeps running exactly if all could start.
pub exec_start_lem :
    (e : PluginExec)
    → exec_start e ≡ record {
      running = not (any_of (λ p. not (can_start p)) e.processes);
      processes = map started (startable e.processes) ++ behind e.processes;
    }
unfolding exec_start
exec_start_lem e = ap (λ s. record { running = s.1; processes = s.0 }) (start_all_lem e.processes)

-- No thread is left when `stop` returns, whatever the processes did before; stopping again changes
-- nothing.
pub exec_stop_lem :
    (e : PluginExec)
    → All (λ p. p.joinable ≡ false) (exec_stop e).processes
      × ((exec_stop e).running ≡ false)
      × (exec_stop (exec_stop e) ≡ exec_stop e)
unfolding exec_stop process_stop
exec_stop_lem e = (
  joined e.processes,
  refl,
  ap (λ ps. record { running = false; processes = ps }) (again e.processes),
)
  where
    joined : (ps : List Process) → All (λ p. p.joinable ≡ false) (map process_stop ps)
    joined [] = tt
    joined (p ∷ ps) = (ground arith, joined ps)

    again : (ps : List Process) → map process_stop (map process_stop ps) ≡ map process_stop ps
    again [] = refl
    again (p ∷ ps) = rw (again ps) (ap (λ q. q ∷ map process_stop ps) (ground arith))

-- A round that finds the flag set and the adapter unhealthy.
abbrev pub IsUnhealthy : Round → Type 0
IsUnhealthy r = (r.running ≡ true) × (r.healthy ≡ false)

-- A worker that has not noticed yet, or that has cleared the flag.
abbrev Watches : Worker → Type 0
Watches w =
    ((w.ended ≡ false) × (w.next_health ≡ 1000000))
    ⊎ ((w.ended ≡ true) × (w.cleared_running ≡ true))

worker_round-Watches :
    (w : Worker) (r : Round) → IsUnhealthy r → Watches w → Watches (worker_round w r)
unfolding worker_round
worker_round-Watches w r (run, sick) (inl (on, due)) = elim (Bool-cases (ltb r.now w.next_health)) [
  | inl early ↦ rw (on, run, early) (inl (refl, due))
  | inr late ↦ rw (on, run, late, sick) (inr (refl, refl))
]
worker_round-Watches w r (run, sick) (inr (off, cleared)) = rw off (inr (refl, cleared))

worker_round-notices :
    (w : Worker) (r : Round)
    → IsUnhealthy r
    → 1000000 ≤ r.now
    → Watches w
    → (worker_round w r).cleared_running ≡ true
unfolding worker_round
worker_round-notices w r (run, sick) le (inl (on, due)) = ground arith
worker_round-notices w r (run, sick) le (inr (off, cleared)) = ground arith

-- A worker whose adapter is unhealthy from the start clears the flag at the latest in the first round a
-- second later, however many rounds came before.
pub worker_rounds-notices :
    (rs : List Round) (r : Round)
    → All IsUnhealthy rs
    → IsUnhealthy r
    → 1000000 ≤ r.now
    → (worker_rounds worker_start (rs ++ r ∷ [])).cleared_running ≡ true
unfolding worker_rounds
worker_rounds-notices rs r all h le = from rs worker_start all (inl (refl, refl))
  where
    from :
        (qs : List Round) (w : Worker)
        → All IsUnhealthy qs
        → Watches w
        → (worker_rounds w (qs ++ r ∷ [])).cleared_running ≡ true
    from [] w all k = worker_round-notices w r h le k
    from (q ∷ qs) w all k = from qs (worker_round w q) all.1 (worker_round-Watches w q all.0 k)
