-- ===== src/PluginExec.antt =====
-- plugin/plugin_exec.hpp of core/advrf_middleware_core: the lifecycle of the adapters' processes. An
-- adapter is what its `start`, `is_ok` and `spin_once` do; a worker thread is the sequence of its rounds.
pub mod Lifecycle
use ecat_middleware_advr.Prelude.{
  ℕ, ◌+◌, Bool, true, false, not, ltb, List, [], ◌∷◌, ◌++◌, map, Option, none, some, if◌then◌else◌,
}

-- What the adapter of a process will do: whether it is there, and what `start` returns.
pub record Adapter : Type 0 where
  pub present : Bool
  pub starts : Bool

-- `Process`: its period in microseconds, and its thread, none before `start` and after it was joined.
pub record Process : Type 0 where
  pub adapter : Adapter
  pub period : ℕ
  pub joinable : Bool

-- `Process::start`: its result.
unfoldable pub process_start : Process → Process × Bool
process_start p =
    if not p.adapter.present
    then (p, false)
    else if not p.adapter.starts
    then (p, false)
    else (record p { joinable = true }, true)

unfoldable pub process_stop : Process → Process
process_stop p = if p.joinable then record p { joinable = false } else p

-- One round of the worker thread finds the flag, the time since the thread began, and the health of the
-- adapter.
pub record Round : Type 0 where
  pub running : Bool
  pub now : ℕ
  pub healthy : Bool

-- The worker: the time of its next health check, in microseconds, and what it did.
pub record Worker : Type 0 where
  pub next_health : ℕ
  pub spins : ℕ
  pub ended : Bool
  pub cleared_running : Bool

abbrev pub worker_start : Worker
worker_start = record { next_health = 1000000; spins = 0; ended = false; cleared_running = false }

-- A round of the loop in `Process::start`.
unfoldable pub worker_round : Worker → Round → Worker
worker_round w r =
    if w.ended
    then w
    else if not r.running
    then record w { ended = true }
    else if ltb r.now w.next_health
    then record w { spins = w.spins + 1 }
    else if not r.healthy
    then record w { ended = true; cleared_running = true }
    else record w { next_health = w.next_health + 1000000; spins = w.spins + 1 }

unfoldable pub worker_rounds : Worker → List Round → Worker
worker_rounds w [] = w
worker_rounds w (r ∷ rs) = worker_rounds (worker_round w r) rs

pub record PluginExec : Type 0 where
  pub running : Bool
  pub processes : List Process

abbrev pub new_exec : PluginExec
new_exec = record { running = false; processes = [] }

unfoldable pub register_adapter : Process → PluginExec → PluginExec
register_adapter p e = record e { processes = e.processes ++ p ∷ [] }

-- The loop of `PluginExec::start` over the processes: it ends at the first that does not start.
unfoldable pub start_all : List Process → List Process × Bool
start_all [] = ([], true)
start_all (p ∷ ps) =
    let rest = start_all ps in
    let started = process_start p in
    if started.1 then (started.0 ∷ rest.0, rest.1) else (started.0 ∷ ps, false)

-- `start` up to its wait: the flag is true before and false behind a failure.
unfoldable pub exec_start : PluginExec → PluginExec
exec_start e =
    let started = start_all e.processes in record { running = started.1; processes = started.0 }

unfoldable pub exec_stop : PluginExec → PluginExec
exec_stop e = record { running = false; processes = map process_stop e.processes }

-- SIGINT, SIGTERM or a failed health check clears the flag.
unfoldable pub signal : PluginExec → PluginExec
signal e = record e { running = false }
