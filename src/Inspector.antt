-- ===== src/Inspector.antt =====
-- bridge_inspector.hpp and read_bridges.hpp of tools/shm_tools: what the inspector of the shared memory shows
-- in each poll. The shared memory is what a poll finds in it, the clock is an argument in nanoseconds, and
-- the rate of messages, a floating-point value, is an argument.
pub mod Keys
pub mod Poll
pub mod Polled
use ecat_middleware_advr.Prelude.{
  ℕ, ℤ, pos, negsuc, ◌+◌, ◌-◌, ◌/◌, Bool, true, false, List, [], ◌∷◌, ◌++◌, map, Option, none, some,
  if◌then◌else◌, Text, codes, text_eq, ltb, not, length, Result, ok, err, ◌>>=◌,
}

-- The message types of the queues.
pub data Proto : Type 0 where
  ec_slave_pdo repl_cmd cmd_reply : Proto

-- `ReadBridgeRx`, `ReadBridgeTx` and `ReadBridgeService`.
pub data BridgeKind : Type 0 where
  rx tx service : BridgeKind

-- Without the functions that read the queue and its size.
pub record QueueDescriptor : Type 0 where
  pub name : Text
  pub proto : Proto
  pub capacity : ℕ

pub record QueueStats : Type 0 where
  pub total_observed : ℕ
  pub first_seen : ℕ
  pub last_seen : ℕ
  pub initialized : Bool

abbrev pub new_stats : QueueStats
new_stats = record { total_observed = 0; first_seen = 0; last_seen = 0; initialized = false }

pub record BridgeInspector : Type 0 where
  pub initialized : Bool
  pub queues : List QueueDescriptor
  pub stats : List (Text × QueueStats)

-- What is in a queue: its messages, the latest of them, and its size.
pub record QueueContent (Message : Type 0) : Type 0 where
  pub all : List Message
  pub latest : Option Message
  pub size : ℕ

-- A map by name, new names at its end.
unfoldable pub find_key : {A : Type 0} → List (Text × A) → Text → Option A
find_key [] name = none
find_key ((n, a) ∷ entries) name =
    let later = find_key entries name in if text_eq n name then some a else later

unfoldable pub put_key : {A : Type 0} → Text → A → List (Text × A) → List (Text × A)
put_key name a [] = (name, a) ∷ []
put_key name a ((n, old) ∷ entries) =
    let later = put_key name a entries in
    if text_eq n name then (n, a) ∷ entries else (n, old) ∷ later

-- `declare`, with the capacity of each queue.
unfoldable pub declare : BridgeKind → (Text → ℕ) → List QueueDescriptor
declare BridgeKind.rx capacity =
    map
      (λ (name : Text). record {
        name = name;
        proto = Proto.ec_slave_pdo;
        capacity = capacity name;
      })
      (codes "imu"
        ∷ codes "motor"
        ∷ codes "gripper"
        ∷ codes "force_torque"
        ∷ codes "power_board"
        ∷ codes "pump"
        ∷ codes "valve"
        ∷ [])
declare BridgeKind.tx capacity =
    map
      (λ (name : Text). record {
        name = name;
        proto = Proto.ec_slave_pdo;
        capacity = capacity name;
      })
      (codes "motor" ∷ codes "pump" ∷ codes "valve" ∷ codes "gripper" ∷ [])
declare BridgeKind.service capacity =
    record { name = codes "request"; proto = Proto.repl_cmd; capacity = capacity (codes "request") }
    ∷ record { name = codes "reply"; proto = Proto.cmd_reply; capacity = capacity (codes "reply") }
    ∷ []

-- The shared memory could be opened, and its bridge is there.
pub record SharedMemoryState : Type 0 where
  pub is_open : Bool
  pub has_bridge : Bool

unfoldable pub initialize :
    Text → List QueueDescriptor → SharedMemoryState → BridgeInspector → Result Text BridgeInspector
initialize shm_name declared shm s =
    if s.initialized
    then ok s
    else if not shm.is_open
    then err (codes "Unable to open shared memory '" ++ shm_name ++ codes "'")
    else if not shm.has_bridge
    then err (codes "Shared memory '" ++ shm_name ++ codes "' returned a null bridge")
    else ok (record s { initialized = true; queues = declared })

-- What `reconnect` leaves where `initialize` throws: nothing.
abbrev pub cleared : BridgeInspector
cleared = record { initialized = false; queues = []; stats = [] }

unfoldable pub reconnect :
    Text → List QueueDescriptor → SharedMemoryState → BridgeInspector × Option Text
unfolding initialize
reconnect shm_name declared shm = elim (initialize shm_name declared shm cleared) [
  | ok s ↦ (s, none)
  | err what ↦ (cleared, some what)
]
