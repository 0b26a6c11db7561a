-- ===== src/Examples/Inspector.antt =====
-- The theorem on the inspector of the shared memory, at a concrete input.
use ecat_middleware_advr.Prelude.{
  ℕ, ◌+◌, true, List, [], ◌∷◌, none, some, Text, codes, text_eq, if◌then◌else◌,
}
use ecat_middleware_advr.Inspector.{
  Proto, QueueDescriptor, BridgeInspector, QueueContent, SharedMemoryState,
}

abbrev two_queues : List QueueDescriptor
two_queues =
    record { name = codes "motor"; proto = Proto.ec_slave_pdo; capacity = 64 }
    ∷ record { name = codes "imu"; proto = Proto.ec_slave_pdo; capacity = 64 }
    ∷ []

-- An inspector that has seen a message of the motors.
abbrev inspector : BridgeInspector
inspector = record {
  initialized = true;
  queues = two_queues;
  stats =
      (
        codes "motor",
        record { total_observed = 1; first_seen = 5; last_seen = 5; initialized = true },
      )
      ∷ [];
}

-- Two messages of the motors and none of the IMU.
abbrev in_memory : Text → QueueContent ℕ
in_memory name =
    if text_eq name (codes "motor")
    then record { all = 10 ∷ 11 ∷ []; latest = some 11; size = 2 }
    else record { all = []; latest = none; size = 0 }

abbrev opened : SharedMemoryState
opened = record { is_open = true; has_bridge = true }

abbrev digits : ℕ → Text
digits m = m ∷ []

abbrev per_time : ℕ → ℕ → ℕ
per_time total elapsed = total + elapsed
