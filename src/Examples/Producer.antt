-- ===== src/Examples/Producer.antt =====
-- The theorems on the producer and on the ROS graph bridge, at concrete inputs.
use ecat_middleware_advr.Prelude.{
  ℕ, pos, ◌+◌, ◌*◌, ◌≡◌, refl, List, [], ◌∷◌, map, Option, none, some, codes, arith, contains,
}
use ecat_middleware_advr.Channel.{ChannelRx, DeviceTypeRx}
use ecat_middleware_advr.Discover.{observe_all}
use ecat_middleware_advr.Publishers.{ChannelCache, receive_all}
use ecat_middleware_advr.Publishers.Cache.{empty_cache}
use ecat_middleware_advr.Service.{ecat_master_cmd, other_cmd}
use ecat_middleware_advr.Producer.{Reals, RxPdo, rx_pdo_message}
use ecat_middleware_advr.Producer.Pdos.{make_pdo}
use ecat_middleware_advr.Producer.Master.{Slave, EcatMasterType, Request, Clocked, produce}
use ecat_middleware_advr.Producer.Told.{told, told_of, produce-told}
use ecat_middleware_advr.Producer.Unseen.{pdos_of, produce-unseen}
use ecat_middleware_advr.RosGraph.Bridge.{EntityCall}

-- Numbers for reals, with made-up functions.
abbrev reals : Reals ℕ ℕ
reals = record {
  sin = λ x. x;
  cos = λ x. x + 1;
  plus = λ x y. x + y;
  times = λ x y. x * y;
  decimal = λ m d. m;
  of_int = λ z. 0;
  to_float = λ x. x;
  truncated = λ x. pos x;
  truncated_float = λ x. pos x;
}

abbrev boards : List Slave
boards =
    record { board_id = 3; type = DeviceTypeRx.motor; name = codes "knee" }
    ∷ record { board_id = 8; type = DeviceTypeRx.imu; name = codes "imu" }
    ∷ []

-- The cycle 300.
abbrev late_cycle : Clocked ℕ
late_cycle = record { t = 0; sample_count = 300 }

abbrev ticks : ℕ → ℕ
ticks n = n

produce-told_example :
    map (told reals) (produce reals late_cycle ticks boards) ≡ map (told_of reals 300) boards
produce-told_example = produce-told reals late_cycle ticks boards (omega arith, (omega arith, tt))

abbrev no_pdo : RxPdo ℕ
no_pdo = make_pdo reals DeviceTypeRx.imu 0 0 0 (pos 0)

abbrev cache : ChannelCache (RxPdo ℕ)
cache = empty_cache no_pdo

produce-unseen_example :
    (observe_all
        (3 ∷ 8 ∷ [])
        ChannelRx.motor
        DeviceTypeRx.motor
        []
        (pdos_of reals (produce reals late_cycle ticks boards))
      ≡ [])
    × (receive_all cache (pdos_of reals (produce reals late_cycle ticks boards)) ≡ cache)
unfolding contains
produce-unseen_example =
    produce-unseen reals late_cycle ticks boards (3 ∷ 8 ∷ []) ChannelRx.motor DeviceTypeRx.motor []
      cache (omega arith) refl (omega arith)

abbrev requests : List (Request ℕ)
requests =
    record { cmd_type = ecat_master_cmd; header = 1; master_type = EcatMasterType.get_slaves_descr }
    ∷ record { cmd_type = other_cmd 2; header = 2; master_type = EcatMasterType.start_master }
    ∷ []

-- A writer, a reader whose GID is not known, a reader, and the writer gone.
abbrev entity_calls : List (EntityCall × Option ℕ)
entity_calls =
    (EntityCall.add_writer, some 5)
    ∷ (EntityCall.add_reader, none)
    ∷ (EntityCall.add_reader, some 6)
    ∷ (EntityCall.remove_writer, some 5)
    ∷ []
