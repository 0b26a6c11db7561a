-- ===== src/Producer/Master.antt =====
-- The topology, the answers to requests and the cycle of src/producer.cpp in core/advrf_middleware_core.
use ecat_middleware_advr.Prelude.{
  ℕ, ◌+◌, ◌-◌, ◌%◌, Bool, List, [], ◌∷◌, ◌++◌, Option, none, some, if◌then◌else◌, ◌==◌, Text, codes,
  text_eq, length, take, to_int32, to_string, u64_mod,
}
use ecat_middleware_advr.Channel.{ChannelRx, DeviceTypeRx}
use ecat_middleware_advr.Pdo.{PdoType}
use ecat_middleware_advr.Discover.{EcatMetadata, EcatMap}
use ecat_middleware_advr.Service.{CmdType, ecat_master_cmd, same_cmd, ack, CmdReply}
use ecat_middleware_advr.Producer.{Reals, RxPdo}
use ecat_middleware_advr.Producer.Pdos.{make_pdo}

-- Other types leave what is there.
unfoldable pub add_metadata_info : Text → EcatMetadata → EcatMetadata
add_metadata_info type metadata =
    if text_eq type (codes "motor")
    then record metadata {
      type = PdoType.rx_motor;
      device = DeviceTypeRx.motor;
      channel = ChannelRx.motor;
    }
    else if text_eq type (codes "imu")
    then record metadata {
      type = PdoType.rx_imu_vn;
      device = DeviceTypeRx.imu;
      channel = ChannelRx.imu;
    }
    else metadata

-- An element of `devices` whose three values could be read.
pub record DeviceEntry : Type 0 where
  pub ecat_id : ℕ
  pub name : Text
  pub type : Text

-- `ecat_map[id] = metadata`.
unfoldable pub put_metadata : ℕ → EcatMetadata → EcatMap → EcatMap
put_metadata id metadata [] = (id, metadata) ∷ []
put_metadata id metadata ((other, old) ∷ rest) =
    let later = put_metadata id metadata rest in
    if other == id then (id, metadata) ∷ rest else (other, old) ∷ later

-- The loop over `devices`; an element that throws is `none`, and ends it. `uninitialised` is what stands in
-- a new `EcatMetadata`.
unfoldable pub build_ecat_map : EcatMetadata → List (Option DeviceEntry) → EcatMap → EcatMap
unfolding add_metadata_info put_metadata
build_ecat_map uninitialised [] ecat_map = ecat_map
build_ecat_map uninitialised (none ∷ elements) ecat_map = ecat_map
build_ecat_map uninitialised (some element ∷ elements) ecat_map =
    build_ecat_map uninitialised elements (
      put_metadata element.ecat_id
        (add_metadata_info element.type
          (record uninitialised { ecat_id = element.ecat_id; name = element.name }))
        ecat_map)

-- An entry of the topology in the shared memory.
pub record Slave : Type 0 where
  pub board_id : ℕ
  pub type : DeviceTypeRx
  pub name : Text

-- The loop over the map, in its order. `name_size` is the size of the name's array; the names have no null
-- characters.
unfoldable pub topology : ℕ → EcatMap → List Slave
topology name_size [] = []
topology name_size ((ecat_id, metadata) ∷ rest) =
    record { board_id = ecat_id; type = metadata.device; name = take (name_size - 1) metadata.name }
    ∷ topology name_size rest

pub data EcatMasterType : Type 0 where
  get_slaves_descr start_master stop_master : EcatMasterType
  other_master : ℕ → EcatMasterType

-- What the producer reads of a request.
pub record Request (Header : Type 0) : Type 0 where
  pub cmd_type : CmdType
  pub header : Header
  pub master_type : EcatMasterType

unfoldable pub describe : List Slave → Text
describe [] = []
describe (slave ∷ slaves) =
    (slave.name ++ codes "(id=" ++ to_string slave.board_id ++ codes ") ") ++ describe slaves

-- The switch over the type of a command to the master.
unfoldable pub master_msg : List Slave → EcatMasterType → Text
unfolding describe
master_msg slaves EcatMasterType.get_slaves_descr =
    to_string (length slaves) ++ codes " slaves: " ++ describe slaves
master_msg slaves EcatMasterType.start_master = codes "mock: master already running (no-op)"
master_msg slaves EcatMasterType.stop_master = codes "mock: stop not implemented in mock master"
master_msg slaves (EcatMasterType.other_master k) = codes "mock: unhandled Ecat_Master_cmd type"

module _ {Header : Type 0} where
  unfoldable pub reply_to : List Slave → Request Header → CmdReply Header
  unfolding master_msg
  reply_to slaves cmd = record {
    reply_type = ack;
    cmd_type = cmd.cmd_type;
    msg =
        if same_cmd cmd.cmd_type ecat_master_cmd
        then master_msg slaves cmd.master_type
        else codes "test ack received";
    header = some cmd.header;
  }

  -- The loop over the requests; a reply that its queue refuses is logged.
  unfoldable pub answer_all :
      {Queue : Type 0}
      → (CmdReply Header → Queue → Queue × Bool)
      → List Slave
      → List (Request Header)
      → Queue
      → Queue
  unfolding reply_to
  answer_all push slaves [] queue = queue
  answer_all push slaves (cmd ∷ cmds) queue =
      answer_all push slaves cmds (push (reply_to slaves cmd) queue).0

pub record Clocked (D : Type 0) : Type 0 where
  pub t : D
  pub sample_count : ℕ

module _ {D V : Type 0} (r : Reals D V) where
  open r use {plus, decimal}

  -- The PDOs of a cycle, each with the queue that it is pushed to; the clock is read once for each.
  unfoldable pub produce : Clocked D → (ℕ → ℕ) → List Slave → List (DeviceTypeRx × RxPdo V)
  unfolding make_pdo
  produce s clock [] = []
  produce s clock (slave ∷ slaves) =
      (slave.type, make_pdo r slave.type s.t s.sample_count (clock 0) (to_int32 slave.board_id))
      ∷ produce s (λ n. clock (n + 1)) slaves

  unfoldable pub advance : Clocked D → Clocked D
  advance s = record { t = plus s.t (decimal 1 3); sample_count = (s.sample_count + 1) % u64_mod }
