-- ===== src/Lib.antt =====
-- Verification of the EtherCAT middleware: the core library, its DDS plugins and its Zenoh plugin.
--
-- The program. An EtherCAT master exchanges PDOs with this middleware through shared memory. The core
-- (core/advrf_middleware_core) reads the received PDOs into caches, one for each channel, and calls
-- publishers for every cycle (adapters/adapter_publishers.hpp); a plugin's publishers turn the PDOs of a
-- cycle into one message. Commands of clients go to the master over ZeroMQ (adapters/adapter_service.hpp,
-- src/adapter_service.cpp). At start a plugin reads its configuration (config/), discovers the devices
-- (utils/ecat_discover.hpp), creates its publishers for them and runs each adapter in a thread
-- (plugin/plugin_exec.hpp). plugins/advrf_dds_common converts between DDS messages and the master's
-- protobuf messages for the two DDS plugins, and the Zenoh plugin uses its conversions to state messages.
--
-- The files. Paths are those of the repository; include/ of a part is meant where none is given.
-- - Prelude: names and lemmas that all files share; Boolean tests, lists, texts, decimal numbers,
--   results, fixed-width integers.
-- - Channel: utils/channel.hpp.
-- - Pdo and its children: utils/pdo_utils.hpp, utils/clock_utils.hpp, utils/name_resolver.hpp.
-- - Publishers: adapters/adapter_publishers.hpp. The state is AdapterPublishers: the subscriptions, each
--   with the calls that its publisher has got, and the caches. fill_cache and dispatch are the functions
--   of these names; spin_once is one cycle.
-- - Service: adapters/adapter_service.hpp and src/adapter_service.cpp.
-- - Config: config/config_file.hpp (File, Paths, Reference), config/robot_config.hpp (Robot, Loaded),
--   config/runtime_config.hpp (Runtime, Options), config/config_topics.hpp (Topics), and the interfaces
--   Yaml, which is yaml-cpp, and Paths.FileSystem, which is std::filesystem.
-- - Discover: utils/ecat_discover.hpp.
-- - PluginExec: plugin/plugin_exec.hpp.
-- - Converter: plugins/advrf_dds_common/src/converter.cpp; Messages and Received follow the IDL files of
--   interfaces/advrf_interfaces_dds, Protobuf the fields that the conversions set.
-- - DdsConfig: config/dds_config.hpp and qos/reader_policy.hpp of plugins/advrf_dds_common.
-- - RosGraph: ros_metadata/ros_graph_state.hpp of plugins/advrf_dds_common. RosGraph.Bridge:
--   ros_metadata/ros_graph_bridge.hpp of plugins/advrf_cyclonedds_plugin and plugins/advrf_fastdds_plugin.
-- - Producer: src/producer.cpp of core/advrf_middleware_core, the stand-in for the master: its PDOs (Pdos),
--   and its topology, replies and cycle (Master).
-- - DdsPublishers: src/dds_pdo_publisher.cpp and adapters/dds_pdo_publisher.hpp of
--   plugins/advrf_cyclonedds_plugin. DdsAdapter: src/dds_adapter_publishers.cpp of the same.
-- - Subscribers: adapters/adapter_subscribers.hpp of core/advrf_middleware_core.
-- - ZenohCommands, ZenohState: the deserialisers and the serialisers of src/ros2cdr.cpp of
--   plugins/advrf_zenoh_plugin; the encoding of one message in CDR is the parameter ZenohCommands.Cdr,
--   and ZenohState ends at the message that is encoded.
-- - ZenohSubscriber, ZenohSubscribers: subscriber/zenoh_subscriber.hpp and
--   src/zenoh_adapter_subscribers.cpp of the same plugin. ZenohPublishers: its
--   adapters/zenoh_adapter_bridge.hpp, serialization/ and src/zenoh_adapter_publishers.cpp. ZenohConfig: its
--   config/plugin_config.hpp.
-- - DdsService: service/ and src/dds_adapter_service.cpp of plugins/advrf_cyclonedds_plugin and
--   plugins/advrf_fastdds_plugin, side by side where they differ. DdsSubscribers:
--   src/dds_adapter_subscribers.cpp and what it uses, of both.
-- - Inspector: bridge_inspector.hpp and read_bridges.hpp of tools/shm_tools; Poll is its function poll, and
--   Keys its maps by name.
-- - Examples: the theorems at concrete inputs.
--
-- Conventions. Natural numbers stand for unsigned integers, with the wrap-around of 32 and 64 bits
-- written out where the source relies on it; signed integers are ℤ. Text is a list of character codes.
-- An exception is the err of a Result. Floating-point values are an abstract type that the conversions
-- copy. Code that is not in the repository is a parameter: the shared-memory queues are the PDOs that
-- they hold, ZeroMQ is the outcome of a transaction (Service.Transaction), protobuf and yaml-cpp are the
-- accessors that the source calls (Pdo.PdoMessage, Converter.Received.Pdos.PdoPayloads, Config.Yaml.Yaml), the
-- clocks are arguments. A transmit queue of the shared memory is a state with the step of a push
-- (Subscribers.push_into); the theorems on what is forwarded take a queue with a capacity, which nobody
-- empties meanwhile (Subscribers.Bounded.bounded). A DDS reader is the list of its samples, none for one
-- without valid data. An unordered map is an association list, with new keys at its end. Converter
-- assumes that protobuf message fields are optional and independent of one another.
--
-- Loops. All loops are recursion on lists. The loop of discover waits for PDOs: discover_rounds runs over
-- the list of what the rounds find and gives none while it still waits. That the list was long enough is
-- the theorem Discover.Complete.discover_returns. The loop of a worker thread is run over its rounds, and
-- that of a service client over its polls. Config.Reference.replace_from runs on fuel, the number of
-- characters and one more; that this is enough is the theorem
-- Config.Reference.Expanded.replace_all-substituted.
--
-- Not modelled: the transports themselves (the creation of DDS and Zenoh readers and writers and their
-- QoS, shared memory, sockets), the CDR encoding, the main programs, the terminal interface of the
-- inspector; logging.
-- ServiceServerNotSequential of the DDS plugins is used nowhere.
pub mod Channel
pub mod Config
pub mod Converter
pub mod DdsAdapter
pub mod DdsConfig
pub mod DdsPublishers
pub mod DdsService
pub mod DdsSubscribers
pub mod Discover
pub mod Examples
pub mod Inspector
pub mod Pdo
pub mod PluginExec
pub mod Prelude
pub mod Producer
pub mod Publishers
pub mod RosGraph
pub mod Service
pub mod Subscribers
pub mod ZenohCommands
pub mod ZenohConfig
pub mod ZenohPublishers
pub mod ZenohState
pub mod ZenohSubscriber
pub mod ZenohSubscribers
