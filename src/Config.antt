-- ===== src/Config.antt =====
-- The configuration of core/advrf_middleware_core (config/): YAML sections and values, the robot, the
-- rates, the command line, and the names of the topics.
pub mod Yaml
pub mod File
pub mod Robot
pub mod Runtime
pub mod Options
pub mod Topics
pub mod Reference
pub mod Paths
pub mod Loaded
