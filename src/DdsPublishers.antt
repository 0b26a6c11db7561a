-- ===== src/DdsPublishers.antt =====
-- The state publishers of the DDS plugins: src/dds_pdo_publisher.cpp and
-- include/*/adapters/dds_pdo_publisher.hpp of plugins/advrf_cyclonedds_plugin and of
-- plugins/advrf_fastdds_plugin, which are the same up to the calls of the DDS library.
pub mod Process
pub mod Cycles
pub mod Aligned
pub mod Joints
pub mod Motors
use ecat_middleware_advr.Prelude.{
  ℕ, Bool, true, false, if◌then◌else◌, ◌&&◌, List, [], ◌∷◌, Option, none, some, Result, ok, err,
  ◌>>=◌,
}
use ecat_middleware_advr.Pdo.Clock.{Timespec}
use ecat_middleware_advr.Publishers.{PublisherCall}
use ecat_middleware_advr.Converter.State.{NullString, null_string}

-- What `process` does: it changes the message and returns true, it returns false before any change, or
-- an exception leaves it.
pub data Processed (Msg : Type 0) : Type 0 where
  updated : Msg → Processed Msg
  ignored : Processed Msg
  thrown : NullString → Processed Msg

-- `DDSPdoPublisher<Msg>`, without the DDS writer and the topic's name.
pub record PdoPublisher (Msg : Type 0) : Type 0 where
  pub message : Msg
  pub has_update : Bool

module _ {Msg Pdo : Type 0} (process : Msg → Pdo → Processed Msg) (empty : Msg) where
  unfoldable pub begin_cycle : PdoPublisher Msg → PdoPublisher Msg
  begin_cycle publisher = record { message = empty; has_update = false }

  abbrev pub after_process : PdoPublisher Msg → Processed Msg → Result NullString (PdoPublisher Msg)
  after_process publisher (Processed.updated m) = ok (record { message = m; has_update = true })
  after_process publisher Processed.ignored = ok publisher
  after_process publisher (Processed.thrown e) = err e

  unfoldable pub consume : PdoPublisher Msg → Pdo → Result NullString (PdoPublisher Msg)
  consume publisher pdo = after_process publisher (process publisher.message pdo)

  -- The message that is written, if one is.
  unfoldable pub end_cycle : PdoPublisher Msg → Bool → Option Msg
  end_cycle publisher valid = if valid && publisher.has_update then some publisher.message else none

  -- The PDOs of one cycle, in order.
  unfoldable pub consume_all : PdoPublisher Msg → List Pdo → Result NullString (PdoPublisher Msg)
  consume_all publisher [] = ok publisher
  consume_all publisher (pdo ∷ pdos) = consume publisher pdo >>= λ next. consume_all next pdos

  -- One cycle: `begin_cycle`, a `consume` for each PDO, `end_cycle`.
  unfoldable pub run_cycle : PdoPublisher Msg → List Pdo → Bool → Result NullString (Option Msg)
  run_cycle publisher pdos valid =
      consume_all (begin_cycle publisher) pdos >>= λ last. ok (end_cycle last valid)
