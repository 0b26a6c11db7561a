-- ===== src/Pdo/Clock.antt =====
-- utils/clock_utils.hpp of core/advrf_middleware_core, and the timestamp of a PDO in
-- utils/pdo_utils.hpp. Arithmetic is that of `uint64_t`; the operating system's clocks are arguments.
use ecat_middleware_advr.Prelude.{
  ℕ, ◌+◌, ◌-◌, ◌*◌, ◌%◌, ◌<◌, ◌≡◌, Bool, true, ◌&&◌, not, arith, if◌then◌else◌, ◌==◌, ℤ, u64_mod,
  to_uint64,
}
use ecat_middleware_advr.Pdo.{PdoMessage}

-- `struct timespec`, as `clock_gettime` fills it.
pub record Timespec : Type 0 where
  pub tv_sec : ℤ
  pub tv_nsec : ℤ

-- seconds * 1'000'000'000 + nanoseconds, in `uint64_t`.
abbrev pub to_ns : ℤ → ℤ → ℕ
to_ns sec nsec = (to_uint64 sec * 1000000000 + to_uint64 nsec) % u64_mod

pub record ClockOffset : Type 0 where
  pub realtime_ns : ℕ
  pub monotonic_ns : ℕ
  pub k : ℕ

-- The new `g_offset`, from the samples of the two clocks.
unfoldable pub init : Timespec → Timespec → ClockOffset
init rt mono =
    let realtime = to_ns rt.tv_sec rt.tv_nsec in
    let monotonic = to_ns mono.tv_sec mono.tv_nsec in
    record {
      realtime_ns = realtime;
      monotonic_ns = monotonic;
      k = (realtime + u64_mod - monotonic) % u64_mod;
    }

unfoldable pub monotonic_to_realtime : ClockOffset → ℕ → ℕ
monotonic_to_realtime g_offset mono_ns = (mono_ns + g_offset.k) % u64_mod

-- `CLOCK_MONOTONIC` now.
unfoldable pub monotonic_now_ns : Timespec → ℕ
monotonic_now_ns ts = to_ns ts.tv_sec ts.tv_nsec

unfoldable pub extract_timestamp_ns :
    {Pdo : Type 0} ⦃m : PdoMessage Pdo⦄ → ClockOffset → Timespec → Pdo → ℕ
unfolding monotonic_to_realtime monotonic_now_ns
extract_timestamp_ns ⦃m⦄ g_offset now pdo =
    let mono_ns = to_ns (m.sec pdo) (m.nsec pdo) in
    let received = monotonic_to_realtime g_offset (monotonic_now_ns now) in
    if m.has_header pdo && m.has_stamp pdo
    then (if mono_ns == 0 then received else monotonic_to_realtime g_offset mono_ns)
    else received

offset_exact :
    (r m d : ℕ)
    → m < u64_mod
    → r + d < u64_mod
    → ((m + d) + (r + u64_mod - m) % u64_mod) % u64_mod ≡ r + d
offset_exact r m d h k = omega arith

-- A monotonic time `d` after the sample is the real time `d` after the sample, also where the real
-- clock was behind the monotonic one and their difference wrapped, as long as that time is itself
-- below 2^64.
pub init-monotonic_to_realtime :
    (rt mono : Timespec) (d : ℕ)
    → (init rt mono).realtime_ns + d < u64_mod
    → monotonic_to_realtime (init rt mono) ((init rt mono).monotonic_ns + d)
      ≡ (init rt mono).realtime_ns + d
unfolding init monotonic_to_realtime
init-monotonic_to_realtime rt mono d h =
    offset_exact (to_ns rt.tv_sec rt.tv_nsec) (to_ns mono.tv_sec mono.tv_nsec) d (omega arith) h

-- The PDO has a header with a stamp that is not zero.
abbrev pub is_stamped : {Pdo : Type 0} ⦃m : PdoMessage Pdo⦄ → Pdo → Bool
is_stamped ⦃m⦄ pdo =
    m.has_header pdo && m.has_stamp pdo && not (to_ns (m.sec pdo) (m.nsec pdo) == 0)

-- The stamp of a PDO, taken `d` after the sample, becomes the real time `d` after it; a PDO with no
-- header, no stamp, or the stamp zero gets the time of its reception, `e` after the sample.
pub extract_timestamp_ns-init :
    {Pdo : Type 0} ⦃m : PdoMessage Pdo⦄ (rt mono now : Timespec) (pdo : Pdo) (d e : ℕ)
    → (init rt mono).realtime_ns + d < u64_mod
    → (init rt mono).realtime_ns + e < u64_mod
    → (is_stamped pdo ≡ true → to_ns (m.sec pdo) (m.nsec pdo) ≡ (init rt mono).monotonic_ns + d)
    → to_ns now.tv_sec now.tv_nsec ≡ (init rt mono).monotonic_ns + e
    → extract_timestamp_ns (init rt mono) now pdo
      ≡ (init rt mono).realtime_ns + (if is_stamped pdo then d else e)
unfolding extract_timestamp_ns
extract_timestamp_ns-init ⦃m⦄ rt mono now pdo d e hd he stamp_at now_at =
    ground (arith, init-monotonic_to_realtime rt mono d hd, init-monotonic_to_realtime rt mono e he)
