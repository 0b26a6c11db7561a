-- ===== src/Config/Runtime/Rates.antt =====
-- The rates of config/runtime_config.hpp: their range, and the period that a rate gives.
use native.Mathlib.Nat.{div-add-mod', mod-lt, le-div_iff_mul-le}
use ecat_middleware_advr.Prelude.{
  ℕ, ◌+◌, ◌*◌, ◌/◌, ◌≤◌, ◌<◌, ◌≡◌, refl, ◌↔◌, Option, none, some, arith, ok,
}
use ecat_middleware_advr.Config.Runtime.{
  RuntimeConfig, RuntimeOverrides, period_from_rate, validate, apply, or_else,
}

period_bounds :
    (hz period : ℕ)
    → 1 ≤ hz
    → hz ≤ 1000000
    → period ≡ 1000000 / hz
    → (1 ≤ hz)
      × (hz ≤ 1000000)
      × (1 ≤ period)
      × (period * hz ≤ 1000000)
      × (1000000 < period * hz + hz)
period_bounds hz period low high e = rw e (
  low,
  high,
  (le-div_iff_mul-le low).1 (omega arith),
  omega (arith, div-add-mod' 1000000 hz),
  omega (arith, div-add-mod' 1000000 hz, mod-lt 1000000 low),
)

-- The period of an admitted rate is at least a microsecond, and that many of them fill one second, up
-- to a remainder that is less than the rate; no other rate has a period.
pub period_from_rate_bounds :
    (hz period : ℕ)
    → period_from_rate hz ≡ ok period
    → (1 ≤ hz)
      × (hz ≤ 1000000)
      × (1 ≤ period)
      × (period * hz ≤ 1000000)
      × (1000000 < period * hz + hz)
unfolding period_from_rate
period_from_rate_bounds hz period h =
    let admitted : (1 ≤ hz) × (hz ≤ 1000000) × (period ≡ 1000000 / hz) = ground arith in
    period_bounds hz period admitted.0 admitted.1 admitted.2

pub period_from_rate_iff :
    (hz : ℕ) → ((period : ℕ) × (period_from_rate hz ≡ ok period)) ↔ ((1 ≤ hz) × (hz ≤ 1000000))
unfolding period_from_rate
period_from_rate_iff hz = (λ (period, h). ground arith, λ h. (1000000 / hz, ground arith))

-- A configuration of rates is valid exactly if each rate has a period.
pub validate_iff :
    (cfg : RuntimeConfig)
    → (validate cfg ≡ ok tt) ↔ (
        (1 ≤ cfg.rate_publishers)
        × (cfg.rate_publishers ≤ 1000000)
        × (1 ≤ cfg.rate_subscribers)
        × (cfg.rate_subscribers ≤ 1000000)
        × (1 ≤ cfg.rate_service)
        × (cfg.rate_service ≤ 1000000))
unfolding validate
validate_iff cfg = (λ h. ground arith, λ h. ground arith)

or_else_in_range :
    (o : Option ℕ) (old : ℕ)
    → (1 ≤ old) × (old ≤ 1000000)
    → ((hz : ℕ) → o ≡ some hz → (1 ≤ hz) × (hz ≤ 1000000))
    → (1 ≤ or_else o old) × (or_else o old ≤ 1000000)
or_else_in_range none old h f = h
or_else_in_range (some hz) old h f = f hz refl

-- The rates of the command line replace those of the file, which stay where none is given; valid
-- rates stay valid if the given ones are in range.
pub apply-validate :
    (o : RuntimeOverrides) (cfg : RuntimeConfig)
    → validate cfg ≡ ok tt
    → ((hz : ℕ) → o.publishers ≡ some hz → (1 ≤ hz) × (hz ≤ 1000000))
    → ((hz : ℕ) → o.subscribers ≡ some hz → (1 ≤ hz) × (hz ≤ 1000000))
    → ((hz : ℕ) → o.service ≡ some hz → (1 ≤ hz) × (hz ≤ 1000000))
    → validate (apply o cfg) ≡ ok tt
unfolding apply
apply-validate o cfg h p s v =
    let old = (validate_iff cfg).0 h in
    let (a, b) = or_else_in_range o.publishers cfg.rate_publishers (old.0, old.1) p in
    let (c, d) = or_else_in_range o.subscribers cfg.rate_subscribers (old.2, old.3) s in
    let (e, f) = or_else_in_range o.service cfg.rate_service (old.4, old.5) v in
    (validate_iff (apply o cfg)).1 (a, b, c, d, e, f)
