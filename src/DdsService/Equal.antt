-- ===== src/DdsService/Equal.antt =====
-- The two servers of service/service_server.hpp, in plugins/advrf_cyclonedds_plugin and
-- plugins/advrf_fastdds_plugin, beside each other.
use ecat_middleware_advr.Prelude.{
  ℕ, zero, suc, ◌≡◌, refl, ap, List, [], ◌∷◌, ◌++◌, Option, take, drop,
}
use ecat_middleware_advr.DdsService.{serve, spin_once_cyclone, spin_once_fast}

module _ {Request Response S : Type 0} (callback : Option (Request → S → Response × S)) where
  -- Cycles of the Cyclone DDS server, with no request arriving between them.
  abbrev pub spins_cyclone :
      ℕ → List (Option Request) → S → List (Option Request) × List Response × S
  spins_cyclone zero queue state = (queue, [], state)
  spins_cyclone (suc n) queue state =
      let (left, written, next) = spin_once_cyclone callback queue state in
      let (last, more, final) = spins_cyclone n left next in (last, written ++ more, final)

  spins_cyclone-nil : (n : ℕ) (state : S) → spins_cyclone n [] state ≡ ([], [], state)
  unfolding spin_once_cyclone
  spins_cyclone-nil zero state = refl
  spins_cyclone-nil (suc n) state = spins_cyclone-nil n state

  -- In `n` cycles the Cyclone DDS server answers what the Fast DDS server answers in one cycle with the
  -- first `n` samples alone, with the same effect; the samples behind them still wait.
  pub spins_cyclone-eq-fast :
      (n : ℕ) (queue : List (Option Request)) (state : S)
      → spins_cyclone n queue state ≡ (
          let (left, written, next) = spin_once_fast callback (take n queue) state in
          (drop n queue, written, next))
  unfolding spin_once_cyclone spin_once_fast
  spins_cyclone-eq-fast zero queue state = refl
  spins_cyclone-eq-fast (suc n) [] state = spins_cyclone-nil n state
  spins_cyclone-eq-fast (suc n) (sample ∷ queue) state =
      ap
        (λ (r : List (Option Request) × List Response × S).
          (r.0, (serve callback sample state).0 ++ r.1, r.2))
        (spins_cyclone-eq-fast n queue (serve callback sample state).1)
