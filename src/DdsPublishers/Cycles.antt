-- ===== src/DdsPublishers/Cycles.antt =====
-- A cycle of a state publisher of the DDS plugins: what an invariant of `process` gives for the message
-- that is written, and when one is written.
use ecat_middleware_advr.Prelude.{
  ◌≡◌, refl, subst, ap, ◌∙◌, Bool, true, false, if◌then◌else◌, ◌&&◌, ◌||◌, List, [], ◌∷◌, none,
  some, Result, ok, err, ◌>>=◌, arith, any_of, ok-injective, >>=-eq-ok,
}
use ecat_middleware_advr.Converter.State.{NullString}
use ecat_middleware_advr.DdsPublishers.{
  Processed, PdoPublisher, begin_cycle, consume, end_cycle, consume_all, run_cycle, after_process,
}

module _ {Msg Pdo : Type 0} (process : Msg → Pdo → Processed Msg) (empty : Msg) (Inv : Msg → Type 0)
    (kept : (m m' : Msg) (pdo : Pdo) → Inv m → process m pdo ≡ Processed.updated m' → Inv m') where
  consume-Inv :
      (b b' : PdoPublisher Msg) (pdo : Pdo)
      → Inv b.message
      → consume process empty b pdo ≡ ok b'
      → Inv b'.message
  unfolding consume
  consume-Inv b b' pdo h e = from_outcome (process b.message pdo) refl e
    where
      from_outcome :
          (o : Processed Msg)
          → process b.message pdo ≡ o
          → after_process process empty b o ≡ ok b'
          → Inv b'.message
      from_outcome (Processed.updated m) at k =
          subst (λ c. Inv c.message) (ok-injective k) (kept b.message m pdo h at)
      from_outcome Processed.ignored at k = subst (λ c. Inv c.message) (ok-injective k) h
      from_outcome (Processed.thrown e') at k = cc

  consume_all-Inv :
      (b b' : PdoPublisher Msg) (pdos : List Pdo)
      → Inv b.message
      → consume_all process empty b pdos ≡ ok b'
      → Inv b'.message
  unfolding consume_all
  consume_all-Inv b b' [] h e = subst (λ c. Inv c.message) (ok-injective e) h
  consume_all-Inv b b' (pdo ∷ pdos) h e =
      let (next, first, rest) = >>=-eq-ok (consume process empty b pdo) _ e in
      consume_all-Inv next b' pdos (consume-Inv b next pdo h first) rest

  -- A message that a cycle writes has what the empty message has and `process` keeps.
  pub run_cycle-Inv :
      (b : PdoPublisher Msg) (pdos : List Pdo) (valid : Bool) (m : Msg)
      → Inv empty
      → run_cycle process empty b pdos valid ≡ ok (some m)
      → Inv m
  unfolding run_cycle begin_cycle end_cycle
  run_cycle-Inv b pdos valid m h e =
      let (last, ran, written) = >>=-eq-ok (consume_all process empty _ pdos) _ e in
      subst Inv (message_of last (ok-injective written)) (consume_all-Inv _ last pdos h ran)
    where
      message_of :
          (last : PdoPublisher Msg)
          → (if valid && last.has_update then some last.message else none) ≡ some m
          → last.message ≡ m
      message_of last k = ground arith

abbrev pub threw : {Msg : Type 0} → Processed Msg → Bool
threw (Processed.updated m) = false
threw Processed.ignored = false
threw (Processed.thrown e) = true

abbrev pub failed : {A : Type 0} → Result NullString A → Bool
failed (ok a) = false
failed (err e) = true

module _ {Msg Pdo : Type 0} (process : Msg → Pdo → Processed Msg) (empty : Msg)
    (throws : Pdo → Bool)
    (thrown_by : (m : Msg) (pdo : Pdo) → threw (process m pdo) ≡ throws pdo) where
  after_process-failed :
      (b : PdoPublisher Msg) (pdos : List Pdo) (o : Processed Msg)
      → ((b : PdoPublisher Msg) → failed (consume_all process empty b pdos) ≡ any_of throws pdos)
      → failed (after_process process empty b o >>= λ next. consume_all process empty next pdos)
        ≡ (threw o || any_of throws pdos)
  after_process-failed b pdos (Processed.updated m) h = h _
  after_process-failed b pdos Processed.ignored h = h b
  after_process-failed b pdos (Processed.thrown e) h = refl

  consume_all-failed :
      (b : PdoPublisher Msg) (pdos : List Pdo)
      → failed (consume_all process empty b pdos) ≡ any_of throws pdos
  unfolding consume_all consume any_of
  consume_all-failed b [] = refl
  consume_all-failed b (pdo ∷ pdos) =
      after_process-failed b pdos (process b.message pdo) (λ c. consume_all-failed c pdos)
      ∙ ap (λ t. t || any_of throws pdos) (thrown_by b.message pdo)

  -- A cycle fails exactly if it has a PDO that `process` throws at.
  pub run_cycle-failed :
      (b : PdoPublisher Msg) (pdos : List Pdo) (valid : Bool)
      → failed (run_cycle process empty b pdos valid) ≡ any_of throws pdos
  unfolding run_cycle
  run_cycle-failed b pdos valid =
      unchanged (consume_all process empty (begin_cycle process empty b) pdos)
      ∙ consume_all-failed _ pdos
    where
      unchanged :
          (r : Result NullString (PdoPublisher Msg))
          → failed (r >>= λ last. ok (end_cycle process empty last valid)) ≡ failed r
      unchanged (ok a) = refl
      unchanged (err e) = refl
