-- ===== src/ZenohSubscriber/Newest.antt =====
-- What subscriber/zenoh_subscriber.hpp of plugins/advrf_zenoh_plugin keeps of the samples that arrive
-- between two calls of `spin_once`.
use ecat_middleware_advr.Prelude.{
  ℕ, suc, subst, ◌+◌, ◌-◌, ◌%◌, ◌≤◌, ◌<◌, ◌≡◌, refl, Bool, inl, inr, Bool-cases, List, [], ◌∷◌,
  ◌++◌, append-nil, append_assoc, Option, none, some, arith, if◌then◌else◌, leb, length,
  length-append, u64_mod,
}
use ecat_middleware_advr.ZenohSubscriber.{
  ZenohSubscriber, drop_oldest, enqueue, on_sample, on_samples, run_callback, spin_once,
}

module _ {Message : Type 0} where
  -- The messages among the samples, in order.
  abbrev pub decoded : List (Option Message) → List Message
  decoded [] = []
  decoded (none ∷ samples) = decoded samples
  decoded (some message ∷ samples) = message ∷ decoded samples

  -- The last `n` of a list.
  abbrev pub newest : ℕ → List Message → List Message
  newest n [] = []
  newest n (x ∷ xs) = let fewer = newest n xs in if leb (suc (length xs)) n then x ∷ xs else fewer

  newest_all : (n : ℕ) (xs : List Message) → length xs ≤ n → newest n xs ≡ xs
  newest_all n [] h = refl
  newest_all n (x ∷ xs) h = ground arith

  length-newest : (n : ℕ) (xs : List Message) → length (newest n xs) + (length xs - n) ≡ length xs
  length-newest n [] = omega arith
  length-newest n (x ∷ xs) = ground (arith, length-newest n xs)

  newest-snoc :
      (n : ℕ) (xs : List Message) (x : Message)
      → newest (suc n) (xs ++ x ∷ []) ≡ newest n xs ++ x ∷ []
  newest-snoc n [] x = ground arith
  newest-snoc n (y ∷ xs) x = ground (arith, newest-snoc n xs x, length-append xs (x ∷ []))

  newest-newest : (n k : ℕ) (xs : List Message) → n ≤ k → newest n (newest k xs) ≡ newest n xs
  newest-newest n k [] h = refl
  newest-newest n k (x ∷ xs) h = ground (arith, newest-newest n k xs)

  -- The loop leaves room for one more message, and counts what it pops.
  drop_oldest_lem :
      (n dropped : ℕ) (xs : List Message)
      → dropped < u64_mod
      → drop_oldest (suc n) dropped xs ≡ ((dropped + (length xs - n)) % u64_mod, newest n xs)
  unfolding drop_oldest
  drop_oldest_lem n dropped [] h = ground arith
  drop_oldest_lem n dropped (x ∷ xs) h = elim (Bool-cases (leb n (length xs))) [
    | inl e ↦ ground (arith, drop_oldest_lem n ((dropped + 1) % u64_mod) xs)
    | inr e ↦ ground (arith, newest_all n xs)
  ]

  -- A queue that holds the last `suc n` of the messages that have come, and has counted the others.
  abbrev Holds : ℕ → ℕ → List Message → ZenohSubscriber Message → Type 0
  Holds n dropped messages s =
      (s.history_depth ≡ suc n)
      × (s.pending ≡ newest (suc n) messages)
      × (s.dropped_samples ≡ (dropped + (length messages - suc n)) % u64_mod)

  enqueue-Holds :
      (n dropped : ℕ) (messages : List Message) (s : ZenohSubscriber Message) (message : Message)
      → s.dropped_samples < u64_mod
      → Holds n dropped messages s
      → Holds n dropped (messages ++ message ∷ []) (enqueue s message)
  unfolding enqueue
  enqueue-Holds n dropped messages s message h = ground (
    arith,
    drop_oldest_lem n s.dropped_samples s.pending,
    newest-snoc n messages message,
    newest-newest n (suc n) messages,
    length-append messages (message ∷ []),
    length-newest (suc n) messages,
  )

  on_samples-Holds :
      (n dropped : ℕ) (messages : List Message) (samples : List (Option Message))
      (s : ZenohSubscriber Message)
      → Holds n dropped messages s
      → Holds n dropped (messages ++ decoded samples) (on_samples s samples)
  unfolding on_samples on_sample
  on_samples-Holds n dropped messages [] s h = rw (append-nil) h
  on_samples-Holds n dropped messages (none ∷ samples) s h =
      on_samples-Holds n dropped messages samples s h
  on_samples-Holds n dropped messages (some message ∷ samples) s h =
      subst (λ l. Holds n dropped l (on_samples (enqueue s message) samples))
        (append_assoc messages (message ∷ []) (decoded samples))
        (on_samples-Holds n dropped (messages ++ message ∷ []) samples (enqueue s message)
          (enqueue-Holds n dropped messages s message (omega arith) h))

  -- From an empty queue, `spin_once` hands over the last of the samples that have arrived and could be
  -- deserialised, at most `history_depth`, in the order of their arrival. All others were counted as
  -- dropped, modulo 2^64, and the queue is empty again.
  pub spin_once-newest :
      {S : Type 0} (callback : Message → S → S × Bool) (state : S) (s : ZenohSubscriber Message)
      (samples : List (Option Message))
      → 0 < s.history_depth
      → s.dropped_samples < u64_mod
      → s.pending ≡ []
      → spin_once (some callback) (on_samples s samples) state ≡ (
        record {
          history_depth = s.history_depth;
          dropped_samples =
              (s.dropped_samples + (length (decoded samples) - s.history_depth)) % u64_mod;
          pending = [];
        },
        run_callback (some callback) (newest s.history_depth (decoded samples)) state,
      )
  unfolding spin_once
  spin_once-newest callback state s samples h k e =
      let (depth, kept, dropped) =
        on_samples-Holds (s.history_depth - 1) s.dropped_samples [] samples s
          (omega arith, e, ground arith) in
      ground arith
