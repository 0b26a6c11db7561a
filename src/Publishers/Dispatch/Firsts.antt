-- ===== src/Publishers/Dispatch/Firsts.antt =====
-- The description of a cycle's deliveries: each ID once, only what was offered and wanted, and all of
-- the IDs for which something wanted was offered.
use ecat_middleware_advr.Prelude.{
  ℕ, ◌<◌, ◌≡◌, refl, ap, sym, ◌∙◌, ◌⊎◌, inl, inr, Bool, true, false, not, ◌&&◌, ◌||◌, List, [], ◌∷◌,
  arith, ◌==◌, Bool-cases, contains, Distinct, All, All-append, All-weaken, ==_iff, subst,
}
use ecat_middleware_advr.Channel.{ChannelRx, channel_index}
use ecat_middleware_advr.Publishers.{
  PdoCache, ChannelCache, ChannelCaches, IdMask, set_id, max_ecat_ids,
}
use ecat_middleware_advr.Publishers.Cache.{IsWellFormed}
use ecat_middleware_advr.Publishers.Dispatch.Offers.{
  offers_of, offers, firsts, keys, firsts_take, firsts_skip,
}

module _ {Pdo : Type 0} where
  -- Whether an offer of an ID is wanted.
  pub wanted_in : (ℕ → PdoCache Pdo → Bool) → List (ℕ × PdoCache Pdo) → ℕ → Bool
  wanted_in want [] id = false
  wanted_in want ((j, e) ∷ os) id = (j == id && want j e) || wanted_in want os id

  -- What every wanted offer of an ID shows holds if there is one.
  pub wanted_in-elim :
      (want : ℕ → PdoCache Pdo → Bool) (os : List (ℕ × PdoCache Pdo)) (id : ℕ) (P : Type 0)
      → ((e : PdoCache Pdo) → want id e ≡ true → P)
      → wanted_in want os id ≡ true
      → P
  unfolding wanted_in
  wanted_in-elim want [] id P f h = cc
  wanted_in-elim want ((j, e) ∷ os) id P f h = elim (Bool-cases (j == id && want j e)) [
    | inl w ↦
        let same : want j e ≡ want id e = ap (λ k. want k e) ((==_iff j id).0 (ground arith)) in
        f e (ground arith)
    | inr w ↦ wanted_in-elim want os id P f (ground arith)
  ]

  -- A delivery comes from an offer that is wanted.
  abbrev pub Offered : (ℕ → PdoCache Pdo → Bool) → List (ℕ × PdoCache Pdo) → ℕ × Pdo → Type 0
  Offered want [] d = ⊥
  Offered want ((j, e) ∷ os) d = ((want j e ≡ true) × (d ≡ (j, e.pdo))) ⊎ Offered want os d

  -- The IDs delivered are those for which a wanted offer was made, and that were not seen before.
  pub firsts-contains :
      (want : ℕ → PdoCache Pdo → Bool) (seen : IdMask) (os : List (ℕ × PdoCache Pdo)) (id : ℕ)
      → contains (keys (firsts want seen os)) id ≡ (wanted_in want os id && not (seen id))
  unfolding contains wanted_in
  firsts-contains want seen [] id = unfold firsts in refl
  firsts-contains want seen ((j, e) ∷ os) id = elim (Bool-cases (want j e && not (seen j))) [
    | inl w ↦
        ap (λ ds. contains (keys ds) id) (firsts_take want seen j e os w)
        ∙ ap (λ b. j == id || b) (firsts-contains want (set_id seen j) os id)
        ∙ taken w (Bool-cases (j == id))
    | inr w ↦
        ap (λ ds. contains (keys ds) id) (firsts_skip want seen j e os w)
        ∙ firsts-contains want seen os id
        ∙ skipped w (Bool-cases (j == id))
  ]
    where
      taken :
          (want j e && not (seen j)) ≡ true
          → ((j == id) ≡ true) ⊎ ((j == id) ≡ false)
          → (j == id || (wanted_in want os id && not (set_id seen j id)))
            ≡ (((j == id && want j e) || wanted_in want os id) && not (seen id))
      taken w (inl p) = let same : seen j ≡ seen id = ap seen ((==_iff j id).0 p) in ground arith
      taken w (inr p) = ground arith

      skipped :
          (want j e && not (seen j)) ≡ false
          → ((j == id) ≡ true) ⊎ ((j == id) ≡ false)
          → (wanted_in want os id && not (seen id))
            ≡ (((j == id && want j e) || wanted_in want os id) && not (seen id))
      skipped w (inl p) = let same : seen j ≡ seen id = ap seen ((==_iff j id).0 p) in ground arith
      skipped w (inr p) = ground arith

  -- Where nothing is wanted nothing is delivered.
  pub firsts_none :
      (want : ℕ → PdoCache Pdo → Bool) (seen : IdMask) (os : List (ℕ × PdoCache Pdo))
      → ((id : ℕ) (e : PdoCache Pdo) → want id e ≡ false)
      → firsts want seen os ≡ []
  firsts_none want seen [] h = unfold firsts in refl
  firsts_none want seen ((j, e) ∷ os) h =
      firsts_skip want seen j e os (ground (arith, h j e)) ∙ firsts_none want seen os h

  -- No ID is delivered twice.
  pub firsts-Distinct :
      (want : ℕ → PdoCache Pdo → Bool) (seen : IdMask) (os : List (ℕ × PdoCache Pdo))
      → Distinct (keys (firsts want seen os))
  firsts-Distinct want seen [] = unfold firsts in tt
  firsts-Distinct want seen ((j, e) ∷ os) = elim (Bool-cases (want j e && not (seen j))) [
    | inl w ↦
        subst (λ ds. Distinct (keys ds)) (sym (firsts_take want seen j e os w))
          (
            ground (arith, firsts-contains want (set_id seen j) os j),
            firsts-Distinct want (set_id seen j) os,
          )
    | inr w ↦
        subst (λ ds. Distinct (keys ds)) (sym (firsts_skip want seen j e os w))
          (firsts-Distinct want seen os)
  ]

  -- Nothing is delivered but what was offered and wanted.
  pub firsts-Offered :
      (want : ℕ → PdoCache Pdo → Bool) (seen : IdMask) (os : List (ℕ × PdoCache Pdo))
      → All (Offered want os) (firsts want seen os)
  firsts-Offered want seen [] = unfold firsts in tt
  firsts-Offered want seen ((j, e) ∷ os) = elim (Bool-cases (want j e && not (seen j))) [
    | inl w ↦ subst (All (Offered want ((j, e) ∷ os))) (sym (firsts_take want seen j e os w)) (
      inl (ground arith, refl),
      All-weaken (Offered want os) (Offered want ((j, e) ∷ os)) _ (λ d o. inr o)
          (firsts-Offered want (set_id seen j) os),
    )
    | inr w ↦ subst (All (Offered want ((j, e) ∷ os))) (sym (firsts_skip want seen j e os w)) (
        All-weaken (Offered want os) (Offered want ((j, e) ∷ os)) _ (λ d o. inr o)
          (firsts-Offered want seen os))
  ]

  keys-bounded :
      (want : ℕ → PdoCache Pdo → Bool) (seen : IdMask) (os : List (ℕ × PdoCache Pdo))
      → All (λ o. o.0 < max_ecat_ids) os
      → All (λ id. id < max_ecat_ids) (keys (firsts want seen os))
  keys-bounded want seen [] b = unfold firsts in tt
  keys-bounded want seen ((j, e) ∷ os) b = elim (Bool-cases (want j e && not (seen j))) [
    | inl w ↦
        subst (λ ds. All (λ id. id < max_ecat_ids) (keys ds)) (sym (firsts_take want seen j e os w))
          (b.0, keys-bounded want (set_id seen j) os b.1)
    | inr w ↦
        subst (λ ds. All (λ id. id < max_ecat_ids) (keys ds)) (sym (firsts_skip want seen j e os w))
          (keys-bounded want seen os b.1)
  ]

  offers_of-bounded :
      (c : ChannelCache Pdo) (ids : List ℕ)
      → All (λ id. id < max_ecat_ids) ids
      → All (λ o. o.0 < max_ecat_ids) (offers_of c ids)
  offers_of-bounded c [] b = tt
  offers_of-bounded c (id ∷ ids) b = (b.0, offers_of-bounded c ids b.1)

  offers-bounded :
      (caches : ChannelCaches Pdo) (cs : List ChannelRx)
      → ((i : ℕ) → IsWellFormed (caches i))
      → All (λ o. o.0 < max_ecat_ids) (offers caches cs)
  unfolding offers
  offers-bounded caches [] w = tt
  offers-bounded caches (c ∷ cs) w =
      let cache = caches (channel_index c) in
      All-append _ (offers_of cache cache.active_ids) (offers caches cs)
        (offers_of-bounded cache cache.active_ids (w (channel_index c)).bounded)
        (offers-bounded caches cs w)

  -- From well-formed caches only IDs in range are delivered.
  pub firsts-bounded :
      (want : ℕ → PdoCache Pdo → Bool) (seen : IdMask) (caches : ChannelCaches Pdo)
      (cs : List ChannelRx)
      → ((i : ℕ) → IsWellFormed (caches i))
      → All (λ id. id < max_ecat_ids) (keys (firsts want seen (offers caches cs)))
  firsts-bounded want seen caches cs w =
      keys-bounded want seen (offers caches cs) (offers-bounded caches cs w)
