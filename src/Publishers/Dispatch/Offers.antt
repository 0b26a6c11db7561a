-- ===== src/Publishers/Dispatch/Offers.antt =====
-- What a publisher is to get in a cycle, and that `dispatch` of adapters/adapter_publishers.hpp gives
-- it just that.
use ecat_middleware_advr.Prelude.{
  ℕ, ◌≡◌, refl, ap, sym, ◌∙◌, ◌⊎◌, inl, inr, Bool, true, false, not, ◌&&◌, ◌||◌, List, [], ◌∷◌,
  ◌++◌, append-nil, append_assoc, arith, if◌then◌else◌, contains,
}
use ecat_middleware_advr.Channel.{ChannelRx, channel_index}
use ecat_middleware_advr.Publishers.{
  PdoCache, ChannelCache, ChannelCaches, Subscription, PublisherCall, consume, IdMask, no_ids,
  set_id, dispatch_entry, dispatch_ids, dispatch_cache, dispatch_channels,
}

module _ {Pdo : Type 0} where
  -- The entries that one channel offers, in the order of `active_ids`.
  abbrev pub offers_of : ChannelCache Pdo → List ℕ → List (ℕ × PdoCache Pdo)
  offers_of c [] = []
  offers_of c (id ∷ ids) = (id, c.entries id) ∷ offers_of c ids

  unfoldable pub offers : ChannelCaches Pdo → List ChannelRx → List (ℕ × PdoCache Pdo)
  offers caches [] = []
  offers caches (c ∷ cs) =
      let cache = caches (channel_index c) in offers_of cache cache.active_ids ++ offers caches cs

  -- An entry that was updated in this cycle, of an ID that the subscription admits.
  abbrev pub wants : Subscription Pdo → ℕ → PdoCache Pdo → Bool
  wants s id e = e.updated_this_cycle && (s.accept_all_ids || s.ids_allowed id)

  unfoldable pub firsts :
      (ℕ → PdoCache Pdo → Bool) → IdMask → List (ℕ × PdoCache Pdo) → List (ℕ × Pdo)
  firsts want seen [] = []
  firsts want seen ((id, e) ∷ os) =
      let later = firsts want (set_id seen id) os in
      let rest = firsts want seen os in
      if want id e && not (seen id) then (id, e.pdo) ∷ later else rest

  abbrev pub keys : List (ℕ × Pdo) → List ℕ
  keys [] = []
  keys ((id, pdo) ∷ ds) = id ∷ keys ds

  abbrev pub consumes : List (ℕ × Pdo) → List (PublisherCall Pdo)
  consumes [] = []
  consumes ((id, pdo) ∷ ds) = consume pdo ∷ consumes ds

  -- What a subscription is to get from the caches in one cycle.
  abbrev pub delivered : ChannelCaches Pdo → Subscription Pdo → List (ℕ × Pdo)
  delivered caches s = firsts (wants s) no_ids (offers caches s.channels)

  pub dispatch_offers : List (ℕ × PdoCache Pdo) → Subscription Pdo → Subscription Pdo
  dispatch_offers [] s = s
  dispatch_offers ((id, e) ∷ os) s = dispatch_offers os (dispatch_entry id e s)

  dispatch_ids-offers :
      (c : ChannelCache Pdo) (ids : List ℕ) (s : Subscription Pdo)
      → dispatch_ids c ids s ≡ dispatch_offers (offers_of c ids) s
  unfolding dispatch_ids dispatch_offers
  dispatch_ids-offers c [] s = refl
  dispatch_ids-offers c (id ∷ ids) s =
      dispatch_ids-offers c ids (dispatch_entry id (c.entries id) s)

  dispatch_offers-append :
      (xs ys : List (ℕ × PdoCache Pdo)) (s : Subscription Pdo)
      → dispatch_offers (xs ++ ys) s ≡ dispatch_offers ys (dispatch_offers xs s)
  unfolding dispatch_offers
  dispatch_offers-append [] ys s = refl
  dispatch_offers-append ((id, e) ∷ xs) ys s = dispatch_offers-append xs ys (dispatch_entry id e s)

  pub dispatch_channels-offers :
      (caches : ChannelCaches Pdo) (cs : List ChannelRx) (s : Subscription Pdo)
      → dispatch_channels caches cs s ≡ dispatch_offers (offers caches cs) s
  unfolding dispatch_channels dispatch_cache offers
  dispatch_channels-offers caches [] s = unfold dispatch_offers in refl
  dispatch_channels-offers caches (c ∷ cs) s =
      let cache = caches (channel_index c) in
      dispatch_channels-offers caches cs (dispatch_ids cache cache.active_ids s)
      ∙ ap (dispatch_offers (offers caches cs)) (dispatch_ids-offers cache cache.active_ids s)
      ∙ sym (dispatch_offers-append (offers_of cache cache.active_ids) (offers caches cs) s)

  dispatch_entry-cases :
      (id : ℕ) (e : PdoCache Pdo) (s : Subscription Pdo)
      → (((wants s id e && not (s.ids_seen id)) ≡ true)
          × (dispatch_entry id e s ≡ record s {
            ids_seen = set_id s.ids_seen id;
            calls = s.calls ++ consume e.pdo ∷ [];
          }))
        ⊎ (((wants s id e && not (s.ids_seen id)) ≡ false) × (dispatch_entry id e s ≡ s))
  unfolding dispatch_entry
  dispatch_entry-cases id e s = ground arith

  -- Serving offers changes the calls and the mask of the seen IDs only.
  pub dispatch_offers-frame :
      (os : List (ℕ × PdoCache Pdo)) (s : Subscription Pdo)
      → ((dispatch_offers os s).accept_all_ids ≡ s.accept_all_ids)
        × ((dispatch_offers os s).ids_allowed ≡ s.ids_allowed)
        × ((dispatch_offers os s).channels ≡ s.channels)
  unfolding dispatch_offers
  dispatch_offers-frame [] s = (refl, refl, refl)
  dispatch_offers-frame ((id, e) ∷ os) s =
      let (a, b, c) = dispatch_offers-frame os (dispatch_entry id e s) in
      elim (dispatch_entry-cases id e s) [
        | inl (w, r) ↦ (
          a ∙ ap (λ t. t.accept_all_ids) r,
          b ∙ ap (λ t. t.ids_allowed) r,
          c ∙ ap (λ t. t.channels) r,
        )
        | inr (w, r) ↦ (
          a ∙ ap (λ t. t.accept_all_ids) r,
          b ∙ ap (λ t. t.ids_allowed) r,
          c ∙ ap (λ t. t.channels) r,
        )
      ]

  pub firsts_take :
      (want : ℕ → PdoCache Pdo → Bool) (seen : IdMask) (id : ℕ) (e : PdoCache Pdo)
      (os : List (ℕ × PdoCache Pdo))
      → (want id e && not (seen id)) ≡ true
      → firsts want seen ((id, e) ∷ os) ≡ (id, e.pdo) ∷ firsts want (set_id seen id) os
  unfolding firsts
  firsts_take want seen id e os h = rw h refl

  pub firsts_skip :
      (want : ℕ → PdoCache Pdo → Bool) (seen : IdMask) (id : ℕ) (e : PdoCache Pdo)
      (os : List (ℕ × PdoCache Pdo))
      → (want id e && not (seen id)) ≡ false
      → firsts want seen ((id, e) ∷ os) ≡ firsts want seen os
  unfolding firsts
  firsts_skip want seen id e os h = rw h refl

  pub dispatch_offers-calls :
      (os : List (ℕ × PdoCache Pdo)) (s : Subscription Pdo)
      → (dispatch_offers os s).calls ≡ s.calls ++ consumes (firsts (wants s) s.ids_seen os)
  unfolding dispatch_offers
  dispatch_offers-calls [] s = unfold firsts in sym (append-nil s.calls)
  dispatch_offers-calls ((id, e) ∷ os) s = elim (dispatch_entry-cases id e s) [
    | inl (w, r) ↦
        ap (λ t. (dispatch_offers os t).calls) r
        ∙ dispatch_offers-calls os
            (record s { ids_seen = set_id s.ids_seen id; calls = s.calls ++ consume e.pdo ∷ [] })
        ∙ append_assoc s.calls (consume e.pdo ∷ []) _
        ∙ ap (λ ds. s.calls ++ consumes ds) (sym (firsts_take (wants s) s.ids_seen id e os w))
    | inr (w, r) ↦
        ap (λ t. (dispatch_offers os t).calls) r
        ∙ dispatch_offers-calls os s
        ∙ ap (λ ds. s.calls ++ consumes ds) (sym (firsts_skip (wants s) s.ids_seen id e os w))
  ]

  pub dispatch_offers-seen :
      (os : List (ℕ × PdoCache Pdo)) (s : Subscription Pdo) (id : ℕ)
      → (dispatch_offers os s).ids_seen id
        ≡ (s.ids_seen id || contains (keys (firsts (wants s) s.ids_seen os)) id)
  unfolding dispatch_offers
  dispatch_offers-seen [] s id = unfold firsts contains in ground arith
  dispatch_offers-seen ((j, e) ∷ os) s id = elim (dispatch_entry-cases j e s) [
    | inl (w, r) ↦
        ap (λ t. (dispatch_offers os t).ids_seen id) r
        ∙ dispatch_offers-seen os
            (record s { ids_seen = set_id s.ids_seen j; calls = s.calls ++ consume e.pdo ∷ [] }) id
        ∙ unfold contains in
          ground arith
          ∙ ap (λ ds. s.ids_seen id || contains (keys ds) id)
              (sym (firsts_take (wants s) s.ids_seen j e os w))
    | inr (w, r) ↦
        ap (λ t. (dispatch_offers os t).ids_seen id) r
        ∙ dispatch_offers-seen os s id
        ∙ ap (λ ds. s.ids_seen id || contains (keys ds) id)
            (sym (firsts_skip (wants s) s.ids_seen j e os w))
  ]
