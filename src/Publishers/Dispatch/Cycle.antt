-- ===== src/Publishers/Dispatch/Cycle.antt =====
-- One cycle of adapters/adapter_publishers.hpp: the calls that a publisher gets, and what the flag of
-- `end_cycle` says.
use ecat_middleware_advr.Prelude.{
  ℕ, ◌<◌, ◌≡◌, refl, ap, sym, ◌∙◌, ◌↔◌, ◌≢◌, Bool, true, false, List, [], ◌∷◌, ◌++◌, append_assoc,
  arith, contains, All, ==_refl, Bool-ext,
}
use ecat_middleware_advr.Publishers.{
  ChannelCaches, Subscription, begin_cycle, end_cycle, no_ids, any_below, same_below, max_ecat_ids,
  cycle_valid, dispatch_channels, dispatch_subscription,
}
use ecat_middleware_advr.Publishers.Masks.{
  any_below-true, any_below-found, same_below-eq, eq-same_below,
}
use ecat_middleware_advr.Publishers.Cache.{IsWellFormed}
use ecat_middleware_advr.Publishers.Dispatch.Offers.{
  offers, keys, wants, consumes, delivered, dispatch_offers, dispatch_channels-offers,
  dispatch_offers-frame, dispatch_offers-calls, dispatch_offers-seen,
}
use ecat_middleware_advr.Publishers.Dispatch.Firsts.{
  wanted_in-elim, firsts-contains, firsts-bounded,
}

module _ {Pdo : Type 0} where
  contains-head :
      (ds : List (ℕ × Pdo))
      → All (λ id. id < max_ecat_ids) (keys ds)
      → ds ≢ []
      → (id : ℕ) × (id < max_ecat_ids) × (contains (keys ds) id ≡ true)
  contains-head [] b h = absurd (h refl)
  contains-head ((id, pdo) ∷ ds) b h = (id, b.0, unfold contains in ground (arith, ==_refl id))

  not-contains : (ds : List (ℕ × Pdo)) (id : ℕ) → contains (keys ds) id ≡ true → ds ≢ []
  unfolding contains
  not-contains [] id h e = cc
  not-contains ((j, p) ∷ ds) id h e = cc

  cycle_valid_all :
      (t : Subscription Pdo)
      → t.accept_all_ids ≡ true
      → cycle_valid t ≡ any_below max_ecat_ids t.ids_seen
  unfolding cycle_valid
  cycle_valid_all t h = rw h refl

  cycle_valid_some :
      (t : Subscription Pdo)
      → t.accept_all_ids ≡ false
      → cycle_valid t ≡ same_below max_ecat_ids t.ids_seen t.ids_allowed
  unfolding cycle_valid
  cycle_valid_some t h = rw h refl

module _ {Pdo : Type 0} (caches : ChannelCaches Pdo) (s : Subscription Pdo) where
  -- The subscription when its channels have been served.
  abbrev begun : Subscription Pdo
  begun = record s { ids_seen = no_ids; calls = s.calls ++ begin_cycle ∷ [] }

  abbrev served : Subscription Pdo
  served = dispatch_channels caches s.channels begun

  abbrev served_offers : Subscription Pdo
  served_offers = dispatch_offers (offers caches s.channels) begun

  served_lem : served ≡ served_offers
  served_lem = dispatch_channels-offers caches s.channels begun

  -- The flag of the cycle's `end_cycle`.
  abbrev pub reported : Bool
  reported = cycle_valid served

  -- In a cycle a publisher gets `begin_cycle`, a `consume` for each delivery in order, and
  -- `end_cycle`; the calls of earlier cycles stay.
  pub dispatch_subscription-calls :
      (dispatch_subscription caches s).calls
      ≡ s.calls ++ begin_cycle ∷ (consumes (delivered caches s) ++ end_cycle reported ∷ [])
  unfolding dispatch_subscription
  dispatch_subscription-calls =
      ap (λ t. t.calls ++ end_cycle (cycle_valid served) ∷ []) served_lem
      ∙ ap (λ cs. cs ++ end_cycle (cycle_valid served) ∷ [])
          (dispatch_offers-calls (offers caches s.channels) begun)
      ∙ ap (λ cs. cs ++ end_cycle (cycle_valid served) ∷ [])
          (append_assoc s.calls (begin_cycle ∷ []) (consumes (delivered caches s)))
      ∙ append_assoc s.calls (begin_cycle ∷ consumes (delivered caches s)) _

  -- The mask of the seen IDs when the channels have been served.
  seen_lem : (id : ℕ) → served_offers.ids_seen id ≡ contains (keys (delivered caches s)) id
  seen_lem id = dispatch_offers-seen (offers caches s.channels) begun id

  -- A subscription that accepts all IDs reports a valid cycle exactly if it got a PDO.
  pub reported_all :
      s.accept_all_ids ≡ true
      → ((i : ℕ) → IsWellFormed (caches i))
      → (reported ≡ true) ↔ (delivered caches s ≢ [])
  reported_all all w = (
    λ r.
        let (id, lt, seen) = any_below-found max_ecat_ids served_offers.ids_seen (sym flag ∙ r) in
        not-contains (delivered caches s) id (sym (seen_lem id) ∙ seen),
    λ some_pdo.
        let (id, lt, there) =
          contains-head (delivered caches s) (firsts-bounded (wants s) no_ids caches s.channels w)
            some_pdo in
        flag ∙ any_below-true max_ecat_ids served_offers.ids_seen id lt (seen_lem id ∙ there),
  )
    where
      flag : reported ≡ any_below max_ecat_ids served_offers.ids_seen
      flag =
          ap cycle_valid served_lem
          ∙ cycle_valid_all served_offers
              ((dispatch_offers-frame (offers caches s.channels) begun).0 ∙ all)

  -- An ID that a filtered subscription gets is one of its IDs.
  pub delivered-allowed :
      s.accept_all_ids ≡ false
      → (id : ℕ) → contains (keys (delivered caches s)) id ≡ true
      → s.ids_allowed id ≡ true
  delivered-allowed filtered id h =
      wanted_in-elim (wants s) (offers caches s.channels) id (s.ids_allowed id ≡ true)
        (λ e want. ground arith)
        (ground (arith, firsts-contains (wants s) no_ids (offers caches s.channels) id))

  pub reported_filtered :
      s.accept_all_ids ≡ false
      → (reported ≡ true) ↔ (
          (id : ℕ)
          → id < max_ecat_ids
          → s.ids_allowed id ≡ true
          → contains (keys (delivered caches s)) id ≡ true)
  reported_filtered filtered = (
    λ r id lt allowed.
        sym (seen_lem id)
        ∙ same_below-eq max_ecat_ids served_offers.ids_seen s.ids_allowed id lt (sym flag ∙ r)
        ∙ allowed,
    λ complete.
        flag
        ∙ eq-same_below max_ecat_ids served_offers.ids_seen s.ids_allowed λ id lt.
          seen_lem id
          ∙ Bool-ext (contains (keys (delivered caches s)) id) (s.ids_allowed id)
              (delivered-allowed filtered id) (complete id lt),
  )
    where
      flag : reported ≡ same_below max_ecat_ids served_offers.ids_seen s.ids_allowed
      flag =
          let (a, b, c) = dispatch_offers-frame (offers caches s.channels) begun in
          ap cycle_valid served_lem
          ∙ cycle_valid_some served_offers (a ∙ filtered)
          ∙ ap (same_below max_ecat_ids served_offers.ids_seen) b
