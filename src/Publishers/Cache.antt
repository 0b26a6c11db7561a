-- ===== src/Publishers/Cache.antt =====
-- The channel cache of adapters/adapter_publishers.hpp: its invariant, and that the callback of
-- `drain` keeps it.
use ecat_middleware_advr.Prelude.{
  ℕ, ◌<◌, ◌≡◌, refl, ap, sym, ◌∙◌, ◌⊎◌, inl, inr, Bool, true, false, not, ◌&&◌, ◌||◌, List, [], ◌∷◌,
  arith, if◌then◌else◌, ltb, leb, ◌==◌, Bool-cases, contains, contains-append, Distinct,
  Distinct-snoc, ==_iff, All, All-append, to_uint32,
}
use ecat_middleware_advr.Pdo.{PdoMessage}
use ecat_middleware_advr.Publishers.{
  PdoCache, ChannelCache, set_entry, clear_updated, store, receive, receive_all, max_ecat_ids,
  fill_channel,
}

-- `active_ids` lists the valid entries, each once, all in the range of the array; an entry is
-- updated only if it is valid, and carries the ID by which it is found.
pub record IsWellFormed {Pdo : Type 0} (c : ChannelCache Pdo) : Type 0 where
  pub distinct : Distinct c.active_ids
  pub bounded : All (λ id. id < max_ecat_ids) c.active_ids
  pub listed : (id : ℕ) → (c.entries id).valid ≡ contains c.active_ids id
  pub owned : (id : ℕ) → (c.entries id).valid ≡ true → (c.entries id).ecat_id ≡ id
  pub fresh : (id : ℕ) → (c.entries id).updated_this_cycle ≡ true → (c.entries id).valid ≡ true

module _ {Pdo : Type 0} where
  -- A cache with no entry, as it is built.
  pub empty_cache : Pdo → ChannelCache Pdo
  empty_cache pdo = record {
    entries = λ id. record { valid = false; updated_this_cycle = false; ecat_id = 0; pdo = pdo };
    active_ids = [];
  }

  pub empty_cache-IsWellFormed : (pdo : Pdo) → IsWellFormed (empty_cache pdo)
  unfolding empty_cache contains
  empty_cache-IsWellFormed pdo = record {
    distinct = tt;
    bounded = tt;
    listed = λ id. refl;
    owned = λ id h. cc;
    fresh = λ id h. cc;
  }

  pub clear_updated_lem :
      (ids : List ℕ) (entries : ℕ → PdoCache Pdo) (j : ℕ)
      → clear_updated ids entries j
        ≡ (if contains ids j then record (entries j) { updated_this_cycle = false } else entries j)
  unfolding clear_updated contains
  clear_updated_lem [] entries j = refl
  clear_updated_lem (id ∷ ids) entries j =
      let entries' : ℕ → PdoCache Pdo =
        set_entry entries id (record (entries id) { updated_this_cycle = false }) in
      clear_updated_lem ids entries' j ∙ elim (Bool-cases (id == j)) [
        | inl p ↦ let e : entries id ≡ entries j = ap entries ((==_iff id j).0 p) in ground arith
        | inr p ↦ ground arith
      ]

  pub clear-IsWellFormed :
      (c : ChannelCache Pdo)
      → IsWellFormed c
      → IsWellFormed (record c { entries = clear_updated c.active_ids c.entries })
  clear-IsWellFormed c w = record {
    distinct = w.distinct;
    bounded = w.bounded;
    listed = λ id. ground (arith, clear_updated_lem c.active_ids c.entries id, w.listed id);
    owned = λ id h. ground (arith, clear_updated_lem c.active_ids c.entries id, w.owned id);
    fresh = λ id h. ground (arith, clear_updated_lem c.active_ids c.entries id, w.fresh id);
  }

  pub store-IsWellFormed :
      (c : ChannelCache Pdo) (id : ℕ) (pdo : Pdo)
      → id < max_ecat_ids
      → IsWellFormed c
      → IsWellFormed (store c id pdo)
  unfolding store contains
  store-IsWellFormed c id pdo h w = record {
    distinct = elim (Bool-cases (c.entries id).valid) [
      | inl v ↦ rw v w.distinct
      | inr v ↦ rw v (Distinct-snoc c.active_ids id w.distinct (sym (w.listed id) ∙ v))
    ];
    bounded = elim (Bool-cases (c.entries id).valid) [
      | inl v ↦ rw v w.bounded
      | inr v ↦ rw v (All-append _ c.active_ids (id ∷ []) w.bounded (h, tt))
    ];
    listed = λ j. elim (Bool-cases (id == j)) [
      | inl p ↦
          let e : id ≡ j = (==_iff id j).0 p in
          let v : (c.entries id).valid ≡ (c.entries j).valid = ap (λ k. (c.entries k).valid) e in
          ground (arith, w.listed j, contains-append c.active_ids (id ∷ []) j)
      | inr p ↦ ground (arith, w.listed j, contains-append c.active_ids (id ∷ []) j)
    ];
    owned = λ j v. ground (arith, w.owned j);
    fresh = λ j v. ground (arith, w.fresh j);
  }

  module _ ⦃m : PdoMessage Pdo⦄ where
    -- Whether the cache takes a PDO: it has an index, which is in range.
    abbrev pub is_taken : Pdo → Bool
    is_taken pdo = m.has_header pdo && m.has_index pdo && ltb (to_uint32 (m.index pdo)) max_ecat_ids

    pub receive-cases :
        (c : ChannelCache Pdo) (pdo : Pdo)
        → ((is_taken pdo ≡ true) × (receive c pdo ≡ store c (to_uint32 (m.index pdo)) pdo))
          ⊎ ((is_taken pdo ≡ false) × (receive c pdo ≡ c))
    unfolding receive
    receive-cases c pdo = elim (Bool-cases (is_taken pdo)) [
      | inl e ↦ inl (e, rw (not_refused e, in_range e) refl)
      | inr e ↦ inr (e, refused (Bool-cases (m.has_header pdo && m.has_index pdo)) e)
    ]
      where
        not_refused :
            is_taken pdo ≡ true → (not (m.has_header pdo) || not (m.has_index pdo)) ≡ false
        not_refused e = ground arith

        in_range : is_taken pdo ≡ true → leb max_ecat_ids (to_uint32 (m.index pdo)) ≡ false
        in_range e = ground arith

        refused :
            ((m.has_header pdo && m.has_index pdo) ≡ true)
              ⊎ ((m.has_header pdo && m.has_index pdo) ≡ false)
            → is_taken pdo ≡ false
            → receive c pdo ≡ c
        refused (inl h) e =
            let pass : (not (m.has_header pdo) || not (m.has_index pdo)) ≡ false = ground arith in
            let over : leb max_ecat_ids (to_uint32 (m.index pdo)) ≡ true = ground arith in
            rw (pass, over) refl
        refused (inr h) e =
            let stop : (not (m.has_header pdo) || not (m.has_index pdo)) ≡ true = ground arith in
            rw stop refl

    pub receive-IsWellFormed :
        (c : ChannelCache Pdo) (pdo : Pdo) → IsWellFormed c → IsWellFormed (receive c pdo)
    receive-IsWellFormed c pdo w = elim (receive-cases c pdo) [
      | inl (e, r) ↦ rw r (store-IsWellFormed c (to_uint32 (m.index pdo)) pdo (ground arith) w)
      | inr (e, r) ↦ rw r w
    ]

    pub receive_all-IsWellFormed :
        (c : ChannelCache Pdo) (pdos : List Pdo)
        → IsWellFormed c
        → IsWellFormed (receive_all c pdos)
    unfolding receive_all
    receive_all-IsWellFormed c [] w = w
    receive_all-IsWellFormed c (pdo ∷ pdos) w =
        receive_all-IsWellFormed (receive c pdo) pdos (receive-IsWellFormed c pdo w)

    -- A round of `fill_cache` keeps the invariant, whatever the queue holds: PDOs with no index and
    -- IDs out of range included. So no index of the array is ever out of range.
    pub fill_channel-IsWellFormed :
        (c : ChannelCache Pdo) (pdos : List Pdo)
        → IsWellFormed c
        → IsWellFormed (fill_channel c pdos)
    unfolding fill_channel
    fill_channel-IsWellFormed c pdos w = receive_all-IsWellFormed _ pdos (clear-IsWellFormed c w)
