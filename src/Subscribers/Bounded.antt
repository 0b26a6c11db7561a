-- ===== src/Subscribers/Bounded.antt =====
-- `push` of adapters/adapter_subscribers.hpp in core/advrf_middleware_core on a transmit queue of bounded
-- size.
use ecat_middleware_advr.Prelude.{
  ℕ, zero, suc, ◌-◌, ◌<◌, ◌≤◌, ◌≡◌, refl, sym, ap, ◌∙◌, Bool, true, false, List, [], ◌∷◌, ◌++◌,
  append-nil, append_assoc, some, arith, if◌then◌else◌, ltb, length, length-append, take, ltb→lt,
  Bool-cases, inl, inr, is_neg, to_uint32,
}
use ecat_middleware_advr.Channel.{ChannelTx, DeviceTypeTx, device_for_tx}
use ecat_middleware_advr.Pdo.{PdoMessage}
use ecat_middleware_advr.Subscribers.{is_refused, push_to, push, push_into}

-- A command in a transmit queue.
abbrev pub Handed : Type 0 → Type 0
Handed Pdo = DeviceTypeTx × ℕ × Pdo

module _ {Pdo : Type 0} (capacity : ℕ) where
  -- A queue that refuses what does not fit; the master takes nothing out meanwhile.
  abbrev pub bounded : DeviceTypeTx → ℕ → Pdo → List (Handed Pdo) → List (Handed Pdo) × Bool
  bounded device slave_id pdo queue =
      if ltb (length queue) capacity
      then (queue ++ (device, slave_id, pdo) ∷ [], true)
      else (queue, false)

module _ {Pdo : Type 0} ⦃m : PdoMessage Pdo⦄ (capacity : ℕ) (device : DeviceTypeTx)
    (channel : ChannelTx) where
  -- A PDO whose header has an index, on a channel with a device, while the connection is up.
  pub push_into-bounded :
      (pdo : Pdo) (queue : List (Handed Pdo))
      → device_for_tx channel ≡ some device
      → m.has_header pdo ≡ true
      → m.has_index pdo ≡ true
      → push_into (bounded capacity) true channel pdo queue ≡ (
          if is_neg (m.index pdo)
          then (queue, false)
          else bounded capacity device (to_uint32 (m.index pdo)) pdo queue)
  unfolding push_into push push_to is_refused
  push_into-bounded pdo queue d h k = rw d (ground arith)

take-nil : {A : Type 0} (n : ℕ) → take {A = A} n [] ≡ []
take-nil zero = refl
take-nil (suc n) = refl

module _ {A : Type 0} (capacity : ℕ) (queue : List A) where
  pub take-room :
      (x : A) (rest : List A)
      → length queue < capacity
      → (queue ++ x ∷ []) ++ take (capacity - length (queue ++ x ∷ [])) rest
        ≡ queue ++ take (capacity - length queue) (x ∷ rest)
  take-room x rest h =
      let fewer : capacity - length queue ≡ suc (capacity - length (queue ++ x ∷ [])) =
        omega (arith, length-append queue (x ∷ [])) in
      rw fewer (append_assoc queue (x ∷ []) _)

  pub take-full :
      (rest : List A)
      → capacity ≤ length queue
      → queue ≡ queue ++ take (capacity - length queue) rest
  take-full rest h =
      let none_left : capacity - length queue ≡ 0 = omega arith in
      rw none_left (sym (append-nil queue))

  pub take-end : queue ≡ queue ++ take (capacity - length queue) []
  take-end =
      sym (ap (λ (l : List A). queue ++ l) (take-nil (capacity - length queue)) ∙ append-nil queue)

-- To fill up what room there is, and then with more, is to fill it up with both.
pub take-resume :
    {A : Type 0} (capacity : ℕ) (queue xs ys : List A)
    → (queue ++ take (capacity - length queue) xs)
        ++ take (capacity - length (queue ++ take (capacity - length queue) xs)) ys
      ≡ queue ++ take (capacity - length queue) (xs ++ ys)
take-resume {A} capacity queue [] ys =
    ap (λ (l : List A). l ++ take (capacity - length l) ys) (sym (take-end capacity queue))
take-resume {A} capacity queue (x ∷ xs) ys = elim (Bool-cases (ltb (length queue) capacity)) [
  | inl room ↦
      ap (λ (l : List A). l ++ take (capacity - length l) ys)
        (sym (take-room capacity queue x xs (ltb→lt _ _ room)))
      ∙ take-resume capacity (queue ++ x ∷ []) xs ys
      ∙ take-room capacity queue x (xs ++ ys) (ltb→lt _ _ room)
  | inr full ↦
      ap (λ (l : List A). l ++ take (capacity - length l) ys)
        (sym (take-full capacity queue (x ∷ xs) (ground arith)))
      ∙ sym (take-full capacity queue ys (ground arith))
      ∙ take-full capacity queue (x ∷ (xs ++ ys)) (ground arith)
]
