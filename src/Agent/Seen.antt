-- ===== src/Agent/Seen.antt =====
-- src/main.cpp: `SeenCommands`, the bounded history that makes a redelivery harmless.
use haiku_mgmt_agent.Prelude.{
  ℕ, suc, ◌≤◌, ◌<◌, ◌≡◌, refl, sym, subst, arith, inl, inr, Bool, true, false, ◌||◌, List, [], ◌∷◌,
  ◌++◌, ltb, if◌then◌else◌, length, length-append, Bool-cases, le→ltb,
}
use haiku_mgmt_agent.Prelude.Text.{Bytes, bytes_eq, bytes_eq_iff, contains}

abbrev pub dedup_history : ℕ
dedup_history = 512

-- `set_` as the list of its elements, and `order_`, oldest first.
pub record SeenCommands : Type 0 where
  pub set : List Bytes
  pub order : List Bytes

unfoldable pub none_seen : SeenCommands
none_seen = record { set = []; order = [] }

unfoldable pub seen : SeenCommands → Bytes → Bool
seen s id = contains s.set id

-- `set_.erase(id)`
unfoldable pub set_erase : Bytes → List Bytes → List Bytes
set_erase id [] = []
set_erase id (x ∷ xs) = let rest = set_erase id xs in if bytes_eq x id then rest else x ∷ rest

-- `set_.erase(order_.front()); order_.pop_front();` where the history is over its bound.
unfoldable pub evict : List Bytes → List Bytes → SeenCommands
evict set [] = record { set = set; order = [] }
evict set (front ∷ order) =
    if ltb dedup_history (length (front ∷ order))
    then record { set = set_erase front set; order = order }
    else record { set = set; order = front ∷ order }

unfoldable pub add : SeenCommands → Bytes → SeenCommands
add s id = if contains s.set id then s else evict (id ∷ s.set) (s.order ++ (id ∷ []))

-- No id stands twice in the list.
abbrev pub Distinct : List Bytes → Type 0
Distinct [] = Unit
Distinct (x ∷ xs) = (contains xs x ≡ false) × Distinct xs

-- The set and the queue have the same elements, none of them twice, and at most 512.
pub record IsValid (s : SeenCommands) : Type 0 where
  pub same : (id : Bytes) → contains s.set id ≡ contains s.order id
  pub distinct : Distinct s.order
  pub bounded : length s.order ≤ dedup_history

pub contains-append :
    (xs ys : List Bytes) (id : Bytes) → contains (xs ++ ys) id ≡ (contains xs id || contains ys id)
unfolding contains
contains-append [] ys id = refl
contains-append (x ∷ xs) ys id = ground (arith, contains-append xs ys id)

contains-set_erase :
    (id y : Bytes) (xs : List Bytes)
    → contains (set_erase id xs) y ≡ (if bytes_eq id y then false else contains xs y)
unfolding contains set_erase
contains-set_erase id y [] = ground arith
contains-set_erase id y (x ∷ xs) =
    ground
      (arith, contains-set_erase id y xs, bytes_eq_iff x id, bytes_eq_iff id y, bytes_eq_iff x y)

Distinct-snoc :
    (xs : List Bytes) (id : Bytes)
    → Distinct xs
    → contains xs id ≡ false
    → Distinct (xs ++ (id ∷ []))
unfolding contains
Distinct-snoc [] id h k = (refl, tt)
Distinct-snoc (x ∷ xs) id h k = (
  ground (arith, contains-append xs (id ∷ []) x, h.0, bytes_eq_iff x id, bytes_eq_iff id x),
  Distinct-snoc xs id h.1 (ground (arith, k)),
)

-- The state before the eviction: valid but for the bound, which may be passed by one.
evict-IsValid :
    (set order : List Bytes)
    → ((id : Bytes) → contains set id ≡ contains order id)
    → Distinct order
    → length order ≤ suc dedup_history
    → IsValid (evict set order)
unfolding evict contains
evict-IsValid set [] same h k = record { same = same; distinct = h; bounded = omega arith }
evict-IsValid set (front ∷ order) same h k =
    elim (Bool-cases (ltb dedup_history (length (front ∷ order)))) [
      | inl e ↦ rw e (record { same = λ y. front_gone y; distinct = h.1; bounded = omega arith })
      | inr e ↦ rw e (record { same = same; distinct = h; bounded = ground (arith, e) })
    ]
  where
    front_gone : (y : Bytes) → contains (set_erase front set) y ≡ contains order y
    front_gone y = ground (arith, contains-set_erase front y set, same y, h.0, bytes_eq_iff front y)

-- A valid history stays valid when an id is added: the set and the queue keep the same elements, none
-- stands twice in the queue, and there are never more than 512.
pub add-IsValid : (s : SeenCommands) (id : Bytes) → IsValid s → IsValid (add s id)
unfolding add contains
add-IsValid s id h = elim (Bool-cases (contains s.set id)) [
  | inl e ↦ rw e h
  | inr e ↦ rw e (
      evict-IsValid (id ∷ s.set) (s.order ++ (id ∷ [])) (λ y. grown y)
        (Distinct-snoc s.order id h.distinct (ground (arith, e, h.same id)))
        (omega (arith, h.bounded, length-append s.order (id ∷ []))))
]
  where
    grown : (y : Bytes) → contains (id ∷ s.set) y ≡ contains (s.order ++ (id ∷ [])) y
    grown y = ground (arith, contains-append s.order (id ∷ []) y, h.same y)

evict_room :
    (set order : List Bytes)
    → length order ≤ dedup_history
    → evict set order ≡ record { set = set; order = order }
unfolding evict
evict_room set [] h = refl
evict_room set (front ∷ order) h = rw (le→ltb dedup_history (length (front ∷ order)) h) refl

-- With room in the history an id that is added is found, and what was found before still is.
pub seen-add :
    (s : SeenCommands) (id y : Bytes)
    → length s.order < dedup_history
    → seen (add s id) y ≡ (bytes_eq id y || seen s y)
unfolding add seen contains
seen-add s id y room = elim (Bool-cases (contains s.set id)) [
  | inl e ↦ rw e (ground (arith, e, bytes_eq_iff id y))
  | inr e ↦
      rw
        (
          e,
          evict_room (id ∷ s.set) (s.order ++ (id ∷ []))
              (omega (arith, length-append s.order (id ∷ []))),
        )
        refl
]

pub length-add :
    (s : SeenCommands) (id : Bytes)
    → length s.order < dedup_history
    → length (add s id).order ≤ suc (length s.order)
unfolding add
length-add s id room = elim (Bool-cases (contains s.set id)) [
  | inl e ↦ rw e (omega arith)
  | inr e ↦
      rw
        (
          e,
          evict_room (id ∷ s.set) (s.order ++ (id ∷ []))
              (omega (arith, length-append s.order (id ∷ []))),
        )
        (omega (arith, length-append s.order (id ∷ [])))
]

length-evict :
    (set order : List Bytes)
    → length order ≤ suc dedup_history
    → length order ≤ suc (length (evict set order).order)
      × (length order ≤ dedup_history → length (evict set order).order ≡ length order)
unfolding evict
length-evict set [] h = (omega arith, λ k. refl)
length-evict set (front ∷ order) h = (ground arith, λ k. ground arith)

-- A history that has room after an id was added had room before.
pub room_before :
    (s : SeenCommands) (id : Bytes)
    → IsValid s
    → length (add s id).order < dedup_history
    → length s.order < dedup_history
unfolding add
room_before s id h room = elim (Bool-cases (contains s.set id)) [
  | inl e ↦ before_seen e
  | inr e ↦ before_new e
]
  where
    before_seen : contains s.set id ≡ true → length s.order < dedup_history
    before_seen e =
        subst
          (λ b.
            length (if b then s else evict (id ∷ s.set) (s.order ++ (id ∷ []))).order
              < dedup_history
            → length s.order < dedup_history)
          (sym e) (λ r. r) room

    before_new : contains s.set id ≡ false → length s.order < dedup_history
    before_new e =
        subst
          (λ b.
            length (if b then s else evict (id ∷ s.set) (s.order ++ (id ∷ []))).order
              < dedup_history
            → length s.order < dedup_history)
          (sym e)
          (λ r. ground (
            arith,
            length-evict (id ∷ s.set) (s.order ++ (id ∷ [])),
            length-append s.order (id ∷ []),
            h.bounded,
          ))
          room
