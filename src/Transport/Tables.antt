-- ===== src/Transport/Tables.antt =====
-- native/src/transport/quic.rs: the laws of the endpoint's table of connections and of its wakers.
use ethersync.Base.{
  ℕ, ◌≡◌, refl, true, none, some, List, [], ◌∷◌, ◌++◌, ◌==◌, arith, take, drop, take-append-drop,
  Bool-cases, ◌⊎◌, inl, inr, ==_iff, ◌≢◌,
}
use ethersync.Transport.Shared.{parked}
use ethersync.Transport.Quinn.{get, insert, remove, keys}
use ethersync.Transport.Visits.{rotate_left}

pub parked-append_left : (w : ℕ) (xs ys : List ℕ) → parked w xs ≡ true → parked w (xs ++ ys) ≡ true
unfolding parked
parked-append_left w [] ys h = cc
parked-append_left w (x ∷ xs) ys h = ground (arith, parked-append_left w xs ys)

pub parked-append_right : (w : ℕ) (xs ys : List ℕ) → parked w ys ≡ true → parked w (xs ++ ys) ≡ true
unfolding parked
parked-append_right w [] ys h = h
parked-append_right w (x ∷ xs) ys h = ground (arith, parked-append_right w xs ys)

parked-append-cases :
    (w : ℕ) (xs ys : List ℕ)
    → parked w (xs ++ ys) ≡ true
    → (parked w xs ≡ true) ⊎ (parked w ys ≡ true)
unfolding parked
parked-append-cases w [] ys h = inr h
parked-append-cases w (x ∷ xs) ys h = elim (Bool-cases (x == w)) [
  | inl e ↦ inl (rw e refl)
  | inr e ↦ elim (parked-append-cases w xs ys (rw e at h)) [ inl a ↦ inl (rw e a) | inr b ↦ inr b ]
]

-- A rotation loses no element.
pub parked-rotate_left :
    (w n : ℕ) (xs : List ℕ) → parked w xs ≡ true → parked w (rotate_left n xs) ≡ true
unfolding rotate_left
parked-rotate_left w n xs h =
    elim (parked-append-cases w (take n xs) (drop n xs) (rw (take-append-drop n xs) h)) [
      | inl a ↦ parked-append_right w (drop n xs) (take n xs) a
      | inr b ↦ parked-append_left w (drop n xs) (take n xs) b
    ]

module _ {V : Type 0} where
  pub parked-keys :
      (id : ℕ) (v : V) (es : List (ℕ × V)) → get id es ≡ some v → parked id (keys es) ≡ true
  unfolding get keys parked
  parked-keys id v [] h = cc
  parked-keys id v ((i, u) ∷ es) h = elim (Bool-cases (i == id)) [
    | inl e ↦ rw e refl
    | inr e ↦ rw e (parked-keys id v es (rw e at h))
  ]

  pub get-insert_self : (id : ℕ) (v : V) (es : List (ℕ × V)) → get id (insert id v es) ≡ some v
  unfolding get insert
  get-insert_self id v [] = rw ((==_iff id id).1 refl)
  get-insert_self id v ((i, u) ∷ es) = elim (Bool-cases (i == id)) [
    | inl e ↦ rw e (rw ((==_iff id id).1 refl))
    | inr e ↦ rw (e, e) (get-insert_self id v es)
  ]

  pub get-insert_ne :
      (id j : ℕ) (v : V) (es : List (ℕ × V)) → j ≢ id → get id (insert j v es) ≡ get id es
  unfolding get insert
  get-insert_ne id j v [] h = ground (arith, h)
  get-insert_ne id j v ((i, u) ∷ es) h = ground (arith, h, get-insert_ne id j v es)

  pub get-remove_self : (id : ℕ) (es : List (ℕ × V)) → get id (remove id es) ≡ none
  unfolding get remove
  get-remove_self id [] = refl
  get-remove_self id ((i, u) ∷ es) = elim (Bool-cases (i == id)) [
    | inl e ↦ rw e (get-remove_self id es)
    | inr e ↦ rw (e, e) (get-remove_self id es)
  ]

  pub get-remove_ne : (id j : ℕ) (es : List (ℕ × V)) → j ≢ id → get id (remove j es) ≡ get id es
  unfolding get remove
  get-remove_ne id j [] h = refl
  get-remove_ne id j ((i, u) ∷ es) h = ground (arith, h, get-remove_ne id j es)
