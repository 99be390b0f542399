-- ===== src/Boundary.antt =====
-- protocol/src/boundary.rs: the search for the first time at which a predicate holds.
pub mod Next
pub mod Deadlines
use ethersync.Base.{
  ℕ, zero, suc, ◌+◌, ◌-◌, ◌*◌, ◌/◌, ◌^◌, ◌≤◌, ◌<◌, ◌≡◌, ◌⊎◌, refl, inl, inr, ap, ◌∙◌, Bool, true,
  false, not, ◌||◌, Option, none, some, ltb, if◌then◌else◌, Bool-cases, arith,
}

-- The loop of `first`; a search over numbers below 2^64 takes at most 64 rounds.
unfoldable pub search : ℕ → ℕ → ℕ → (ℕ → Bool) → ℕ
search zero lo hi p = lo
search (suc n) lo hi p =
    let mid = lo + (hi - lo) / 2 in
    let met = p mid in
    let rest = search n (if met then lo else mid + 1) (if met then mid else hi) p in
    if ltb lo hi then rest else lo

unfoldable pub first : ℕ → ℕ → (ℕ → Bool) → Option ℕ
unfolding search
first lo hi p = if ltb hi lo || not (p hi) then none else some (search 64 lo hi p)

-- `t` is in the range, meets the predicate, and comes right after a time that does not, unless it
-- is where the range starts.
pub record IsStep (p : ℕ → Bool) (lo hi t : ℕ) : Type 0 where
  pub from_lo : lo ≤ t
  pub to_hi : t ≤ hi
  pub met : p t ≡ true
  pub unmet : (t ≡ lo) ⊎ (p (t - 1) ≡ false)

search-IsStep :
    (n lo hi : ℕ) (p : ℕ → Bool)
    → lo ≤ hi
    → hi - lo < 2 ^ n
    → p hi ≡ true
    → IsStep p lo hi (search n lo hi p)
unfolding search
search-IsStep zero lo hi p le w h =
    let same : lo ≡ hi = omega arith in
    record { from_lo = omega arith; to_hi = le; met = rw same h; unmet = inl refl }
search-IsStep (suc n) lo hi p le w h =
    let half : hi - lo < 2 * 2 ^ n = omega arith in
    let mid = lo + (hi - lo) / 2 in
    elim (Bool-cases (ltb lo hi)) [
      | inl more ↦ elim (Bool-cases (p mid)) [
        | inl met ↦
            let s = search-IsStep n lo mid p (omega arith) (omega arith) met in
            rw (more, met)
              (record {
                from_lo = s.from_lo;
                to_hi = omega (arith, s.to_hi, le);
                met = s.met;
                unmet = s.unmet;
              })
        | inr unmet ↦
            let below : lo < hi = ground arith in
            let above : mid + 1 ≤ hi = omega arith in
            let s = search-IsStep n (mid + 1) hi p above (omega arith) h in
            rw (more, unmet)
              (record {
                from_lo = omega (arith, s.from_lo);
                to_hi = s.to_hi;
                met = s.met;
                unmet = elim s.unmet [
                  | inl start ↦ inr (ap p (omega (arith, start)) ∙ unmet)
                  | inr before ↦ inr before
                ];
              })
      ]
      | inr done ↦
          let same : lo ≡ hi = ground arith in
          rw done (record { from_lo = omega arith; to_hi = le; met = rw same h; unmet = inl refl })
    ]

-- Over times within 64 bits, and whatever the predicate, the search returns nothing exactly where
-- the range is empty or the predicate fails at its end; else it returns a time in the range that
-- meets the predicate, and that either starts the range or comes right after a time that does not.
pub first_lem :
    (lo hi : ℕ) (p : ℕ → Bool)
    → hi < 2 ^ 64
    → ((first lo hi p ≡ none) × ((hi < lo) ⊎ (p hi ≡ false)))
      ⊎ ((p hi ≡ true) × ((t : ℕ) × (first lo hi p ≡ some t) × IsStep p lo hi t))
unfolding first
first_lem lo hi p bound = elim (Bool-cases (ltb hi lo)) [
  | inl empty ↦ inl (rw empty refl, inl (ground arith))
  | inr range ↦ elim (Bool-cases (p hi)) [
    | inl met ↦
        let le : lo ≤ hi = ground arith in
        inr (
          met,
          (search 64 lo hi p, rw (range, met) refl, search-IsStep 64 lo hi p le (omega arith) met),
        )
    | inr fails ↦ inl (rw (range, fails) refl, inr fails)
  ]
]
