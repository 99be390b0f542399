-- ===== src/Boundary/Deadlines.antt =====
-- What `View::next_boundary` of protocol/src/boundary.rs returns.
use ethersync.Base.{
  ℕ, ◌+◌, ◌≤◌, ◌<◌, ◌≡◌, ◌⊎◌, refl, inl, inr, Bool, true, false, ◌||◌, leb, if◌then◌else◌, ◌/◌, ◌%◌,
  ◌-◌, ◌==◌, Option, none, some, ltb, if_elim, Bool-cases, arith,
}
use ethersync.Base.Int.{ℤ, pos, negsuc, eqb_ℤ, leb_ℤ, ◌+ℤ◌, ◌-ℤ◌, ◌*ℤ◌, ◌<ℤ◌, ◌≤ℤ◌}
use ethersync.Base.Float.{Float}
use ethersync.Timecode.Motion.{unit, fixed, from_fixed}
use ethersync.Timeline.Defs.{Scheduled, pending}
use ethersync.Wire.Validate.{i64_max}
use ethersync.Clock.Defs.{leader_time}
use ethersync.Follower.View.{View, evaluate, is_uninitialized}
use ethersync.Boundary.{IsStep, first_lem}
use ethersync.Boundary.Next.{
  Boundary, BoundaryKind, upcoming, is_due, has_crossed, change_time, forward, target_of,
  next_whole, frame_end, frame_time, boundary_at, choose_boundary, next_boundary,
}

-- The first whole position strictly ahead, in the direction of motion: at most a frame away.
abbrev pub IsNextWhole : ℤ → Bool → ℤ → Type 0
IsNextWhole at true target =
    ((k : ℤ) × (target ≡ k *ℤ pos unit)) × (at <ℤ target) × (target ≤ℤ (at +ℤ pos unit))
IsNextWhole at false target =
    ((k : ℤ) × (target ≡ k *ℤ pos unit)) × (target <ℤ at) × (at ≤ℤ (target +ℤ pos unit))

next_whole-IsNextWhole : (at : ℤ) (forward : Bool) → IsNextWhole at forward (next_whole at forward)
unfolding next_whole ◌+ℤ◌ ◌-ℤ◌ ◌*ℤ◌
next_whole-IsNextWhole (pos n) true = ((pos (n / unit) +ℤ pos 1, refl), ground arith, ground arith)
next_whole-IsNextWhole (negsuc n) true =
    ((negsuc (n / unit) +ℤ pos 1, refl), ground arith, ground arith)
next_whole-IsNextWhole (pos n) false =
    let back : ℤ = if n % unit == 0 then pos 1 else pos 0 in
    ((pos (n / unit) -ℤ back, refl), ground arith, ground arith)
next_whole-IsNextWhole (negsuc n) false =
    let back : ℤ = if unit - 1 - n % unit == 0 then pos 1 else pos 0 in
    ((negsuc (n / unit) -ℤ back, refl), ground arith, ground arith)

module _ {F : Type 0} ⦃fl : Float F⦄ where
  abbrev pub next_change : View F → ℕ → Option Scheduled
  next_change v local = upcoming (pending v.timeline) (leader_time v.mapping local)

  abbrev pub change_after : View F → ℕ → Option ℕ
  change_after v local = change_time v (next_change v local) (local + 1)

  -- Whether what is shown at a time has reached the target, in the direction of motion.
  abbrev pub crossing : View F → ℕ → ℕ → Bool
  crossing v local t =
      let at = fixed (evaluate v t).position in
      let target = target_of (evaluate v local) in
      if forward (evaluate v local) then leb_ℤ target at else leb_ℤ at target

  -- Whether a change is due at a time, by the leader's clock.
  abbrev pub in_effect : View F → Scheduled → ℕ → Bool
  in_effect v s t = leb s.anchor.time_ns (leader_time v.mapping t)

  -- Nothing moves, or the next whole position is not reached before the next change.
  abbrev pub NoFrame : View F → ℕ → Type 0
  NoFrame v local =
      (eqb_ℤ (evaluate v local).rate.numerator (pos 0) ≡ true)
      ⊎ ((frame_end (change_after v local) < local + 1)
          ⊎ (crossing v local (frame_end (change_after v local)) ≡ false))

  -- The first time after `local` at which the next whole position is reached, before any change.
  pub record FrameDeadline (v : View F) (local : ℕ) (b : Boundary F) : Type 0 where
    pub kind : b.kind ≡ BoundaryKind.frame
    pub position : b.position ≡ from_fixed (target_of (evaluate v local))
    pub target :
        IsNextWhole
          (fixed (evaluate v local).position)
          (forward (evaluate v local))
          (target_of (evaluate v local))
    pub step :
        IsStep (crossing v local) (local + 1) (frame_end (change_after v local)) b.local_deadline_ns

  -- The first time after `local` at which the next scheduled change is due, with no frame before.
  pub record ChangeDeadline (v : View F) (local : ℕ) (b : Boundary F) : Type 0 where
    pub kind : b.kind ≡ BoundaryKind.scheduled_change
    pub position : b.position ≡ (evaluate v b.local_deadline_ns).position
    pub change : Scheduled
    pub is_next : next_change v local ≡ some change
    pub step : IsStep (in_effect v change) (local + 1) i64_max b.local_deadline_ns
    pub no_frame : NoFrame v local

  pub record IsDeadline (v : View F) (local : ℕ) (b : Boundary F) : Type 0 where
    pub future : local < b.local_deadline_ns
    pub in_range : b.local_deadline_ns ≤ i64_max
    pub discontinuity : b.discontinuity ≡ (evaluate v b.local_deadline_ns).discontinuity
    pub reached : FrameDeadline v local b ⊎ ChangeDeadline v local b

  -- No change is due within the range of the clock.
  abbrev pub NoChange : View F → ℕ → Type 0
  NoChange v local =
      (next_change v local ≡ none)
      ⊎ ((s : Scheduled) × (next_change v local ≡ some s)
          × ((i64_max < local + 1) ⊎ (in_effect v s i64_max ≡ false)))

  -- What the search for the change found.
  ChangeFound : View F → ℕ → Option ℕ → Type 0
  ChangeFound v local none = NoChange v local
  ChangeFound v local (some t) =
      (s : Scheduled) × (next_change v local ≡ some s)
      × IsStep (in_effect v s) (local + 1) i64_max t

  change_found : (v : View F) (local : ℕ) → ChangeFound v local (change_after v local)
  unfolding change_time is_due ChangeFound
  change_found v local = go (next_change v local) refl
    where
      go :
          (o : Option Scheduled)
          → next_change v local ≡ o
          → ChangeFound v local (change_time v o (local + 1))
      go none e = inl e
      go (some s) e = elim (first_lem (local + 1) i64_max (in_effect v s) (omega arith)) [
        | inl (gone, why) ↦ rw gone (inr (s, e, why))
        | inr (_, (t, found, step)) ↦ rw found (s, e, step)
      ]

  frame_end-le : (v : View F) (local : ℕ) → frame_end (change_after v local) ≤ i64_max
  unfolding ChangeFound
  frame_end-le v local = go (change_after v local) (change_found v local)
    where
      go : (c : Option ℕ) → ChangeFound v local c → frame_end c ≤ i64_max
      go none h = omega arith
      go (some t) (s, e, step) = omega (arith, step.to_hi)

  -- What the search for the frame found.
  FrameFound : View F → ℕ → Option ℕ → Type 0
  FrameFound v local none = NoFrame v local
  FrameFound v local (some t) =
      IsStep (crossing v local) (local + 1) (frame_end (change_after v local)) t

  frame_found :
      (v : View F) (local : ℕ)
      → FrameFound v local (frame_time v (evaluate v local) (local + 1) (change_after v local))
  unfolding frame_time has_crossed FrameFound
  frame_found v local =
      let end = frame_end (change_after v local) in
      if_elim (FrameFound v local) (eqb_ℤ (evaluate v local).rate.numerator (pos 0))
        (λ paused. inl paused)
        (λ moving.
          let bound = frame_end-le v local in
          elim (first_lem (local + 1) end (crossing v local) (omega arith)) [
            | inl (gone, why) ↦ rw gone (inr why)
            | inr (_, (t, found, step)) ↦ rw found step
          ])

  -- What `next_boundary` decides between.
  abbrev pub Decided : View F → ℕ → Option (Boundary F) → Type 0
  Decided v local o =
      ((o ≡ none) × NoFrame v local × NoChange v local)
      ⊎ ((b : Boundary F) × (o ≡ some b) × IsDeadline v local b)

  choose_boundary-Decided :
      (v : View F) (local : ℕ) (f c : Option ℕ)
      → c ≡ change_after v local
      → FrameFound v local f
      → ChangeFound v local c
      → Decided v local (choose_boundary v (evaluate v local) f c)
  unfolding choose_boundary boundary_at FrameFound ChangeFound
  choose_boundary-Decided v local none none e hf hc = inl (refl, hf, hc)
  choose_boundary-Decided v local (some t) c e hf hc = inr (
    _,
    refl,
    record {
      future = omega (arith, hf.from_lo);
      in_range = omega (arith, hf.to_hi, frame_end-le v local);
      discontinuity = refl;
      reached = inl (record {
        kind = refl;
        position = refl;
        target =
            next_whole-IsNextWhole (fixed (evaluate v local).position) (forward (evaluate v local));
        step = hf;
      });
    },
  )
  choose_boundary-Decided v local none (some t) e hf (s, is_next, step) = inr (
    _,
    refl,
    record {
      future = omega (arith, step.from_lo);
      in_range = step.to_hi;
      discontinuity = refl;
      reached = inr (record {
        kind = refl;
        position = refl;
        change = s;
        is_next = is_next;
        step = step;
        no_frame = hf;
      });
    },
  )

  -- At a time within the clock's range, on a view that is synchronized to some source, a boundary is
  -- a later time in that range: the first at which the next whole position strictly ahead in the
  -- direction of motion is reached before any scheduled change, or else the first at which the next
  -- change is due; and there is none only where neither comes. Outside that there is no boundary. "First"
  -- means that what is looked for holds at that time and not one nanosecond before, or that the
  -- search starts at that time.
  pub next_boundary_lem :
      (v : View F) (local : ℕ)
      → ((next_boundary v local ≡ none)
          × ((i64_max < local + 1)
              ⊎ (is_uninitialized (evaluate v local).status.synchronization ≡ true)))
        ⊎ ((local + 1 ≤ i64_max)
            × (is_uninitialized (evaluate v local).status.synchronization ≡ false)
            × Decided v local (next_boundary v local))
  unfolding next_boundary
  next_boundary_lem v local =
      let r = evaluate v local in
      let out = is_uninitialized r.status.synchronization in
      elim (Bool-cases (ltb i64_max (local + 1) || out)) [
        | inl none_at_all ↦ inl (rw none_at_all refl, ground arith)
        | inr good ↦ inr (
          ground arith,
          ground arith,
          rw good (
              choose_boundary-Decided v local (frame_time v r (local + 1) (change_after v local))
                (change_after v local) refl (frame_found v local) (change_found v local)),
        )
      ]
