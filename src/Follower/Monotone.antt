-- ===== src/Follower/Monotone.antt =====
-- Laws of `FollowerCore` in protocol/src/timeline.rs: what no event of a connection takes back.
use ethersync.Base.{
  ℕ, ◌+◌, ◌≤◌, ◌≡◌, refl, ap, ◌∙◌, ◌⊎◌, inl, inr, min, Bool, true, not, Option, some, [], ◌∷◌, leb,
  ◌==◌, ==_iff, if_elim, arith,
}
use ethersync.Base.Float.{Float, ◌≺◌, abs}
use ethersync.Timecode.Defs.{Position}
use ethersync.Wire.Messages.{Bytes}
use ethersync.Timeline.{Timeline, at}
use ethersync.Timeline.Schedule.{IsTimeline}
use ethersync.Clock.{leader_time, u64_max}
use ethersync.Follower.View.{Reading}
use ethersync.Follower.Core.{
  Correction, FollowerCore, eq_bytes, apart, count_large, start_slew, correct, remap,
}

pub eq_bytes→≡ : (xs ys : Bytes) → eq_bytes xs ys ≡ true → xs ≡ ys
unfolding eq_bytes
eq_bytes→≡ [] [] h = refl
eq_bytes→≡ [] (y ∷ ys) h = cc
eq_bytes→≡ (x ∷ xs) [] h = cc
eq_bytes→≡ (x ∷ xs) (y ∷ ys) h =
    let same = (==_iff x y).0 (ground arith) in let rest = eq_bytes→≡ xs ys (ground arith) in cc

pub eq_bytes_self : (xs : Bytes) → eq_bytes xs xs ≡ true
unfolding eq_bytes
eq_bytes_self [] = refl
eq_bytes_self (x ∷ xs) = let ih = eq_bytes_self xs in ground arith

module _ {F : Type 0} ⦃fl : Float F⦄ where
  -- `d` comes after `c` in one connection: the session stays, and the revision, the discontinuity
  -- and the count of hard realignments do not go back.
  pub record Onward (c d : FollowerCore F) : Type 0 where
    pub valid : IsTimeline d.view.timeline
    pub session_kept : d.view.timeline.session ≡ c.view.timeline.session
    pub expected_kept : d.expected_session ≡ c.expected_session
    pub revision_on : c.view.timeline.revision ≤ d.view.timeline.revision
    pub discontinuity_on : c.view.timeline.discontinuity ≤ d.view.timeline.discontinuity
    pub generation_on : c.view.resync_generation ≤ d.view.resync_generation
    pub generation_fits : d.view.resync_generation ≤ u64_max

  -- The follower plays a valid timeline of the session that its connection is bound to.
  pub record IsBound (c : FollowerCore F) : Type 0 where
    pub valid : IsTimeline c.view.timeline
    pub bound : c.expected_session ≡ some c.view.timeline.session
    pub generation_fits : c.view.resync_generation ≤ u64_max

  pub quiet :
      (c d : FollowerCore F)
      → IsTimeline c.view.timeline
      → d.view.timeline ≡ c.view.timeline
      → d.expected_session ≡ c.expected_session
      → c.view.resync_generation ≤ u64_max
      → (d.view.resync_generation ≡ c.view.resync_generation)
        ⊎ (d.view.resync_generation ≡ min u64_max (c.view.resync_generation + 1))
      → Onward c d
  quiet c d v e x b g = record {
    valid = rw e v;
    session_kept = ap (λ (t : Timeline). t.session) e;
    expected_kept = x;
    revision_on = omega (arith, ap (λ (t : Timeline). t.revision) e);
    discontinuity_on = omega (arith, ap (λ (t : Timeline). t.discontinuity) e);
    generation_on = omega (arith, g, b);
    generation_fits = omega (arith, g, b);
  }

  pub Onward-trans : (c d e : FollowerCore F) → Onward c d → Onward d e → Onward c e
  Onward-trans c d e h k = record {
    valid = k.valid;
    session_kept = k.session_kept ∙ h.session_kept;
    expected_kept = k.expected_kept ∙ h.expected_kept;
    revision_on = omega (arith, h.revision_on, k.revision_on);
    discontinuity_on = omega (arith, h.discontinuity_on, k.discontinuity_on);
    generation_on = omega (arith, h.generation_on, k.generation_on);
    generation_fits = k.generation_fits;
  }

  pub correct-Onward :
      (c : FollowerCore F) (before : Position) (now : ℕ) (measurement : Bool)
      → IsTimeline c.view.timeline
      → c.view.resync_generation ≤ u64_max
      → Onward c (correct c before now measurement).1
  unfolding correct start_slew
  correct-Onward c before now m v b =
      let P : Option (Correction F) × FollowerCore F → Type 0 = λ r. Onward c r.1 in
      let error = apart before (at c.view.timeline (leader_time c.view.mapping now)).0 in
      if_elim P (c.policy.hard_threshold_frames ≺ abs error)
        (λ _.
          if_elim P (leb c.policy.confirmations (count_large c error m).0)
            (λ _. quiet c _ v refl refl b (inr refl)) (λ _. quiet c _ v refl refl b (inl refl)))
        (λ _. quiet c _ v refl refl b (inl refl))

  pub remap-Onward :
      (c : FollowerCore F) (before : Reading F) (now : ℕ) (acquired : Bool)
      → IsTimeline c.view.timeline
      → c.view.resync_generation ≤ u64_max
      → Onward c (remap c before now acquired).1
  unfolding remap
  remap-Onward c before now acquired v b =
      let P : Option (Correction F) × FollowerCore F → Type 0 = λ r. Onward c r.1 in
      let disc = (at c.view.timeline (leader_time c.view.mapping now)).2 in
      if_elim P (not acquired) (λ _. quiet c _ v refl refl b (inr refl))
        (λ _.
          if_elim P (not (disc == before.discontinuity)) (λ _. quiet c _ v refl refl b (inl refl))
            (λ _. correct-Onward c before.position now true v b))
