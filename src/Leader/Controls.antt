-- ===== src/Leader/Controls.antt =====
-- What `change_timeline` of native/src/network.rs does to a valid timeline.
use ethersync.Base.{
  ℕ, zero, suc, ◌+◌, ◌-◌, ◌^◌, ◌≤◌, ◌<◌, ◌≡◌, refl, sym, ap, ◌∙◌, ◌⊎◌, inl, inr, true, false, ◌&&◌,
  Option, [], ◌∷◌, ◌++◌, arith, get_or, length-set, ltb, ltb→lt, ltb_false→le, Result, ok, err,
  if_elim,
}
use ethersync.Native.{NativeError}
use ethersync.Wire.Validate.{i64_max}
use ethersync.Timeline.Defs.{
  Anchor, Scheduled, default_scheduled, Timeline, played, pending, base_segment, segment_at, at,
}
use ethersync.Timeline.Schedule.{IsAnchor, IsTimeline, segment_from-nil}
use ethersync.Leader.Changes.{
  Change, effective_time, is_blocked, next_discontinuity, new_anchor, append_change, apply_change,
  change_timeline,
}
use ethersync.Leader.Appends.{
  last_time, last_disc, take-set_end, last_time-take, last_disc-le, Ascending-append,
  last_reserved-append, segment_from_before, segment_from_after,
}
use ethersync.Leader.Anchors.{
  IsChange, highest, next_discontinuity-above, new_anchor-IsAnchor, new_anchor_time,
}

-- A schedule takes another change: it is not full, and what is in it comes before that time.
pub record HasRoom (t : Timeline) (time : ℕ) : Type 0 where
  pub not_full : t.scheduled_len < 4
  pub ends_before : t.anchor.time_ns < time → last_time t.anchor.time_ns (pending t) < time

is_blocked-HasRoom :
    (n : ℕ) (t : Timeline) (time : ℕ)
    → IsTimeline t
    → n ≡ t.scheduled_len
    → is_blocked t time ≡ false
    → HasRoom t time
unfolding is_blocked
is_blocked-HasRoom zero t time v e free = record {
  not_full = omega arith;
  ends_before = rw (sym e) (λ h. h);
}
is_blocked-HasRoom (suc n) t time v e free =
    let len = v.len_in in
    let slots = v.slots in
    let e' : t.scheduled_len - 1 ≡ n = omega arith in
    let f = rw e' at free in
    let last : (get_or t.scheduled n default_scheduled).anchor.time_ns < time = ground arith in
    record {
      not_full = ground arith;
      ends_before =
          λ _. rw (sym e, last_time-take t.anchor.time_ns t.scheduled n (omega arith)) last;
    }

-- What a change makes of `t`: what is played from its time on, and what before.
pub record Applied (t : Timeline) (change : Change) (time now : ℕ) (u : Timeline) : Type 0 where
  pub valid : IsTimeline u
  pub from_then :
      (x : ℕ)
      → time ≤ x
      → segment_at u x ≡ record { anchor = new_anchor t change time; discontinuity = highest t + 1 }
  pub until : now < time → (x : ℕ) → x < time → segment_at u x ≡ segment_at t x
  pub at_once : time ≤ now → u.scheduled_len ≡ 0
  pub newest : highest u ≡ highest t + 1

pending-append_change :
    (t : Timeline) (s : Scheduled)
    → IsTimeline t
    → t.scheduled_len < 4
    → pending (append_change t s) ≡ pending t ++ s ∷ []
unfolding append_change
pending-append_change t s v h = take-set_end t.scheduled t.scheduled_len s (omega (arith, v.slots))

append_change-Applied :
    (t : Timeline) (change : Change) (time now : ℕ) (s : Scheduled)
    → IsTimeline t
    → HasRoom t time
    → t.anchor.time_ns ≤ now
    → now < time
    → IsAnchor s.anchor
    → s ≡ record { discontinuity = highest t + 1; anchor = new_anchor t change time }
    → Applied t change time now (append_change t s)
unfolding segment_at
append_change-Applied t change time now s v room past later a e =
    let p = pending-append_change t s v room.not_full in
    let disc : s.discontinuity ≡ highest t + 1 = ap (λ (r : Scheduled). r.discontinuity) e in
    let anchor : s.anchor ≡ new_anchor t change time = ap (λ (r : Scheduled). r.anchor) e in
    let when : s.anchor.time_ns ≡ time =
      ap (λ (r : Anchor). r.time_ns) anchor ∙ new_anchor_time t change time in
    let ends : last_time t.anchor.time_ns (pending t) < s.anchor.time_ns =
      rw when (room.ends_before (omega arith)) in
    let above : last_disc t.discontinuity (pending t) < s.discontinuity =
      omega (arith, last_disc-le t.discontinuity (pending t)) in
    record {
      valid = record {
        session_in = unfold append_change in v.session_in;
        session_id_in = unfold append_change in v.session_id_in;
        format_in = unfold append_change in v.format_in;
        anchor_in = unfold append_change in v.anchor_in;
        slots = unfold append_change in length-set t.scheduled t.scheduled_len s ∙ v.slots;
        len_in = unfold append_change in omega (arith, room.not_full);
        ascending = rw p (
            unfold append_change in
            Ascending-append t.anchor.time_ns t.discontinuity (pending t) s v.ascending ends above
              a);
      };
      from_then = λ x h. rw p (
          unfold append_change in
          segment_from_after x (pending t) s (base_segment t) (omega arith) ∙ ap played e);
      until = λ _ x h. rw p (
          unfold append_change in
          segment_from_before x (pending t) s (base_segment t) (omega arith));
      at_once = λ h. absurd (omega arith);
      newest = rw p (unfold append_change in omega (arith, last_reserved-append (pending t) s));
    }

apply_change-Applied :
    (t : Timeline) (change : Change) (time now : ℕ) (s : Scheduled)
    → IsTimeline t
    → time ≤ now
    → IsAnchor s.anchor
    → s ≡ record { discontinuity = highest t + 1; anchor = new_anchor t change time }
    → Applied t change time now (apply_change t s)
unfolding apply_change segment_at
apply_change-Applied t change time now s v past a e = record {
  valid = record {
    session_in = v.session_in;
    session_id_in = v.session_id_in;
    format_in = v.format_in;
    anchor_in = a;
    slots = v.slots;
    len_in = omega arith;
    ascending = tt;
  };
  from_then = λ x h. segment_from-nil x (played s) ∙ ap played e;
  until = λ h. absurd (omega arith);
  at_once = λ _. refl;
  newest = omega (arith, ap (λ (r : Scheduled). r.discontinuity) e);
}

-- A refused change: why, and that nothing came of it.
pub record Refused (t : Timeline) (time now : ℕ) (r : Result NativeError (Unit {0}) × Timeline)
    : Type 0 where
  pub reason : NativeError
  pub result : r.0 ≡ err reason
  pub untouched : r.1 ≡ t
  pub cause : (i64_max < time) ⊎ ((now < time) × (is_blocked t time ≡ true))

-- A change at time `time` (now, where none is given) either is refused, because `time` is out of
-- range or lies ahead and the schedule is full or does not end before it, and then the timeline
-- stays as it was; or it succeeds. Then a valid timeline, whose anchor is not in the future and
-- whose next discontinuity fits 64 bits, becomes a valid one that plays the new anchor with a
-- discontinuity above all used or reserved from `time` on. A change that lies ahead leaves what is
-- played before it alone; any other cancels what is scheduled.
pub change_timeline_lem :
    (t : Timeline) (change : Change) (effective : Option ℕ) (now : ℕ)
    → IsTimeline t
    → IsChange change
    → t.anchor.time_ns ≤ now
    → highest t + 1 < 2 ^ 64
    → let time = effective_time effective now in
      let r = change_timeline t change effective now in
      Refused t time now r ⊎ ((r.0 ≡ ok tt) × Applied t change time now r.1)
unfolding change_timeline
change_timeline_lem t change effective now v c past fits =
    let time = effective_time effective now in
    let P : Result NativeError (Unit {0}) × Timeline → Type 0 =
      λ r. Refused t time now r ⊎ ((r.0 ≡ ok tt) × Applied t change time now r.1) in
    let s : Scheduled = record {
      discontinuity = next_discontinuity t (at t time).2;
      anchor = new_anchor t change time;
    } in
    let e : s ≡ record { discontinuity = highest t + 1; anchor = new_anchor t change time } =
      rw (next_discontinuity-above t time v fits) refl in
    if_elim P (ltb i64_max time)
      (λ h. inl (record {
        reason = NativeError.invalid "scheduled timestamp";
        result = refl;
        untouched = refl;
        cause = inl (ltb→lt i64_max time h);
      }))
      (λ small.
        let a = new_anchor-IsAnchor t change time v c (ltb_false→le i64_max time small) in
        if_elim P (ltb now time && is_blocked t time)
          (λ h. inl (record {
            reason = NativeError.invalid "schedule full or non-increasing";
            result = refl;
            untouched = refl;
            cause = inr (ground arith);
          }))
          (λ free.
            if_elim P (ltb now time)
              (λ later. inr (
                refl,
                append_change-Applied t change time now s v
                    (is_blocked-HasRoom t.scheduled_len t time v refl (ground arith)) past
                    (ltb→lt now time later) a e,
              ))
              (λ due. inr (
                refl,
                apply_change-Applied t change time now s v (ltb_false→le now time due) a e,
              ))))
