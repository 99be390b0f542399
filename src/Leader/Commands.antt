-- ===== src/Leader/Commands.antt =====
-- What the commands of native/src/network.rs do to a leader whose source is generated.
use ethersync.Base.{
  ℕ, ◌+◌, ◌^◌, ◌≤◌, ◌<◌, ◌≡◌, refl, ap, ◌∙◌, inl, inr, Bool, false, ◌&&◌, Option, none, some, arith,
  length, ltb, Result, if_elim, ltb_false→le,
}
use ethersync.Native.{NativeError}
use ethersync.Wire.Messages.{Bytes}
use ethersync.Wire.Validate.{i64_max}
use ethersync.Timeline.Defs.{Timeline, SourceKind}
use ethersync.Timeline.Schedule.{IsTimeline}
use ethersync.Follower.Monotone.{eq_bytes→≡}
use ethersync.Leader.Changes.{
  Change, effective_time, is_blocked, append_change, apply_change, change_timeline,
}
use ethersync.Leader.Controls.{change_timeline_lem}
use ethersync.Leader.Anchors.{IsChange, highest, new_anchor_time}
use ethersync.Leader.State.{
  Command, to_session_id, to_reader, to_change, to_sample, to_reconnect, is_ok, other_id,
}

-- What no change touches, and that no anchor lies ahead of the clock.
pub record Keeps (now : ℕ) (t u : Timeline) : Type 0 where
  pub kind_kept : u.source_kind ≡ t.source_kind
  pub revision_kept : u.revision ≡ t.revision
  pub past : t.anchor.time_ns ≤ now → u.anchor.time_ns ≤ now

pub change_timeline-Keeps :
    (t : Timeline) (change : Change) (effective : Option ℕ) (now : ℕ)
    → Keeps now t (change_timeline t change effective now).1
unfolding change_timeline append_change apply_change
change_timeline-Keeps t change effective now =
    let time = effective_time effective now in
    let P : Result NativeError (Unit {0}) × Timeline → Type 0 = λ r. Keeps now t r.1 in
    let same : Keeps now t t = record { kind_kept = refl; revision_kept = refl; past = λ h. h } in
    if_elim P (ltb i64_max time) (λ _. same)
      (λ _.
        if_elim P (ltb now time && is_blocked t time) (λ _. same)
          (λ _.
            if_elim P (ltb now time)
              (λ _. record { kind_kept = refl; revision_kept = refl; past = λ h. h })
              (λ due. record {
                kind_kept = refl;
                revision_kept = refl;
                past = λ _. omega (arith, new_anchor_time t change time, ltb_false→le now time due);
              })))

abbrev pub IsCommand : Command → Type 0
IsCommand (to_session_id id) = length id ≡ 16
IsCommand to_reader = Unit
IsCommand (to_change change effective) = IsChange change
IsCommand (to_sample s) = Unit
IsCommand to_reconnect = Unit

other_id_false→≡ : (old : Option Bytes) (id : Bytes) → other_id old id ≡ false → old ≡ some id
unfolding other_id
other_id_false→≡ none id h = cc
other_id_false→≡ (some old) id h = ap some (eq_bytes→≡ old id (ground arith))

-- A timeline of a generated source, valid, with its anchor not ahead of the clock.
pub record IsLed (now : ℕ) (t : Timeline) : Type 0 where
  pub valid : IsTimeline t
  pub generated_source : t.source_kind ≡ SourceKind.generated
  pub past : t.anchor.time_ns ≤ now

pub later-IsLed : (now later : ℕ) (t : Timeline) → now ≤ later → IsLed now t → IsLed later t
later-IsLed now later t h l = record {
  valid = l.valid;
  generated_source = l.generated_source;
  past = omega (arith, l.past);
}

-- From `t` to `u` with at most `n` new discontinuities; `asked` tells whether to publish.
pub record Led (now n : ℕ) (t u : Timeline) (asked : Bool) : Type 0 where
  pub led : IsLed now u
  pub grows : highest u ≤ highest t + n
  pub same_revision : u.revision ≡ t.revision
  pub unasked : asked ≡ false → u ≡ t

pub unchanged-Led : (now n : ℕ) (t : Timeline) (asked : Bool) → IsLed now t → Led now n t t asked
unchanged-Led now n t asked l = record {
  led = l;
  grows = omega arith;
  same_revision = refl;
  unasked = λ _. refl;
}

pub change-Led :
    (t : Timeline) (change : Change) (effective : Option ℕ) (now : ℕ)
    → IsLed now t
    → IsChange change
    → highest t + 1 < 2 ^ 64
    → let r = change_timeline t change effective now in Led now 1 t r.1 (is_ok r.0)
change-Led t change effective now l c fits =
    let r = change_timeline t change effective now in
    let k = change_timeline-Keeps t change effective now in
    elim (change_timeline_lem t change effective now l.valid c l.past fits) [
      | inl refused ↦ rw refused.untouched (unchanged-Led now 1 t (is_ok r.0) l)
      | inr (good, applied) ↦ record {
        led = record {
          valid = applied.valid;
          generated_source = k.kind_kept ∙ l.generated_source;
          past = k.past l.past;
        };
        grows = omega (arith, applied.newest);
        same_revision = k.revision_kept;
        unasked = λ h. absurd (let e = ap is_ok good in cc);
      }
    ]

pub set_id-Led :
    (t : Timeline) (id : Bytes) (now : ℕ)
    → IsLed now t
    → length id ≡ 16
    → Led now 1 t (record t { session_id = some id }) (other_id t.session_id id)
set_id-Led t id now l h = record {
  led = record {
    valid = record {
      session_in = l.valid.session_in;
      session_id_in = h;
      format_in = l.valid.format_in;
      anchor_in = l.valid.anchor_in;
      slots = l.valid.slots;
      len_in = l.valid.len_in;
      ascending = l.valid.ascending;
    };
    generated_source = l.generated_source;
    past = l.past;
  };
  grows = omega arith;
  same_revision = refl;
  unasked = λ same. let e = other_id_false→≡ t.session_id id same in cc;
}
