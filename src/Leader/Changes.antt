-- ===== src/Leader/Changes.antt =====
-- native/src/network.rs: `change_timeline`, with `Change` of native/src/api.rs. The timeline that the
-- code changes in place comes back with the result.
use ethersync.Base.{
  ℕ, ◌+◌, ◌-◌, ◌%◌, ◌^◌, max, Bool, ◌&&◌, ◌||◌, Option, none, some, List, [], ◌∷◌, ltb, leb, ◌==◌,
  if◌then◌else◌, get_or, Result, ok, err,
}
use ethersync.Base.Lists
use ethersync.Native.{NativeError}
use ethersync.Timecode.Defs.{Position}
use ethersync.Timecode.Motion.{Rate}
use ethersync.Wire.Validate.{i64_max}
use ethersync.Timeline.Defs.{Anchor, Scheduled, default_scheduled, Timeline, pending, at}

pub data Change : Type 0 where
  rate : Rate → Change
  seek : Position → Change
  set : Position → Rate → Change

-- `effective.unwrap_or(now)`
abbrev pub effective_time : Option ℕ → ℕ → ℕ
effective_time none now = now
effective_time (some time) now = time

-- The discontinuity of the last change that is pending, or 0.
abbrev pub last_reserved : List Scheduled → ℕ
last_reserved [] = 0
last_reserved (s ∷ []) = s.discontinuity
last_reserved (s ∷ r ∷ ss) = last_reserved (r ∷ ss)

-- The schedule is full, or its last change does not come before the given time.
unfoldable pub is_blocked : Timeline → ℕ → Bool
is_blocked t time =
    (t.scheduled_len == 4)
    || (ltb 0 t.scheduled_len
        && leb time (get_or t.scheduled (t.scheduled_len - 1) default_scheduled).anchor.time_ns)

-- `match change`
unfoldable pub controlled : Change → Position → Rate → Position × Rate
controlled (Change.rate r) position old = (position, r)
controlled (Change.seek p) position old = (p, old)
controlled (Change.set p r) position old = (p, r)

-- The addition wraps at 64 bits.
unfoldable pub next_discontinuity : Timeline → ℕ → ℕ
next_discontinuity t disc =
    (max (max t.discontinuity disc) (last_reserved (pending t)) + 1) % 2 ^ 64

-- The anchor of a change at its time, from what the timeline plays there.
unfoldable pub new_anchor : Timeline → Change → ℕ → Anchor
unfolding controlled at
new_anchor t change time =
    let (position, old, disc) = at t time in
    let (p, r) = controlled change position old in record { time_ns = time; position = p; rate = r }

unfoldable pub append_change : Timeline → Scheduled → Timeline
append_change t s = record t {
  scheduled = Lists.set t.scheduled t.scheduled_len s;
  scheduled_len = t.scheduled_len + 1;
}

unfoldable pub apply_change : Timeline → Scheduled → Timeline
apply_change t s = record t {
  anchor = s.anchor;
  discontinuity = s.discontinuity;
  scheduled_len = 0;
}

unfoldable pub change_timeline :
    Timeline → Change → Option ℕ → ℕ → Result NativeError (Unit {0}) × Timeline
unfolding is_blocked new_anchor next_discontinuity append_change apply_change
change_timeline t change effective now =
    let time = effective_time effective now in
    let s : Scheduled = record {
      discontinuity = next_discontinuity t (at t time).2;
      anchor = new_anchor t change time;
    } in
    if ltb i64_max time
    then (err (NativeError.invalid "scheduled timestamp"), t)
    else if ltb now time && is_blocked t time
    then (err (NativeError.invalid "schedule full or non-increasing"), t)
    else if ltb now time
    then (ok tt, append_change t s)
    else (ok tt, apply_change t s)
