-- ===== src/Browser/Calls.antt =====
-- clients/wasm/src/lib.rs: what every call of the page keeps of its follower.
use ethersync.Base.{ℕ, ◌≡◌, refl, Option, none, some, List, [], ◌∷◌, ltb, if_elim, Result, ok, err}
use ethersync.Base.Float.{Float}
use ethersync.Timecode.Defs.{Error}
use ethersync.Wire.Messages.{Bytes, Snapshot, Probe}
use ethersync.Wire.Validate.{Codec}
use ethersync.Timeline.Defs.{Timeline}
use ethersync.Timeline.Schedule.{IsTimeline}
use ethersync.Clock.Defs.{Exchange}
use ethersync.Clock.Probes.{Probes, reply}
use ethersync.Follower.View.{presentation_time}
use ethersync.Follower.Sound.{
  IsSound, connect-IsSound, disconnect-IsSound, state-IsSound, measurement_timed-IsSound,
  tick-IsSound,
}
use ethersync.FollowerJob.Receive.{parse}
use ethersync.FollowerJob.Invariant.{DecodesInRange, parse-IsTimeline}
use ethersync.Browser.{
  Browser, BrowserError, at_time, timestamp, connecting, connected, disconnected, take_state,
  snapshot, probe, probe_published, take_exchange, reply_timed, shown, read_for_presentation,
}

-- What a page may call, in any order.
pub data Call (F : Type 0) : Type 0 where
  to_connecting to_connected to_disconnected : Call F
  with_snapshot : Bytes → F → Call F
  with_probe with_published : F → Call F
  with_reply : Bytes → F → F → Call F
  with_read : F → F → Call F

module _ {F : Type 0} ⦃fl : Float F⦄ where
  abbrev Sound : {X : Type 0} → Result BrowserError X × Browser F → Type 0
  Sound r = IsSound r.1.core

  at_time-Sound :
      {X : Type 0} (b : Browser F) (time : Result BrowserError ℕ)
      (next : ℕ → Result BrowserError X × Browser F)
      → IsSound b.core
      → ((t : ℕ) → Sound (next t))
      → Sound (at_time b time next)
  at_time-Sound b (err e) next h more = h
  at_time-Sound b (ok t) next h more = more t

  take_state-Sound :
      (b : Browser F) (r : Result Error Timeline) (now : ℕ)
      → IsSound b.core
      → ((t : Timeline) → r ≡ ok t → IsTimeline t)
      → Sound (take_state b r now)
  unfolding take_state
  take_state-Sound b (err e) now h v = h
  take_state-Sound b (ok t) now h v = state-IsSound b.core t now h (v t refl)

  take_exchange-Sound :
      (b : Browser F) (r : Result Error (Option Exchange) × Probes) (processed : ℕ)
      → IsSound b.core
      → Sound (take_exchange b r processed)
  unfolding take_exchange
  take_exchange-Sound b (err e, probes) processed h = h
  take_exchange-Sound b (ok none, probes) processed h = h
  take_exchange-Sound b (ok (some x), probes) processed h =
      measurement_timed-IsSound b.core x probes.last_publication processed h

  shown-Sound :
      (b : Browser F) (r : Result Error ℕ) (now delay : ℕ)
      → IsSound b.core
      → Sound (shown b r now delay)
  unfolding shown
  shown-Sound b (err e) now delay h = h
  shown-Sound b (ok presented) now delay h = tick-IsSound b.core now 2_000_000_000 h

  abbrev pub call : Codec Snapshot → Codec Probe → Browser F → Call F → Browser F
  call cs cp b to_connecting = connecting b
  call cs cp b to_connected = connected b
  call cs cp b to_disconnected = disconnected b
  call cs cp b (with_snapshot bytes now) = (snapshot cs b bytes now).1
  call cs cp b (with_probe now) = (probe cp b now).1
  call cs cp b (with_published now) = (probe_published b now).1
  call cs cp b (with_reply bytes received processed) = (reply_timed cp b bytes received processed).1
  call cs cp b (with_read now delay) = (read_for_presentation b now delay).1

  -- One call.
  call-IsSound :
      (cs : Codec Snapshot) (cp : Codec Probe) (b : Browser F) (c : Call F)
      → DecodesInRange cs
      → IsSound b.core
      → IsSound (call cs cp b c).core
  unfolding connecting connected disconnected snapshot probe probe_published reply_timed
      read_for_presentation
  call-IsSound cs cp b to_connecting range h = record { valid = h.valid; fits = h.fits }
  call-IsSound cs cp b to_connected range h = connect-IsSound b.core h
  call-IsSound cs cp b to_disconnected range h = disconnect-IsSound b.core h
  call-IsSound cs cp b (with_snapshot bytes now) range h =
      at_time-Sound b (timestamp now) (λ t. take_state b (parse cs bytes) t) h
        (λ t. take_state-Sound b (parse cs bytes) t h (λ u e. parse-IsTimeline cs bytes u range e))
  call-IsSound cs cp b (with_probe now) range h = at_time-Sound b (timestamp now) _ h (λ t. h)
  call-IsSound cs cp b (with_published now) range h = at_time-Sound b (timestamp now) _ h (λ t. h)
  call-IsSound cs cp b (with_reply bytes received processed) range h =
      at_time-Sound b (timestamp received) _ h (λ t. at_time-Sound b (timestamp processed) _ h (λ u.
        if_elim Sound (ltb u t) (λ _. h)
          (λ _. take_exchange-Sound b (reply cp b.probes bytes t) u h)))
  call-IsSound cs cp b (with_read now delay) range h = at_time-Sound b (timestamp now) _ h (λ t.
      at_time-Sound b (timestamp delay) _ h (λ d. shown-Sound b (presentation_time t d) t d h))

  abbrev pub run_calls : Codec Snapshot → Codec Probe → Browser F → List (Call F) → Browser F
  run_calls cs cp b [] = b
  run_calls cs cp b (c ∷ calls) = run_calls cs cp (call cs cp b c) calls

  -- Whatever a page calls, in any order and with any bytes and times, where decoded snapshots are in
  -- the range of their fields, a follower with a valid timeline and a count of hard realignments
  -- that fits 64 bits keeps both.
  pub run_calls-IsSound :
      (cs : Codec Snapshot) (cp : Codec Probe) (b : Browser F) (calls : List (Call F))
      → DecodesInRange cs
      → IsSound b.core
      → IsSound (run_calls cs cp b calls).core
  run_calls-IsSound cs cp b [] range h = h
  run_calls-IsSound cs cp b (c ∷ calls) range h =
      run_calls-IsSound cs cp (call cs cp b c) calls range (call-IsSound cs cp b c range h)
