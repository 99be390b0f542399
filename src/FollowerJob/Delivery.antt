-- ===== src/FollowerJob/Delivery.antt =====
-- native/src/network.rs: what a pass of the leader publishes, as a follower's job takes it.
use ethersync.Base.{
  ℕ, zero, suc, ◌+◌, ◌^◌, ◌≤◌, ◌<◌, ◌≡◌, ◌⊎◌, refl, sym, ap, ◌∙◌, true, false, none, some, List, [],
  ◌∷◌, ok, err, take, length, length-take, arith, inl, inr,
}
use ethersync.Base.Float.{Float}
use ethersync.Native.{NativeError}
use ethersync.Timecode.Defs.{size}
use ethersync.Wire.Messages.{Bytes, Snapshot}
use ethersync.Wire.Validate.{Codec}
use ethersync.Timeline.Defs.{
  Timeline, Scheduled, SourceKind, pending, base_segment, segment_from, segment_at, Segment,
  anchor_at, at,
}
use ethersync.Timeline.Schedule.{IsTimeline}
use ethersync.Timeline.RoundTrip.{padded, canonical}
use ethersync.Follower.Core.{eq_bytes, other_session, start_session, state}
use ethersync.FollowerJob.Defs.{FollowerJob}
use ethersync.FollowerJob.Receive.{Stage, parse, accept, read_frame}
use ethersync.Wire.Validate.{IsFaithful}
use ethersync.Leader.State.{LeaderConfig, LeaderJob, Command, CommandReads, PassReads}
use ethersync.Leader.Anchors.{highest}
use ethersync.Leader.Passes.{Timely}
use ethersync.Leader.Job.{pass}
use ethersync.Leader.Published.{IsPublished, pass_lem}

take-padded : (n : ℕ) (ss : List Scheduled) → length ss ≤ n → take (length ss) (padded n ss) ≡ ss
take-padded zero [] h = refl
take-padded (suc n) [] h = refl
take-padded zero (s ∷ ss) h = absurd (omega arith)
take-padded (suc n) (s ∷ ss) h = ap (◌∷◌ s) (take-padded n ss (omega arith))

-- The unused slots of a schedule play nothing.
segment_at-canonical :
    (t : Timeline) (time : ℕ) → IsTimeline t → segment_at (canonical t) time ≡ segment_at t time
unfolding segment_at
segment_at-canonical t time v =
    let used : length (pending t) ≡ t.scheduled_len =
      omega (arith, length-take t.scheduled_len t.scheduled, v.slots, v.len_in) in
    let same : pending (canonical t) ≡ pending t =
      ap (λ n. take n (padded 4 (pending t))) (sym used)
      ∙ take-padded 4 (pending t) (omega (arith, v.len_in)) in
    ap (segment_from time (base_segment t)) same

at-canonical : (t : Timeline) (time : ℕ) → IsTimeline t → at (canonical t) time ≡ at t time
unfolding at
at-canonical t time v =
    ap (λ (g : Segment). (anchor_at g.anchor time t.format, g.anchor.rate, g.discontinuity))
      (segment_at-canonical t time v)

module _ {F : Type 0} ⦃fl : Float F⦄ where
  -- A follower that took a state over plays what the leader plays, in position, rate and discontinuity,
  -- and has nothing more of the state to receive.
  pub record Joined (t : Timeline) (r : Stage F) : Type 0 where
    pub taken : r.0 ≡ ok tt
    pub session : r.1.core.view.timeline.session ≡ t.session
    pub revision : r.1.core.view.timeline.revision ≡ t.revision
    pub format : r.1.core.view.timeline.format ≡ t.format
    pub plays : (time : ℕ) → at r.1.core.view.timeline time ≡ at t time
    pub idle : (r.1.has_frame ≡ false) × (r.1.has_group ≡ false) × (r.1.frame_deadline ≡ none)

  new_state :
      (f : FollowerJob F) (t : Timeline) (now : ℕ)
      → f.core.expected_session ≡ none
      → eq_bytes f.core.view.timeline.session t.session ≡ false
      → (state f.core t now).1.view.timeline ≡ t
  unfolding state other_session start_session
  new_state f t now e h = rw (e, h) refl

  accept-Joined :
      (f : FollowerJob F) (t : Timeline) (now : ℕ)
      → IsTimeline t
      → f.core.expected_session ≡ none
      → eq_bytes f.core.view.timeline.session t.session ≡ false
      → Joined t (accept f (ok (canonical t)) now)
  unfolding accept
  accept-Joined f t now v e h =
      let taken = new_state f (canonical t) now e h in
      record {
        taken = refl;
        session = ap (λ (u : Timeline). u.session) taken;
        revision = ap (λ (u : Timeline). u.revision) taken;
        plays = λ time. ap (λ (u : Timeline). at u time) taken ∙ at-canonical t time v;
        format = ap (λ (u : Timeline). u.format) taken;
        idle = (refl, refl, refl);
      }

  read_frame-Joined :
      (c : Codec Snapshot) (f : FollowerJob F) (bytes : Bytes) (t : Timeline) (now : ℕ)
      → parse c bytes ≡ ok (canonical t)
      → IsTimeline t
      → f.has_frame ≡ true
      → f.core.expected_session ≡ none
      → eq_bytes f.core.view.timeline.session t.session ≡ false
      → Joined t (read_frame c f (some (ok bytes)) now)
  unfolding read_frame
  read_frame-Joined c f bytes t now agrees v frame e h =
      rw (frame, agrees) (accept-Joined f t now v e h)

  -- Under the conditions of a leader's pass: it fails because the state is too long for a message, or the
  -- bytes that it leaves for its peers, received as a whole frame by a follower on a new connection whose
  -- timeline is of another session, are taken. Then the follower's timeline has the leader's session,
  -- revision and format, and the leader's position, rate and discontinuity at every time of the leader's
  -- clock.
  pub read_frame-pass :
      (c : Codec Snapshot) (cfg : LeaderConfig) (j : LeaderJob F)
      (queue : List (Command × CommandReads)) (reads : PassReads) (now : ℕ) (f : FollowerJob F)
      (arrival : ℕ)
      → IsFaithful c
      → cfg.source_kind ≡ SourceKind.generated
      → IsPublished c now j
      → Timely now queue reads.now_ns
      → highest j.timeline + 32 < 2 ^ 64
      → j.timeline.revision + 1 < 2 ^ 64
      → f.has_frame ≡ true
      → f.core.expected_session ≡ none
      → eq_bytes f.core.view.timeline.session (pass c cfg j queue reads).2.timeline.session ≡ false
      → let led = (pass c cfg j queue reads).2 in
        ((pass c cfg j queue reads).0 ≡ err (NativeError.protocol size))
        ⊎ Joined led.timeline (read_frame c f (some (ok led.bytes)) arrival)
  read_frame-pass c cfg j queue reads now f arrival faithful generated p timely fits counts frame e
        h =
      elim (pass_lem c cfg j queue reads now faithful generated p timely fits counts) [
        | inl failed ↦ inl failed
        | inr (is_sent, done, passed) ↦
            let led = (pass c cfg j queue reads).2 in
            inr (
              read_frame-Joined c f led.bytes led.timeline arrival passed.is_published.agrees
                passed.is_published.led.valid frame e h)
      ]
