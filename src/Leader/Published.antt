-- ===== src/Leader/Published.antt =====
-- What the leader's peers are sent, against the leader's timeline.
use ethersync.Base.{
  ℕ, ◌+◌, ◌%◌, ◌^◌, ◌<◌, ◌≡◌, refl, ap, sym, ◌∙◌, ◌⊎◌, inl, inr, Bool, true, false, ◌||◌, List,
  arith, length, ltb, Result, ok, err, if_elim,
}
use ethersync.Base.Float.{Float}
use ethersync.Native.{NativeError}
use ethersync.Wire.Messages.{Bytes, Snapshot}
use ethersync.Wire.Validate.{Codec, IsFaithful, encode, decode_snapshot, max_message}
use ethersync.Timecode.Defs.{Error, size}
use ethersync.Timeline.Defs.{Timeline, SourceKind, base_segment, segment_at}
use ethersync.Timeline.Convert.{wire}
use ethersync.Timeline.Schedule.{IsTimeline}
use ethersync.Timeline.RoundTrip.{canonical, from_wire-wire, validate_snapshot-wire}
use ethersync.Timeline.Latch.{LatchedAt}
use ethersync.Tracking.{is_tracked}
use ethersync.Leader.Anchors.{highest}
use ethersync.FollowerJob.Receive.{parse}
use ethersync.Leader.Job.{commands, watch_source, is_publish_due, published, publish_state, pass}
use ethersync.Leader.State.{
  LeaderConfig, LeaderJob, Command, CommandReads, PassReads, Reply, sent, promote_due,
}
use ethersync.Leader.Commands.{IsLed}
use ethersync.Leader.Promotion.{
  promote_due-LatchedAt, promote_due_idle, promote_due-Keeps, promote_due-IsLed,
}
use ethersync.Leader.Passes.{Timely, commands-Served}

-- The revision as a state publishes it.
abbrev pub next_revision : Timeline → Timeline
next_revision t = record t { revision = (t.revision + 1) % 2 ^ 64 }

next_revision-IsLed : (now : ℕ) (t : Timeline) → IsLed now t → IsLed now (next_revision t)
next_revision-IsLed now t l = record {
  valid = record {
    session_in = l.valid.session_in;
    session_id_in = l.valid.session_id_in;
    format_in = l.valid.format_in;
    anchor_in = l.valid.anchor_in;
    slots = l.valid.slots;
    len_in = l.valid.len_in;
    ascending = l.valid.ascending;
  };
  generated_source = l.generated_source;
  past = l.past;
}

-- A valid timeline that fits a message is received as it was sent.
pub parse-wire :
    (c : Codec Snapshot) (t : Timeline)
    → IsFaithful c
    → IsTimeline t
    → 0 < t.revision
    → ltb max_message (length (c.encode_to_vec (wire t))) ≡ false
    → parse c (c.encode_to_vec (wire t)) ≡ ok (canonical t)
unfolding parse decode_snapshot
parse-wire c t faithful v r short =
    rw (short, faithful (wire t), validate_snapshot-wire t v r) (from_wire-wire t v r)

latched_base : (t u : Timeline) (now : ℕ) → LatchedAt now t u → base_segment u ≡ segment_at u now
latched_base t u now l = l.base ∙ sym (l.future now (omega arith))

segment_at-next_revision :
    (t : Timeline) (now : ℕ) → segment_at (next_revision t) now ≡ segment_at t now
unfolding segment_at
segment_at-next_revision t now = refl

none_asked : (a b c d : Bool) → (a || b || c || d) ≡ false → (a ≡ false) × (b ≡ false)
none_asked true b c d h = cc
none_asked false true c d h = cc
none_asked false false c d h = (refl, refl)

module _ {F : Type 0} ⦃fl : Float F⦄ where
  -- The bytes that the leader has for its peers are received as its timeline.
  pub record IsPublished (c : Codec Snapshot) (now : ℕ) (j : LeaderJob F) : Type 0 where
    pub led : IsLed now j.timeline
    pub counted : 0 < j.timeline.revision
    pub agrees : parse c j.bytes ≡ ok (canonical j.timeline)

  -- A publication: it fails because the state is too long, or the next revision is published.
  abbrev Publication :
      Codec Snapshot → ℕ → Timeline → Result NativeError (Unit {0}) × LeaderJob F → Type 0
  Publication c now t r =
      (r.0 ≡ err (NativeError.protocol size))
      ⊎ ((r.0 ≡ ok tt) × IsPublished c now r.1 × (r.1.timeline ≡ next_revision t))

  publish_state-Publication :
      (c : Codec Snapshot) (j : LeaderJob F) (now instant : ℕ)
      → IsFaithful c
      → IsLed now j.timeline
      → j.timeline.revision + 1 < 2 ^ 64
      → Publication c now j.timeline (publish_state c j instant)
  unfolding publish_state encode
  publish_state-Publication c j now instant faithful l fits =
      let t = next_revision j.timeline in
      let next = next_revision-IsLed now j.timeline l in
      let counted : 0 < t.revision = omega arith in
      if_elim
        (λ (x : Result Error Bytes).
          Publication c now j.timeline (published (record j { timeline = t }) instant x))
        (ltb max_message (length (c.encode_to_vec (wire t)))) (λ long. unfold published in inl refl)
        (λ short.
          unfold published in
          inr (
            refl,
            record {
              led = next;
              counted = counted;
              agrees = parse-wire c t faithful next.valid counted short;
            },
            refl,
          ))

  watch_source_generated :
      (cfg : LeaderConfig) (j : LeaderJob F) (reads : PassReads)
      → cfg.source_kind ≡ SourceKind.generated
      → watch_source cfg j reads ≡ (false, j)
  unfolding watch_source is_tracked
  watch_source_generated cfg j reads h = rw h refl

  -- What a pass that does not fail leaves: nothing due is left in the schedule, the bytes are those
  -- of the timeline, and the revision is counted where a state was sent; else nothing changed.
  pub record Passed (c : Codec Snapshot) (now : ℕ) (t : Timeline) (is_sent : Bool) (j : LeaderJob F)
      : Type 0 where
    pub is_published : IsPublished c now j
    pub nothing_due : base_segment j.timeline ≡ segment_at j.timeline now
    pub counts : is_sent ≡ true → j.timeline.revision ≡ t.revision + 1
    pub same : is_sent ≡ false → j.timeline ≡ t

  abbrev pub PassOutcome :
      Codec Snapshot
      → ℕ
      → Timeline
      → Result NativeError Bool × List (Reply F) × LeaderJob F × List (Command × CommandReads)
      → Type 0
  PassOutcome c now t r =
      (r.0 ≡ err (NativeError.protocol size))
      ⊎ ((is_sent : Bool) × (r.0 ≡ ok is_sent) × Passed c now t is_sent r.2)

  -- A pass of a leader of a generated source, whose commands are in range and read a clock that does
  -- not go back, and whose numbers do not overflow, over a faithful encoding: it fails only where the
  -- state is too long for a message. Else the bytes for the peers are received as the timeline, as
  -- they were before, no scheduled change that is due is left, and where the pass does not send a
  -- state with the next revision the timeline is the one before.
  pub pass_lem :
      (c : Codec Snapshot) (cfg : LeaderConfig) (j : LeaderJob F)
      (queue : List (Command × CommandReads)) (reads : PassReads) (now : ℕ)
      → IsFaithful c
      → cfg.source_kind ≡ SourceKind.generated
      → IsPublished c now j
      → Timely now queue reads.now_ns
      → highest j.timeline + 32 < 2 ^ 64
      → j.timeline.revision + 1 < 2 ^ 64
      → PassOutcome c reads.now_ns j.timeline (pass c cfg j queue reads)
  unfolding pass
  pass_lem c cfg j queue reads now faithful generated p timely fits counts =
      let start = record j { command_more = false } in
      let r = commands 32 cfg start queue in
      let served = commands-Served 32 cfg start queue now reads.now_ns p.led timely fits in
      let t = (promote_due reads.now_ns r.2.timeline).1 in
      let led = promote_due-IsLed r.2.timeline reads.now_ns served.timeline_led.led in
      let kept = promote_due-Keeps r.2.timeline reads.now_ns in
      let latched = promote_due-LatchedAt r.2.timeline reads.now_ns served.timeline_led.led.valid in
      let watched = record r.2 { timeline = t } in
      let revision : t.revision ≡ j.timeline.revision =
        kept.revision_kept ∙ served.timeline_led.same_revision in
      rw (watch_source_generated cfg watched reads generated) (
        if_elim (PassOutcome c reads.now_ns j.timeline)
          (r.1
            || (promote_due reads.now_ns r.2.timeline).0
            || false
            || is_publish_due cfg watched reads)
          (λ due.
            elim (publish_state-Publication c watched reads.now_ns reads.published_instant faithful
              led (omega (arith, revision))) [
                | inl e ↦ inl (ap sent e)
                | inr (e, next, u) ↦ inr (
                  true,
                  ap sent e,
                  record {
                    is_published = next;
                    nothing_due = rw u (
                        latched_base r.2.timeline t reads.now_ns latched
                        ∙ sym (segment_at-next_revision t reads.now_ns));
                    counts = λ _. ap (λ (v : Timeline). v.revision) u ∙ omega (arith, revision);
                    same = λ h. cc;
                  },
                )
              ])
          (λ idle.
            let quiet =
              none_asked r.1 (promote_due reads.now_ns r.2.timeline).0 false
                (is_publish_due cfg watched reads) idle in
            let none_due : t ≡ r.2.timeline = promote_due_idle r.2.timeline reads.now_ns quiet.1 in
            let same : t ≡ j.timeline = none_due ∙ served.timeline_led.unasked quiet.0 in
            inr (
              false,
              refl,
              record {
                is_published = record {
                  led = led;
                  counted = omega (arith, revision, p.counted);
                  agrees =
                      ap (parse c) served.same_bytes
                      ∙ p.agrees
                      ∙ ap (λ (v : Timeline). ok (canonical v)) (sym same);
                };
                nothing_due = latched_base r.2.timeline t reads.now_ns latched;
                counts = λ h. cc;
                same = λ _. same;
              },
            )))
