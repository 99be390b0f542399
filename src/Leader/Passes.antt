-- ===== src/Leader/Passes.antt =====
-- The passes of `LeaderJob::progress` over a generated source: what is published is the timeline.
use ethersync.Base.{
  ℕ, zero, suc, ◌+◌, ◌^◌, ◌≤◌, ◌<◌, ◌≡◌, ◌==◌, refl, ◌∙◌, Bool, false, List, [], ◌∷◌, arith, err,
}
use ethersync.Base.Float.{Float}
use ethersync.Timeline.Defs.{Timeline, SourceKind}
use ethersync.Timecode.Defs.{invalid}
use ethersync.Tracking.{SourceSample, Tracker, sample, is_tracked}
use ethersync.Leader.Anchors.{highest}
use ethersync.Leader.Job.{sampled, handle, commands}
use ethersync.Leader.State.{
  LeaderConfig, LeaderJob, Command, to_session_id, to_reader, to_change, to_sample, to_reconnect,
  CommandReads, Reply,
}
use ethersync.Leader.Commands.{
  IsCommand, IsLed, later-IsLed, Led, unchanged-Led, change-Led, set_id-Led,
}

-- The commands of a queue are in range and read the clock, which does not go back, by `end`.
abbrev pub Timely : ℕ → List (Command × CommandReads) → ℕ → Type 0
Timely now [] end = now ≤ end
Timely now ((c, reads) ∷ queue) end =
    (now ≤ reads.handled_ns) × IsCommand c × Timely reads.handled_ns queue end

Timely-le :
    (now : ℕ) (queue : List (Command × CommandReads)) (end : ℕ) → Timely now queue end → now ≤ end
Timely-le now [] end h = h
Timely-le now ((c, reads) ∷ queue) end (h, _, rest) =
    omega (arith, Timely-le reads.handled_ns queue end rest)

module _ {F : Type 0} ⦃fl : Float F⦄ where
  sample_generated :
      (r : Tracker F) (t : Timeline) (s : SourceSample) (now : ℕ)
      → t.source_kind ≡ SourceKind.generated
      → sample r t s now ≡ (err (invalid "source is not tracked"), r, t)
  unfolding sample is_tracked
  sample_generated r t s now h = rw h refl

  -- What a command makes of the timeline, and what it leaves of the rest.
  record Handled (now : ℕ) (j : LeaderJob F) (r : Reply F × Bool × LeaderJob F) : Type 0 where
    timeline_led : Led now 1 j.timeline r.2.timeline r.1
    same_bytes : r.2.bytes ≡ j.bytes
    same_dirty : r.2.dirty ≡ j.dirty

  handle-Handled :
      (cfg : LeaderConfig) (j : LeaderJob F) (c : Command) (reads : CommandReads)
      → IsLed reads.handled_ns j.timeline
      → IsCommand c
      → highest j.timeline + 1 < 2 ^ 64
      → Handled reads.handled_ns j (handle cfg j c reads)
  unfolding handle
  handle-Handled cfg j (to_session_id id) reads l h fits = record {
    timeline_led = set_id-Led j.timeline id reads.handled_ns l h;
    same_bytes = refl;
    same_dirty = refl;
  }
  handle-Handled cfg j to_reader reads l h fits = record {
    timeline_led = unchanged-Led reads.handled_ns 1 j.timeline false l;
    same_bytes = refl;
    same_dirty = refl;
  }
  handle-Handled cfg j (to_change change effective) reads l h fits = record {
    timeline_led = change-Led j.timeline change effective reads.handled_ns l h fits;
    same_bytes = refl;
    same_dirty = refl;
  }
  handle-Handled cfg j (to_sample s) reads l h fits =
      rw (sample_generated j.tracker j.timeline s reads.handled_ns l.generated_source) (
        unfold sampled in
        record {
          timeline_led = unchanged-Led reads.handled_ns 1 j.timeline false l;
          same_bytes = refl;
          same_dirty = refl;
        })
  handle-Handled cfg j to_reconnect reads l h fits = record {
    timeline_led = unchanged-Led reads.handled_ns 1 j.timeline false l;
    same_bytes = refl;
    same_dirty = refl;
  }

  -- The same of a run of commands, at any later time.
  pub record Served (end n : ℕ) (j : LeaderJob F) (asked : Bool) (u : LeaderJob F) : Type 0 where
    pub timeline_led : Led end n j.timeline u.timeline asked
    pub same_bytes : u.bytes ≡ j.bytes
    pub same_dirty : u.dirty ≡ j.dirty

  idle-Served :
      (now end n : ℕ) (j : LeaderJob F) → IsLed now j.timeline → now ≤ end → Served end n j false j
  idle-Served now end n j l h = record {
    timeline_led = unchanged-Led end n j.timeline false (later-IsLed now end j.timeline h l);
    same_bytes = refl;
    same_dirty = refl;
  }

  pub commands-Served :
      (n : ℕ) (cfg : LeaderConfig) (j : LeaderJob F) (queue : List (Command × CommandReads))
      (now end : ℕ)
      → IsLed now j.timeline
      → Timely now queue end
      → highest j.timeline + n < 2 ^ 64
      → let r = commands n cfg j queue in Served end n j r.1 r.2
  unfolding commands
  commands-Served zero cfg j queue now end l h fits =
      idle-Served now end 0 j l (Timely-le now queue end h)
  commands-Served (suc n) cfg j [] now end l h fits = idle-Served now end (suc n) j l h
  commands-Served (suc n) cfg j ((c, reads) ∷ queue) now end l (later, good, rest) fits =
      let first =
        handle-Handled cfg j c reads (later-IsLed now reads.handled_ns j.timeline later l) good
          (omega arith) in
      let r = handle cfg j c reads in
      let next = record r.2 { command_more = n == 0 } in
      let others =
        commands-Served n cfg next queue reads.handled_ns end first.timeline_led.led rest
          (omega (arith, first.timeline_led.grows)) in
      record {
        timeline_led = record {
          led = others.timeline_led.led;
          grows = omega (arith, others.timeline_led.grows, first.timeline_led.grows);
          same_revision = others.timeline_led.same_revision ∙ first.timeline_led.same_revision;
          unasked = λ e.
              others.timeline_led.unasked (ground arith)
              ∙ first.timeline_led.unasked (ground arith);
        };
        same_bytes = others.same_bytes ∙ first.same_bytes;
        same_dirty = others.same_dirty ∙ first.same_dirty;
      }
