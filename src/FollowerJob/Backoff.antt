-- ===== src/FollowerJob/Backoff.antt =====
-- native/src/network.rs: when `FollowerJob` dials again after a loss, and when it wants its next pass.
use native.Mathlib.Nat.{pow-suc}
use ethersync.Base.{
  ◌≢◌, ◌↔◌, Bool-cases, le→leb, ℕ, suc, ◌+◌, ◌-◌, ◌*◌, ◌^◌, ◌≤◌, ◌<◌, ◌≡◌, refl, min, true, false,
  ◌&&◌, Option, none, some, ltb, if_elim, Result, ok, err, arith, ltb→lt, ltb_false→le, ◌⊎◌, inl,
  inr, ap,
}
use ethersync.Base.Float.{Float, ◌⊕◌, ◌⊘◌, literal, of_ℕ}
use ethersync.Native.{NativeError}
use ethersync.Wire.Messages.{Bytes, Probe}
use ethersync.Wire.Validate.{Codec, bad_probe, decode_probe}
use ethersync.Timeline.Defs.{ConnectionState, first_scheduled}
use ethersync.Clock.Defs.{Exchange, leader_time}
use ethersync.Clock.Probes.{default_probes, answer, reply}
use ethersync.Clock.Probes.Matching.{default_probes-IsProbes, answer-eq-some, decode_probe-eq-ok}
use ethersync.Clock.Probes.Replies.{reply_evicted}
use ethersync.FollowerJob.Defs.{FollowerConfig, FollowerJob, LossReads, two_seconds, wait_of, lose}
use ethersync.FollowerJob.Receive.{Stage, dial}
use ethersync.FollowerJob.Pass.{
  earlier, DeadlineReads, change_instant, connection_deadline, deadline,
}
use ethersync.FollowerJob.Invariant.{HasRetries}

twice : (m k : ℕ) → m * 2 ^ suc k ≡ 2 * (m * 2 ^ k)
twice m k = omega (arith, ap (λ (t : ℕ). m * t) (pow-suc 2 k))

pub earlier-le : (o : Option ℕ) (b : ℕ) → earlier o b ≤ b
earlier-le none b = omega arith
earlier-le (some a) b = omega arith

earlier-eq-some : (o : Option ℕ) (a b : ℕ) → o ≡ some a → earlier o b ≤ a
earlier-eq-some none a b h = cc
earlier-eq-some (some x) a b h = let e : x ≡ a = cc in omega arith

unasked_reply :
    (c : Codec Probe) (bytes : Bytes) (now : ℕ) (e : Exchange)
    → (reply c default_probes bytes now).0 ≢ ok (some e)
unasked_reply c bytes now e h =
    let cleared = record default_probes { last_publication = none } in
    let found : (answer cleared (decode_probe c bytes) now).0 ≡ ok (some e) = unfold reply in h in
    let (m, decoded, _) = answer-eq-some cleared (decode_probe c bytes) now e found in
    let good = decode_probe-eq-ok c bytes m decoded in
    let later : 0 < m.sequence = unfold bad_probe in ground arith in
    let gone =
      reply_evicted c default_probes bytes now m default_probes-IsProbes decoded
        (inr (unfold default_probes in later)) in
    cc

module _ {F : Type 0} ⦃fl : Float F⦄ where
  -- The wait after `k` losses in a row.
  abbrev pub wait_after : FollowerConfig F → ℕ → ℕ
  wait_after cfg k = min cfg.retry_max (cfg.retry_min * 2 ^ k)

  -- When the next dial is due after a loss, and the wait after the next one.
  pub record Waits (now wait next : ℕ) (j : FollowerJob F) : Type 0 where
    pub no_peer : j.has_peer ≡ false
    pub due_at : j.retry ≡ now + wait
    pub doubled : j.backoff ≡ next

  -- After a loss a retry is due after the wait of the losses in a row before it, which doubles from
  -- the least up to the most, where the connection was begun at most two seconds ago, and else
  -- after the least.
  pub lose-Waits :
      (cfg : FollowerConfig F) (j : FollowerJob F) (k : ℕ) (reads : LossReads)
      → HasRetries cfg
      → j.backoff ≡ wait_after cfg k
      → let lost = lose cfg j reads in
        ((reads.elapsed_at ≤ j.began + two_seconds)
          × Waits reads.retry_at (wait_after cfg k) (wait_after cfg (suc k)) lost)
        ⊎ ((j.began + two_seconds < reads.elapsed_at)
            × Waits reads.retry_at cfg.retry_min (wait_after cfg 1) lost)
  unfolding lose wait_of
  lose-Waits cfg j k reads r h =
      let within = r.within in
      let ordered = r.ordered in
      elim (Bool-cases (ltb two_seconds (reads.elapsed_at - j.began))) [
        | inl late ↦ rw late (
            inr (
              let l = ltb→lt two_seconds (reads.elapsed_at - j.began) late in omega arith,
              record { no_peer = refl; due_at = refl; doubled = omega arith },
            ))
        | inr quick ↦ rw quick (
            inl (
              let l = ltb_false→le two_seconds (reads.elapsed_at - j.began) quick in omega arith,
              record {
                no_peer = refl;
                due_at = ap (λ (w : ℕ). reads.retry_at + w) h;
                doubled = omega (arith, twice cfg.retry_min k);
              },
            ))
      ]

  -- The new connection of a dial.
  pub record Dials (began_at : ℕ) (dialled : Result NativeError (Unit {0})) (r : Stage F)
      : Type 0 where
    pub result : r.0 ≡ dialled
    pub shown : r.1.core.view.connection ≡ ConnectionState.connecting
    pub since : r.1.began ≡ began_at
    pub peer : (dialled ≡ ok tt) ↔ (r.1.has_peer ≡ true)

  -- A job without a peer dials in the first pass at or after its retry, and the view tells so; there
  -- is a peer exactly where the dial succeeded.
  pub dial_due :
      (j : FollowerJob F) (instant began_at : ℕ) (dialled : Result NativeError (Unit {0}))
      → j.has_peer ≡ false
      → j.retry ≤ instant
      → Dials began_at dialled (dial j instant began_at dialled)
  unfolding dial
  dial_due j instant began_at (ok _) none_yet due =
      rw (none_yet, le→leb j.retry instant due)
        (record { result = refl; shown = refl; since = refl; peer = ((λ _. refl), (λ _. refl)) })
  dial_due j instant began_at (err e) none_yet due =
      rw (none_yet, le→leb j.retry instant due)
        (record { result = refl; shown = refl; since = refl; peer = ((λ h. cc), (λ h. cc)) })

  -- After a loss no bytes yield an exchange until a new request is made.
  pub lose_reply :
      (cfg : FollowerConfig F) (j : FollowerJob F) (reads : LossReads) (c : Codec Probe)
      (bytes : Bytes) (now : ℕ) (e : Exchange)
      → (reply c (lose cfg j reads).probes bytes now).0 ≢ ok (some e)
  unfolding lose
  lose_reply cfg j reads c bytes now e h = unasked_reply c bytes now e h

  -- How long the first scheduled change is off by the leader's clock, and when that time has passed
  -- by the follower's clock with its drift.
  abbrev pub time_left : FollowerJob F → DeadlineReads → ℕ
  time_left j reads =
      (first_scheduled j.core.view.timeline).anchor.time_ns
      - leader_time j.core.view.mapping reads.now_ns

  abbrev pub due_after : FollowerJob F → DeadlineReads → ℕ → ℕ
  due_after j reads left =
      let local = of_ℕ left ⊘ (literal 1 0 ⊕ j.core.view.mapping.drift) in
      reads.instant + fl.to_u64 (fl.fmax local (literal 0 0))

  dial_deadline :
      (j : FollowerJob F) (reads : DeadlineReads)
      → j.has_peer ≡ false
      → connection_deadline j reads ≡ j.retry
  unfolding connection_deadline
  dial_deadline j reads h = rw h refl

  handshake_deadline :
      (j : FollowerJob F) (reads : DeadlineReads)
      → j.has_peer ≡ true
      → j.connected ≡ false
      → connection_deadline j reads ≡ reads.peer_deadline
  unfolding connection_deadline
  handshake_deadline j reads h k = rw (h, k) refl

  probe_deadline :
      (j : FollowerJob F) (reads : DeadlineReads)
      → j.has_peer ≡ true
      → j.connected ≡ true
      → connection_deadline j reads ≡ j.next_probe
  unfolding connection_deadline
  probe_deadline j reads h k = rw (h, k) refl

  -- What bounds the instant that a job wants to be woken at.
  pub record Wakes (j : FollowerJob F) (reads : DeadlineReads) (at : ℕ) : Type 0 where
    pub for_dial : j.has_peer ≡ false → at ≤ j.retry
    pub for_handshake : j.has_peer ≡ true → j.connected ≡ false → at ≤ reads.peer_deadline
    pub for_probe : j.has_peer ≡ true → j.connected ≡ true → at ≤ j.next_probe
    pub for_transport : (d : ℕ) → reads.transport_deadline ≡ some d → at ≤ d
    pub for_frame : (d : ℕ) → j.frame_deadline ≡ some d → at ≤ d
    pub for_change :
        0 < j.core.view.timeline.scheduled_len
        → 0 < j.core.view.mapping.last_sample_ns
        → at ≤ due_after j reads (time_left j reads)

  -- A job is woken no later than the next dial without a peer, the peer's deadline while it is being
  -- set up, the next probe once connected, the deadlines of the transport and of a started frame, and
  -- the time by its own clock at which the first scheduled change comes on a clock that is known.
  pub deadline-Wakes :
      (j : FollowerJob F) (reads : DeadlineReads) → Wakes j reads (deadline j reads)
  unfolding deadline change_instant
  deadline-Wakes j reads =
      let c = connection_deadline j reads in
      let first = earlier reads.transport_deadline c in
      let framed = earlier j.frame_deadline first in
      let le = earlier-le j.frame_deadline first in
      let le' = earlier-le reads.transport_deadline c in
      let v = j.core.view in
      let transport : (d : ℕ) → reads.transport_deadline ≡ some d → first ≤ d =
        λ d e. earlier-eq-some reads.transport_deadline d c e in
      let frame : (d : ℕ) → j.frame_deadline ≡ some d → framed ≤ d =
        λ d e. earlier-eq-some j.frame_deadline d first e in
      if_elim (Wakes j reads) (ltb 0 v.timeline.scheduled_len && ltb 0 v.mapping.last_sample_ns)
        (λ _. record {
          for_dial = λ h. omega (arith, dial_deadline j reads h);
          for_handshake = λ h k. omega (arith, handshake_deadline j reads h k);
          for_probe = λ h k. omega (arith, probe_deadline j reads h k);
          for_transport = λ d e. omega (arith, transport d e);
          for_frame = λ d e. omega (arith, frame d e);
          for_change = λ _ _. omega arith;
        })
        (λ nothing. record {
          for_dial = λ h. omega (arith, dial_deadline j reads h);
          for_handshake = λ h k. omega (arith, handshake_deadline j reads h k);
          for_probe = λ h k. omega (arith, probe_deadline j reads h k);
          for_transport = λ d e. omega (arith, transport d e);
          for_frame = λ d e. frame d e;
          for_change = λ a b. absurd (ground arith);
        })
