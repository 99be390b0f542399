-- ===== src/FollowerJob/Invariant.antt =====
-- The invariant of `FollowerJob` in native/src/network.rs, and what a loss keeps of it.
use ethersync.Base.{
  ℕ, ◌-◌, ◌≤◌, ◌≡◌, refl, true, some, ltb, if_elim, if◌then◌else◌, Result, ok, err, arith, length,
  inl, inr, ok_or, >>=-eq-ok, refuse-eq-ok, sym, ap, ◌∙◌,
}
use ethersync.Base.Float.{Float}
use ethersync.Wire.Messages.{Bytes, Snapshot}
use ethersync.Wire.Validate.{Codec, validate_snapshot, decode_snapshot, max_message}
use ethersync.Timecode.Defs.{Error, size}
use ethersync.Timeline.Defs.{Timeline}
use ethersync.Timeline.Convert.{from_wire}
use ethersync.Timeline.Schedule.{IsTimeline}
use ethersync.Timeline.Decode.{SnapshotInRange, ok_or-eq-ok, from_wire_lem}
use ethersync.Follower.Core.{is_some}
use ethersync.Follower.Sound.{IsSound, disconnect-IsSound}
use ethersync.FollowerJob.Defs.{
  FollowerConfig, FollowerJob, LossReads, duration_max, two_seconds, wait_of, lose,
}
use ethersync.FollowerJob.Receive.{Stage, and_then, parse}

-- The promise of the schema: the numbers of a decoded snapshot are in the range of their fields.
abbrev pub DecodesInRange : Codec Snapshot → Type 0
DecodesInRange c =
    (bytes : Bytes) (s : Snapshot) → c.decode_message bytes ≡ some s → SnapshotInRange s

-- The intervals to retry after, as `Timing::validate` leaves them.
pub record HasRetries {F : Type 0} (cfg : FollowerConfig F) : Type 0 where
  pub ordered : cfg.retry_min ≤ cfg.retry_max
  pub within : cfg.retry_max ≤ duration_max

ok_unique : {E A : Type 0} (r : Result E A) {a b : A} → r ≡ ok a → r ≡ ok b → a ≡ b
ok_unique (ok x) h k = cc
ok_unique (err e) h k = cc

decode_snapshot-eq-ok :
    (c : Codec Snapshot) (bytes : Bytes) (s : Snapshot)
    → decode_snapshot c bytes ≡ ok s
    → c.decode_message bytes ≡ some s
unfolding decode_snapshot
decode_snapshot-eq-ok c bytes s h =
    let (_, read) = refuse-eq-ok (ltb max_message (length bytes)) size _ h in
    let (m, decoded, checked) = >>=-eq-ok (ok_or (c.decode_message bytes) Error.decode) _ read in
    let (_, _, same) = >>=-eq-ok (validate_snapshot m) (λ _. ok m) checked in
    ok_or-eq-ok (c.decode_message bytes) Error.decode decoded ∙ ap some (ok_unique (ok m) refl same)

-- Whatever bytes are read as a timeline, it is a valid one.
pub parse-IsTimeline :
    (c : Codec Snapshot) (bytes : Bytes) (t : Timeline)
    → DecodesInRange c
    → parse c bytes ≡ ok t
    → IsTimeline t
unfolding parse
parse-IsTimeline c bytes t range h =
    let (s, d, f) = >>=-eq-ok (decode_snapshot c bytes) from_wire h in
    elim (from_wire_lem s (range bytes s (decode_snapshot-eq-ok c bytes s d))) [
      | inl a ↦ rw (ok_unique (from_wire s) f a.returns) a.valid
      | inr (e, _, fails) ↦ absurd (let x = sym fails ∙ f in cc)
    ]

module _ {F : Type 0} ⦃fl : Float F⦄ where
  -- The follower is sound and the wait for the next retry within its limits. There is a connection
  -- only with a peer, and a frame only with a group, which has a deadline.
  pub record IsJob (cfg : FollowerConfig F) (j : FollowerJob F) : Type 0 where
    pub sound : IsSound j.core
    pub least : cfg.retry_min ≤ j.backoff
    pub most : j.backoff ≤ cfg.retry_max
    pub has_a_peer : j.connected ≡ true → j.has_peer ≡ true
    pub has_a_group : j.has_frame ≡ true → j.has_group ≡ true
    pub has_a_deadline : j.has_group ≡ true → is_some j.frame_deadline ≡ true

  abbrev pub Keeps : FollowerConfig F → Stage F → Type 0
  Keeps cfg r = IsJob cfg r.1

  -- A job that differs in its follower and its clocks only.
  pub same_links :
      (cfg : FollowerConfig F) (j k : FollowerJob F)
      → IsJob cfg j
      → IsSound k.core
      → k.backoff ≡ j.backoff
      → k.connected ≡ j.connected
      → k.has_peer ≡ j.has_peer
      → k.has_group ≡ j.has_group
      → k.has_frame ≡ j.has_frame
      → k.frame_deadline ≡ j.frame_deadline
      → IsJob cfg k
  same_links cfg j k h s b c p g f d = record {
    sound = s;
    least = omega (arith, h.least);
    most = omega (arith, h.most);
    has_a_peer = rw (c, p) h.has_a_peer;
    has_a_group = rw (f, g) h.has_a_group;
    has_a_deadline = rw (g, d) h.has_a_deadline;
  }

  pub and_then-Keeps :
      (cfg : FollowerConfig F) (r : Stage F) (next : FollowerJob F → Stage F)
      → Keeps cfg r
      → ((k : FollowerJob F) → IsJob cfg k → Keeps cfg (next k))
      → Keeps cfg (and_then r next)
  and_then-Keeps cfg (ok _, j) next h more = more j h
  and_then-Keeps cfg (err e, j) next h more = h

  pub lose-IsJob :
      (cfg : FollowerConfig F) (j : FollowerJob F) (reads : LossReads)
      → HasRetries cfg
      → IsJob cfg j
      → IsJob cfg (lose cfg j reads)
  unfolding lose wait_of
  lose-IsJob cfg j reads r h =
      let w = if ltb two_seconds (reads.elapsed_at - j.began) then cfg.retry_min else j.backoff in
      let least : cfg.retry_min ≤ w =
        if_elim (λ (x : ℕ). cfg.retry_min ≤ x) (ltb two_seconds (reads.elapsed_at - j.began))
          (λ _. omega arith) (λ _. h.least) in
      record {
        sound = disconnect-IsSound j.core h.sound;
        least = let a = r.ordered in let b = r.within in omega arith;
        most = omega arith;
        has_a_peer = λ e. cc;
        has_a_group = λ e. cc;
        has_a_deadline = λ e. cc;
      }
