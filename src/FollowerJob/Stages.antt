-- ===== src/FollowerJob/Stages.antt =====
-- native/src/network.rs: every stage of a pass of `FollowerJob` keeps the invariant of the job.
use ethersync.Base.{
  ℕ, zero, suc, ◌≡◌, refl, true, not, ◌&&◌, Option, none, some, List, [], ◌∷◌, ltb, leb, if_elim,
  Result, ok, err, arith,
}
use ethersync.Base.Float.{Float}
use ethersync.Native.{NativeError}
use ethersync.Wire.Messages.{Bytes, Snapshot, Probe}
use ethersync.Wire.Validate.{Codec, max_message}
use ethersync.Timecode.Defs.{Error}
use ethersync.Timeline.Defs.{Timeline}
use ethersync.Timeline.Schedule.{IsTimeline}
use ethersync.Clock.Defs.{Exchange}
use ethersync.Clock.Probes.{Probes, reply}
use ethersync.Follower.Sound.{connect-IsSound, state-IsSound, measurement_timed-IsSound}
use ethersync.FollowerJob.Defs.{FollowerConfig, FollowerJob}
use ethersync.FollowerJob.Receive.{
  Datagram, ProbeReads, dial, establish, on_exchange, on_datagram, datagrams, on_group, groups,
  on_frame, next_frame, parse, accept, read_frame, time_out, finish_probe,
}
use ethersync.FollowerJob.Invariant.{
  DecodesInRange, parse-IsTimeline, IsJob, Keeps, same_links, and_then-Keeps,
}

module _ {F : Type 0} ⦃fl : Float F⦄ where
  pub dial-Keeps :
      (cfg : FollowerConfig F) (j : FollowerJob F) (instant began_at : ℕ)
      (dialled : Result NativeError (Unit {0}))
      → IsJob cfg j
      → Keeps cfg (dial j instant began_at dialled)
  unfolding dial
  dial-Keeps cfg j instant began_at (err e) h =
      if_elim (Keeps cfg) (not j.has_peer && leb j.retry instant)
        (λ _.
          same_links cfg j _ h (record { valid = h.sound.valid; fits = h.sound.fits }) refl refl
            refl refl refl refl)
        (λ _. h)
  dial-Keeps cfg j instant began_at (ok _) h =
      if_elim (Keeps cfg) (not j.has_peer && leb j.retry instant)
        (λ _. record {
          sound = record { valid = h.sound.valid; fits = h.sound.fits };
          least = h.least;
          most = h.most;
          has_a_peer = λ _. refl;
          has_a_group = h.has_a_group;
          has_a_deadline = h.has_a_deadline;
        })
        (λ _. h)

  pub establish-IsJob :
      (cfg : FollowerConfig F) (j : FollowerJob F) (instant : ℕ)
      → IsJob cfg j
      → j.has_peer ≡ true
      → IsJob cfg (establish j instant)
  unfolding establish
  establish-IsJob cfg j instant h p =
      if_elim (IsJob cfg) j.connected (λ _. h)
        (λ _. record {
          sound = connect-IsSound j.core h.sound;
          least = h.least;
          most = h.most;
          has_a_peer = λ _. p;
          has_a_group = h.has_a_group;
          has_a_deadline = h.has_a_deadline;
        })

  on_exchange-Keeps :
      (cfg : FollowerConfig F) (j : FollowerJob F) (r : Result Error (Option Exchange) × Probes)
      (processed : ℕ)
      → IsJob cfg j
      → Keeps cfg (on_exchange j r processed)
  unfolding on_exchange
  on_exchange-Keeps cfg j (err e, probes) processed h =
      same_links cfg j _ h h.sound refl refl refl refl refl refl
  on_exchange-Keeps cfg j (ok none, probes) processed h =
      same_links cfg j _ h h.sound refl refl refl refl refl refl
  on_exchange-Keeps cfg j (ok (some e), probes) processed h =
      same_links cfg j _ h
        (measurement_timed-IsSound j.core e probes.last_publication processed h.sound) refl refl
        refl refl refl refl

  on_datagram-Keeps :
      (c : Codec Probe) (cfg : FollowerConfig F) (j : FollowerJob F)
      (payload : Result NativeError Bytes) (t4 processed : ℕ)
      → IsJob cfg j
      → Keeps cfg (on_datagram c j (record { payload = payload; t4 = t4; processed = processed }))
  unfolding on_datagram
  on_datagram-Keeps c cfg j (err e) t4 processed h = h
  on_datagram-Keeps c cfg j (ok bytes) t4 processed h =
      on_exchange-Keeps cfg j (reply c j.probes bytes t4) processed h

  pub datagrams-Keeps :
      (c : Codec Probe) (cfg : FollowerConfig F) (n : ℕ) (j : FollowerJob F) (ds : List Datagram)
      → IsJob cfg j
      → Keeps cfg (datagrams c n j ds)
  unfolding datagrams
  datagrams-Keeps c cfg zero j ds h = h
  datagrams-Keeps c cfg (suc n) j [] h = h
  datagrams-Keeps c cfg (suc n) j (d ∷ ds) h =
      and_then-Keeps cfg (on_datagram c j d) (λ k. datagrams c n k ds)
        (on_datagram-Keeps c cfg j d.payload d.t4 d.processed h)
        (λ k hk. datagrams-Keeps c cfg n k ds hk)

  on_group-Keeps :
      (cfg : FollowerConfig F) (j : FollowerJob F) (g : Result NativeError (Unit {0})) (instant : ℕ)
      → IsJob cfg j
      → Keeps cfg (on_group cfg j g instant)
  unfolding on_group
  on_group-Keeps cfg j (err e) instant h = h
  on_group-Keeps cfg j (ok _) instant h = record {
    sound = h.sound;
    least = h.least;
    most = h.most;
    has_a_peer = h.has_a_peer;
    has_a_group = λ _. refl;
    has_a_deadline = λ _. refl;
  }

  pub groups-Keeps :
      (cfg : FollowerConfig F) (n : ℕ) (j : FollowerJob F)
      (gs : List (Result NativeError (Unit {0}) × ℕ))
      → IsJob cfg j
      → Keeps cfg (groups cfg n j gs)
  unfolding groups
  groups-Keeps cfg zero j gs h = h
  groups-Keeps cfg (suc n) j [] h = h
  groups-Keeps cfg (suc n) j ((g, instant) ∷ gs) h =
      and_then-Keeps cfg (on_group cfg j g instant) (λ k. groups cfg n k gs)
        (on_group-Keeps cfg j g instant h) (λ k hk. groups-Keeps cfg n k gs hk)

  pub next_frame-Keeps :
      (cfg : FollowerConfig F) (j : FollowerJob F) (frame : Option (Result NativeError ℕ))
      → IsJob cfg j
      → Keeps cfg (next_frame j frame)
  unfolding next_frame on_frame
  next_frame-Keeps cfg j none h = h
  next_frame-Keeps cfg j (some (err e)) h =
      if_elim (Keeps cfg) (not j.has_frame && j.has_group) (λ _. h) (λ _. h)
  next_frame-Keeps cfg j (some (ok n)) h =
      if_elim (Keeps cfg) (not j.has_frame && j.has_group)
        (λ e.
          if_elim (Keeps cfg) (ltb max_message n) (λ _. h)
            (λ _. record {
              sound = h.sound;
              least = h.least;
              most = h.most;
              has_a_peer = h.has_a_peer;
              has_a_group = λ _. ground arith;
              has_a_deadline = h.has_a_deadline;
            }))
        (λ _. h)

  accept-Keeps :
      (cfg : FollowerConfig F) (j : FollowerJob F) (r : Result Error Timeline) (now : ℕ)
      → IsJob cfg j
      → ((t : Timeline) → r ≡ ok t → IsTimeline t)
      → Keeps cfg (accept j r now)
  unfolding accept
  accept-Keeps cfg j (err e) now h v = h
  accept-Keeps cfg j (ok t) now h v = record {
    sound = state-IsSound j.core t now h.sound (v t refl);
    least = h.least;
    most = h.most;
    has_a_peer = h.has_a_peer;
    has_a_group = λ e. cc;
    has_a_deadline = λ e. cc;
  }

  pub read_frame-Keeps :
      (c : Codec Snapshot) (cfg : FollowerConfig F) (j : FollowerJob F)
      (bytes : Option (Result NativeError Bytes)) (now : ℕ)
      → DecodesInRange c
      → IsJob cfg j
      → Keeps cfg (read_frame c j bytes now)
  unfolding read_frame
  read_frame-Keeps c cfg j none now range h = h
  read_frame-Keeps c cfg j (some (err e)) now range h =
      if_elim (Keeps cfg) j.has_frame (λ _. h) (λ _. h)
  read_frame-Keeps c cfg j (some (ok bytes)) now range h =
      if_elim (Keeps cfg) j.has_frame
        (λ _. accept-Keeps cfg j (parse c bytes) now h (λ t e. parse-IsTimeline c bytes t range e))
        (λ _. h)

  pub time_out-Keeps :
      (cfg : FollowerConfig F) (j : FollowerJob F) (instant : ℕ)
      → IsJob cfg j
      → Keeps cfg (time_out j instant)
  unfolding time_out
  time_out-Keeps cfg j instant h = if_elim (Keeps cfg) _ (λ _. h) (λ _. h)

  pub asked-Keeps :
      (cfg : FollowerConfig F) (j : FollowerJob F) (probes : Probes) (reads : ProbeReads)
      → IsJob cfg j
      → IsJob cfg (finish_probe cfg (record j { probes = probes }) reads)
  unfolding finish_probe
  asked-Keeps cfg j probes reads h =
      same_links cfg j _ h (record { valid = h.sound.valid; fits = h.sound.fits }) refl refl refl
        refl refl refl
