-- ===== src/Leader/Serving.antt =====
-- native/src/network.rs: how `LeaderJob::progress` answers a probe, and what the follower that sent
-- it gets of the answer.
use ethersync.Base.{
  ℕ, ◌+◌, ◌≤◌, ◌<◌, ◌≡◌, refl, ◌⊎◌, true, false, not, ◌||◌, some, arith, length, ◌==◌, Result, ok,
  err, ◌>>=◌, ◌>>◌, refuse, ltb-eq-false,
}
use ethersync.Native.{NativeError, lift}
use ethersync.Wire.Messages.{Bytes, Probe}
use ethersync.Wire.Validate.{
  Codec, IsFaithful, encode, decode_probe, bad_probe, i64_max, max_message,
}
use ethersync.Clock.Defs.{u64_max}
use ethersync.Clock.Admission.{IsExchange}
use ethersync.Clock.Probes.{Probes, request, reply}
use ethersync.Clock.Probes.Matching.{IsProbes, encode-of_small}
use ethersync.Clock.Probes.Replies.{reply-request, decode_probe-encode}

-- The reply to the bytes of a probe: `t2` and `t3` are what the clock reads on receipt and before
-- the answer is encoded.
unfoldable pub serve_probe : Codec Probe → Bytes → ℕ → ℕ → Result NativeError Bytes
serve_probe c bytes t2 t3 = do
  p ← lift (decode_probe c bytes)
  refuse (not (p.t2 == 0) || not (p.t3 == 0))
      (NativeError.invalid "probe request includes reply timestamps")
  lift (encode c (record p { t2 = t2; t3 = t3 }))

-- The request that a follower sends.
abbrev pub asks : Probes → ℕ → Probe
asks p t1 = record { version = 1; sequence = p.sequence + 1; t1 = t1; t2 = 0; t3 = 0 }

request_bytes :
    (c : Codec Probe) (p : Probes) (t1 : ℕ)
    → ((m : Probe) → length (c.encode_to_vec m) ≤ max_message)
    → p.sequence < u64_max
    → t1 ≤ i64_max
    → (request c p t1).0 ≡ ok (c.encode_to_vec (asks p t1))
unfolding request
request_bytes c p t1 small hs hn =
    rw
      (
        encode-of_small c (asks p t1) (small (asks p t1)),
        ltb-eq-false i64_max t1 hn,
        ltb-eq-false u64_max (p.sequence + 1) (omega arith),
      )
      refl

serve_probe-asks :
    (c : Codec Probe) (p : Probes) (t1 t2 t3 : ℕ)
    → IsFaithful c
    → ((m : Probe) → length (c.encode_to_vec m) ≤ max_message)
    → t1 ≤ i64_max
    → serve_probe c (c.encode_to_vec (asks p t1)) t2 t3
      ≡ ok (c.encode_to_vec (record (asks p t1) { t2 = t2; t3 = t3 }))
unfolding serve_probe bad_probe
serve_probe-asks c p t1 t2 t3 faithful small h =
    let good : bad_probe (asks p t1) ≡ false = ground arith in
    rw
      (
        decode_probe-encode c (asks p t1) faithful (small (asks p t1)) refl good,
        encode-of_small c (record (asks p t1) { t2 = t2; t3 = t3 }) (small _),
      )
      refl

-- Where the encoding is faithful and of at most 512 bytes and sequence numbers are left: a request
-- is sent, the leader answers it with its times of receipt and of sending, and the answer yields the
-- exchange of the four times, if the leader's clock is not at 0 and within 63 bits, it held the
-- probe no longer than the round trip, and that is at most half a second.
pub serve_probe-request :
    (c : Codec Probe) (p : Probes) (t1 t2 t3 t4 : ℕ)
    → IsFaithful c
    → ((m : Probe) → length (c.encode_to_vec m) ≤ max_message)
    → IsProbes p
    → p.sequence < u64_max
    → IsExchange (record { t1 = t1; t2 = t2; t3 = t3; t4 = t4 })
    → 0 < t2
    → (asked : Bytes) × ((request c p t1).0 ≡ ok asked)
      × (answered : Bytes) × (serve_probe c asked t2 t3 ≡ ok answered)
      × ((reply c (request c p t1).1 answered t4).0
          ≡ ok (some (record { t1 = t1; t2 = t2; t3 = t3; t4 = t4 })))
serve_probe-request c p t1 t2 t3 t4 faithful small hp hs he h2 =
    let early : t1 ≤ i64_max = omega (arith, he.sent, he.t4_fits) in
    (
      c.encode_to_vec (asks p t1),
      request_bytes c p t1 small hs early,
      c.encode_to_vec (record (asks p t1) { t2 = t2; t3 = t3 }),
      serve_probe-asks c p t1 t2 t3 faithful small early,
      reply-request c p t1 t2 t3 t4 faithful small hp hs he h2,
    )

-- The leader takes no answer for a request: what decodes to a probe with a leader's time is refused.
pub serve_probe_refuses :
    (c : Codec Probe) (bytes : Bytes) (m : Probe) (t2 t3 : ℕ)
    → decode_probe c bytes ≡ ok m
    → (0 < m.t2) ⊎ (0 < m.t3)
    → serve_probe c bytes t2 t3
      ≡ err (NativeError.invalid "probe request includes reply timestamps")
unfolding serve_probe
serve_probe_refuses c bytes m t2 t3 d h =
    let bad : (not (m.t2 == 0) || not (m.t3 == 0)) ≡ true = ground arith in rw (d, bad) refl
