-- ===== src/Clock/Probes/Replies.antt =====
-- Laws of protocol/src/probes.rs: `request` and `reply` together, through the encoding.
use ethersync.Base.{
  ℕ, ◌+◌, ◌%◌, ◌≤◌, ◌<◌, ◌≡◌, ◌⊎◌, ap, refl, false, none, some, ◌==◌, set, ok, arith, length,
  get_or-set_self, ltb-eq-false,
}
use ethersync.Wire.Messages.{Bytes, Probe}
use ethersync.Wire.Validate.{Codec, IsFaithful, decode_probe, bad_probe, i64_max, max_message}
use ethersync.Clock.Defs.{Exchange, u64_max}
use ethersync.Clock.Admission.{IsExchange}
use ethersync.Clock.Probes.{Probes, slot_of, request, unmatched, match_reply, answer, reply}
use ethersync.Clock.Probes.Matching.{
  IsProbes, match_reply-IsExchange, answer-eq-some, match_reply-frees, match_reply-free,
  decode_probe-eq-ok, encode-of_small, mod_128,
}

-- Every exchange that a reply yields may be observed: its times are ordered, within the signed
-- 64-bit clock, the leader held it no longer than its round trip, and that is at most half a second.
pub reply-IsExchange :
    (c : Codec Probe) (p : Probes) (bytes : Bytes) (now : ℕ) (e : Exchange)
    → now ≤ i64_max
    → (reply c p bytes now).0 ≡ ok (some e)
    → IsExchange e
unfolding reply
reply-IsExchange c p bytes now e hn h =
    let cleared = record p { last_publication = none } in
    let (m, d, found) = answer-eq-some cleared (decode_probe c bytes) now e h in
    match_reply-IsExchange cleared m now e (decode_probe-eq-ok c bytes m d) hn found

-- Where there are 128 slots, a reply that yielded an exchange yields nothing when it arrives
-- again, at whatever time.
pub reply_twice :
    (c : Codec Probe) (p : Probes) (bytes : Bytes) (now later : ℕ) (e : Exchange)
    → IsProbes p
    → (reply c p bytes now).0 ≡ ok (some e)
    → (reply c (reply c p bytes now).1 bytes later).0 ≡ ok none
unfolding reply answer
reply_twice c p bytes now later e hp h =
    let cleared = record p { last_publication = none } in
    let (m, d, found) = answer-eq-some cleared (decode_probe c bytes) now e h in
    let freed = match_reply-frees cleared m now e hp.slots found in
    let after = record (match_reply cleared m now).1 { last_publication = none } in
    rw d (ap ok (match_reply-free after m later (ap (λ (s : ℕ × ℕ). s.0) freed)))

-- Where each slot is free or holds one of the last 128 requests, a reply to a request that 128
-- later requests have followed yields nothing, and neither does a reply to a request that was
-- not made yet.
pub reply_evicted :
    (c : Codec Probe) (p : Probes) (bytes : Bytes) (now : ℕ) (m : Probe)
    → IsProbes p
    → decode_probe c bytes ≡ ok m
    → (m.sequence + 128 ≤ p.sequence) ⊎ (p.sequence < m.sequence)
    → (reply c p bytes now).0 ≡ ok none
unfolding reply answer match_reply unmatched
reply_evicted c p bytes now m hp d old =
    let slot = hp.each (m.sequence % 128) (mod_128 m.sequence) in rw d ground arith

-- The state after a request that succeeds.
abbrev requested : Probes → ℕ → Probes
requested p now =
    let n = p.sequence + 1 in
    record p {
      sequence = n;
      publication = set p.publication (n % 128) none;
      outstanding = set p.outstanding (n % 128) (n, now);
    }

request-eq :
    (c : Codec Probe) (p : Probes) (now : ℕ)
    → ((m : Probe) → length (c.encode_to_vec m) ≤ max_message)
    → p.sequence < u64_max
    → now ≤ i64_max
    → (request c p now).1 ≡ requested p now
unfolding request
request-eq c p now small hs hn =
    let message : Probe = record {
      version = 1;
      sequence = p.sequence + 1;
      t1 = now;
      t2 = 0;
      t3 = 0;
    } in
    rw
      (
        encode-of_small c message (small message),
        ltb-eq-false i64_max now hn,
        ltb-eq-false u64_max (p.sequence + 1) (omega arith),
      )
      refl

pub decode_probe-encode :
    (c : Codec Probe) (m : Probe)
    → IsFaithful c
    → length (c.encode_to_vec m) ≤ max_message
    → m.version ≡ 1
    → bad_probe m ≡ false
    → decode_probe c (c.encode_to_vec m) ≡ ok m
unfolding decode_probe bad_probe
decode_probe-encode c m hf small hv good =
    rw (ltb-eq-false max_message (length (c.encode_to_vec m)) small, hf m, hv, good) refl

match_reply-of_slot :
    (p : Probes) (m : Probe) (now : ℕ)
    → 0 < m.sequence
    → slot_of p m.sequence ≡ (m.sequence, m.t1)
    → 0 < m.t2
    → IsExchange (record { t1 = m.t1; t2 = m.t2; t3 = m.t3; t4 = now })
    → (match_reply p m now).0 ≡ some (record { t1 = m.t1; t2 = m.t2; t3 = m.t3; t4 = now })
unfolding match_reply unmatched
match_reply-of_slot p m now hs slot h2 he = rw slot (ground arith)

-- Where the encoding is faithful and of at most 512 bytes, and sequence numbers are left, the
-- reply to a request, echoed with the leader's times of receipt and of sending, yields the
-- exchange of the four times, if the leader's clock is not at 0 and within 63 bits, it held the
-- probe no longer than the round trip, and that is at most half a second.
pub reply-request :
    (c : Codec Probe) (p : Probes) (t1 t2 t3 t4 : ℕ)
    → IsFaithful c
    → ((m : Probe) → length (c.encode_to_vec m) ≤ max_message)
    → IsProbes p
    → p.sequence < u64_max
    → IsExchange (record { t1 = t1; t2 = t2; t3 = t3; t4 = t4 })
    → 0 < t2
    → (reply c
        (request c p t1).1
        (c.encode_to_vec
          (record { version = 1; sequence = p.sequence + 1; t1 = t1; t2 = t2; t3 = t3 }))
        t4).0
      ≡ ok (some (record { t1 = t1; t2 = t2; t3 = t3; t4 = t4 }))
unfolding reply answer bad_probe
reply-request c p t1 t2 t3 t4 hf small hp hs he h2 =
    let n = p.sequence + 1 in
    let m : Probe = record { version = 1; sequence = n; t1 = t1; t2 = t2; t3 = t3 } in
    let asked = record (requested p t1) { last_publication = none } in
    let slot =
      get_or-set_self p.outstanding (n % 128) (n, t1) (0, 0) (omega (arith, hp.slots, mod_128 n)) in
    let received : (t2 == 0) ≡ false = ground arith in
    let sent : (t3 == 0) ≡ false = ground arith in
    let good : bad_probe m ≡ false = rw (received, sent) (ground arith) in
    rw
      (
        request-eq c p t1 small hs (omega (arith, he.sent, he.t4_fits)),
        decode_probe-encode c m hf (small m) refl good,
      )
      (ap ok (match_reply-of_slot asked m t4 (omega arith) slot h2 he))
