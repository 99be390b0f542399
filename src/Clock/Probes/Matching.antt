-- ===== src/Clock/Probes/Matching.antt =====
-- Laws of protocol/src/probes.rs: which echoes are matched.
use ethersync.Base.{
  ℕ, ◌+◌, ◌-◌, ◌%◌, ◌≤◌, ◌<◌, ◌≡◌, ◌≢◌, inl, inr, sym, ap, ◌∙◌, refl, false, not, ◌||◌, Option,
  none, some, List, ltb, ◌==◌, get_or, set, Result, ok, err, ok_or, refuse-eq-ok, >>=-eq-ok, arith,
  length, length-set, get_or-set_self, get_or-set_ne, get_or-replicate, Bool-cases, if_elim,
}
use ethersync.Timecode.Defs.{Error, invalid, size, version, decode}
use ethersync.Wire.Messages.{Bytes, Probe}
use ethersync.Wire.Validate.{
  Codec, encode, decode_probe, bad_probe, i64_max, protocol_version, max_message,
}
use ethersync.Clock.Defs.{Exchange, max_exchange_ns, u64_max}
use ethersync.Clock.Admission.{IsExchange}
use ethersync.Clock.Probes.{
  Probes, default_probes, slot_of, request, unmatched, match_reply, answer,
}

-- A slot is free, or it holds one of the last 128 requests, in its own place.
abbrev pub IsSlot : ℕ → ℕ → ℕ × ℕ → Type 0
IsSlot newest i slot =
    (slot.0 ≢ 0) → (slot.0 % 128 ≡ i) × (slot.0 ≤ newest) × (newest < slot.0 + 128)

pub record IsProbes (p : Probes) : Type 0 where
  pub slots : length p.outstanding ≡ 128
  pub each : (i : ℕ) → i < 128 → IsSlot p.sequence i (get_or p.outstanding i (0, 0))

pub default_probes-IsProbes : IsProbes default_probes
unfolding default_probes
default_probes-IsProbes = record {
  slots = refl;
  each = λ i h k. absurd (k (ap (λ (x : ℕ × ℕ). x.0) (get_or-replicate 128 i (0, 0))));
}

pub mod_128 : (n : ℕ) → n % 128 < 128
mod_128 n = omega arith

-- Writing slot i with a slot that may stand there keeps the others.
set-each :
    (newest i : ℕ) (slot : ℕ × ℕ) (xs : List (ℕ × ℕ))
    → length xs ≡ 128
    → IsSlot newest i slot
    → ((j : ℕ) → j < 128 → i ≢ j → IsSlot newest j (get_or xs j (0, 0)))
    → (j : ℕ) → j < 128
    → IsSlot newest j (get_or (set xs i slot) j (0, 0))
set-each newest i slot xs h hs hx j hj = elim (Bool-cases (i == j)) [
  | inl e ↦
      let same : i ≡ j = ground arith in
      let read = get_or-set_self xs i slot (0, 0) (omega (arith, h, hj, same)) in
      rw (sym same, read) hs
  | inr e ↦
      let other : i ≢ j = ground arith in
      rw (get_or-set_ne xs i j slot (0, 0) other) (hx j hj other)
]

-- A new request takes the place of the one 128 requests before it.
IsSlot-suc :
    (newest j : ℕ) (slot : ℕ × ℕ)
    → (newest + 1) % 128 ≢ j
    → IsSlot newest j slot
    → IsSlot (newest + 1) j slot
IsSlot-suc newest j slot other h k = let (a, b, c) = h k in (a, omega arith, omega arith)

pub encode-of_small :
    (c : Codec Probe) (m : Probe)
    → length (c.encode_to_vec m) ≤ max_message
    → encode c m ≡ ok (c.encode_to_vec m)
unfolding encode
encode-of_small c m h = ground arith

pub request-IsProbes :
    (c : Codec Probe) (p : Probes) (now : ℕ)
    → ((m : Probe) → length (c.encode_to_vec m) ≤ max_message)
    → IsProbes p
    → IsProbes (request c p now).1
unfolding request
request-IsProbes c p now small h =
    let n = p.sequence + 1 in
    let message : Probe = record { version = 1; sequence = n; t1 = now; t2 = 0; t3 = 0 } in
    if_elim (λ (r : Result Error Bytes × Probes). IsProbes r.1) (ltb i64_max now) (λ _. h)
      (λ _.
        if_elim (λ (r : Result Error Bytes × Probes). IsProbes r.1) (ltb u64_max n) (λ _. h)
          (λ _. rw (encode-of_small c message (small message)) (record {
            slots = length-set p.outstanding (n % 128) (n, now) ∙ h.slots;
            each =
                set-each n (n % 128) (n, now) p.outstanding h.slots
                  (λ _. (refl, omega arith, omega arith))
                  (λ j hj other.
                    IsSlot-suc p.sequence j (get_or p.outstanding j (0, 0)) other (h.each j hj));
          })))

pub match_reply-IsProbes :
    (p : Probes) (m : Probe) (now : ℕ) → IsProbes p → IsProbes (match_reply p m now).1
unfolding match_reply
match_reply-IsProbes p m now h =
    let P : Option Exchange × Probes → Type 0 = λ r. IsProbes r.1 in
    let i = m.sequence % 128 in
    let slots = length-set p.outstanding i (0, 0) ∙ h.slots in
    let each =
      set-each p.sequence i (0, 0) p.outstanding h.slots (λ k. absurd (k refl))
        (λ j hj _. h.each j hj) in
    if_elim P (unmatched p m) (λ _. h)
      (λ _.
        if_elim P (ltb now m.t1 || ltb (now - m.t1) (m.t3 - m.t2)) (λ _. h)
          (λ _.
            if_elim P (ltb max_exchange_ns (now - m.t1))
              (λ _. record { slots = slots; each = each })
              (λ _. record { slots = slots; each = each })))

pub match_reply-IsExchange :
    (p : Probes) (m : Probe) (now : ℕ) (e : Exchange)
    → bad_probe m ≡ false
    → now ≤ i64_max
    → (match_reply p m now).0 ≡ some e
    → IsExchange e
unfolding match_reply bad_probe
match_reply-IsExchange p m now e h hn he = ground arith

-- A decoded probe has passed the checks.
pub decode_probe-eq-ok :
    (c : Codec Probe) (bytes : Bytes) (m : Probe)
    → decode_probe c bytes ≡ ok m
    → bad_probe m ≡ false
unfolding decode_probe
decode_probe-eq-ok c bytes m h =
    let (_, h1) = refuse-eq-ok (ltb max_message (length bytes)) size _ h in
    let (p, _, h2) = >>=-eq-ok (ok_or (c.decode_message bytes) decode) _ h1 in
    let (_, h3) = refuse-eq-ok (not (p.version == protocol_version)) (version p.version) _ h2 in
    let (good, same) = refuse-eq-ok (bad_probe p) (invalid "probe") (ok p) h3 in cc

-- An echo that yields an exchange was decoded and matched.
pub answer-eq-some :
    (p : Probes) (r : Result Error Probe) (now : ℕ) (e : Exchange)
    → (answer p r now).0 ≡ ok (some e)
    → (m : Probe) × (r ≡ ok m) × ((match_reply p m now).0 ≡ some e)
unfolding answer
answer-eq-some p (err x) now e h = cc
answer-eq-some p (ok m) now e h = (m, refl, (cc))

-- A matched echo frees the slot of its request.
pub match_reply-frees :
    (p : Probes) (m : Probe) (now : ℕ) (e : Exchange)
    → length p.outstanding ≡ 128
    → (match_reply p m now).0 ≡ some e
    → slot_of (match_reply p m now).1 m.sequence ≡ (0, 0)
unfolding match_reply
match_reply-frees p m now e n h =
    let freed =
      get_or-set_self p.outstanding (m.sequence % 128) (0, 0) (0, 0)
        (omega (arith, n, mod_128 m.sequence)) in
    ground arith

pub match_reply-free :
    (p : Probes) (m : Probe) (now : ℕ)
    → (slot_of p m.sequence).0 ≡ 0
    → (match_reply p m now).0 ≡ none
unfolding match_reply unmatched
match_reply-free p m now h = ground arith
