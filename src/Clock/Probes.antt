-- ===== src/Clock/Probes.antt =====
-- protocol/src/probes.rs: the requests sent and not yet answered, in 128 slots.
pub mod Matching
pub mod Replies
use ethersync.Base.{
  ℕ, ◌+◌, ◌-◌, ◌%◌, Bool, true, false, not, ◌&&◌, ◌||◌, Option, none, some, List, ltb, leb, ◌==◌,
  if◌then◌else◌, get_or, set, replicate, Result, ok, err,
}
use ethersync.Timecode.Defs.{Error, invalid}
use ethersync.Wire.Messages.{Bytes, Probe}
use ethersync.Wire.Validate.{Codec, encode, decode_probe, i64_max, protocol_version}
use ethersync.Clock.Defs.{Exchange, max_exchange_ns, u64_max}

pub record Probes : Type 0 where
  -- The sequence number and the time of the request in each slot.
  pub outstanding : List (ℕ × ℕ)
  pub sequence : ℕ
  pub publication : List (Option ℕ)
  pub last_publication : Option ℕ

unfoldable pub default_probes : Probes
default_probes = record {
  outstanding = replicate 128 (0, 0);
  sequence = 0;
  publication = replicate 128 none;
  last_publication = none;
}

abbrev pub slot_of : Probes → ℕ → ℕ × ℕ
slot_of p n = get_or p.outstanding (n % 128) (0, 0)

unfoldable pub request : Codec Probe → Probes → ℕ → Result Error Bytes × Probes
request c p now =
    let n = p.sequence + 1 in
    let counted = record p { sequence = n } in
    let message : Probe = record { version = 1; sequence = n; t1 = now; t2 = 0; t3 = 0 } in
    if ltb i64_max now
    then (err (invalid "timestamp"), p)
    else if ltb u64_max n
    then (err (invalid "probe sequence exhausted"), p)
    else elim (encode c message) [
      | err e ↦ (err e, counted)
      | ok bytes ↦ (
        ok bytes,
        record counted {
          publication = set p.publication (n % 128) none;
          outstanding = set p.outstanding (n % 128) (n, now);
        },
      )
    ]

-- `checked_sub`
abbrev pub checked_sub : ℕ → ℕ → Option ℕ
checked_sub a b = if ltb a b then none else some (a - b)

unfoldable pub publication_finished : Probes → ℕ → Probes
publication_finished p now =
    let slot = slot_of p p.sequence in
    if (slot.0 == p.sequence) && not (p.sequence == 0)
    then record p { publication = set p.publication (p.sequence % 128) (checked_sub now slot.1) }
    else p

-- The echo does not answer the request in its slot.
unfoldable pub unmatched : Probes → Probe → Bool
unmatched p m =
    let slot = slot_of p m.sequence in
    (m.sequence == 0) || (not (slot.0 == m.sequence) || not (slot.1 == m.t1)) || (m.t2 == 0)

-- The part of `reply` after the decoding, with `last_publication` cleared.
unfoldable pub match_reply : Probes → Probe → ℕ → Option Exchange × Probes
unfolding unmatched
match_reply p m now =
    let taken = record p { outstanding = set p.outstanding (m.sequence % 128) (0, 0) } in
    if unmatched p m
    then (none, p)
    else if ltb now m.t1 || ltb (now - m.t1) (m.t3 - m.t2)
    then (none, p)
    else if ltb max_exchange_ns (now - m.t1)
    then (none, taken)
    else (
      some (record { t1 = m.t1; t2 = m.t2; t3 = m.t3; t4 = now }),
      record taken { last_publication = get_or p.publication (m.sequence % 128) none },
    )

-- What follows the decoding.
unfoldable pub answer : Probes → Result Error Probe → ℕ → Result Error (Option Exchange) × Probes
unfolding match_reply
answer p (err e) now = (err e, p)
answer p (ok m) now = (ok (match_reply p m now).0, (match_reply p m now).1)

unfoldable pub reply : Codec Probe → Probes → Bytes → ℕ → Result Error (Option Exchange) × Probes
unfolding answer
reply c p bytes now = answer (record p { last_publication = none }) (decode_probe c bytes) now
