-- ===== src/Wire/Validate.antt =====
-- protocol/src/lib.rs: `encode`, the two decoders and their checks. The encoding itself is a
-- library's (prost), and is a parameter: a `Codec` for each message type. `encoded_len` is the
-- length of what `encode_to_vec` returns.
use ethersync.Base.{
  bool_ne, ◌≡◌, ℕ, ◌-◌, ◌^◌, Bool, not, ◌&&◌, ◌||◌, Option, some, List, [], ◌∷◌, ltb, leb, ◌==◌,
  if◌then◌else◌, length, Result, ok, err, ◌>>=◌, ◌>>◌, refuse, ok_or,
}
use ethersync.Base.Int.{ℤ, pos, eqb_ℤ}
use ethersync.Timecode.Defs.{Error, invalid, version, size, decode, new_format}
use ethersync.Timecode.Motion.{new_rate}
use ethersync.Wire.Messages.{Bytes, AnchorMessage, ChangeMessage, Snapshot, Probe}

abbrev pub protocol_version : ℕ
protocol_version = 1

abbrev pub max_message : ℕ
max_message = 512

abbrev pub max_scheduled : ℕ
max_scheduled = 4

-- `i64::MAX as u64`
abbrev pub i64_max : ℕ
i64_max = 2 ^ 63 - 1

-- What prost's `Message` gives for one message type.
pub record Codec (M : Type 0) : Type 0 where
  pub encode_to_vec : M → Bytes
  pub decode_message : Bytes → Option M

-- The documented promise of prost: what was encoded decodes to the same message.
abbrev pub IsFaithful : {M : Type 0} → Codec M → Type 0
IsFaithful {M} c = (m : M) → c.decode_message (c.encode_to_vec m) ≡ some m

unfoldable pub encode : {M : Type 0} → Codec M → M → Result Error Bytes
encode c m =
    let bytes = c.encode_to_vec m in if ltb max_message (length bytes) then err size else ok bytes

unfoldable pub validate_anchor : AnchorMessage → Result Error (Unit {0})
validate_anchor a = do
  refuse (ltb i64_max a.time_ns) (invalid "timestamp")
  _ ← ok_or a.position (invalid "position missing")
  r ← ok_or a.rate (invalid "rate missing")
  _ ← new_rate r.numerator r.denominator
  ok tt

-- The loop over the scheduled changes, with its two variables.
unfoldable pub validate_schedule : ℕ → ℕ → List ChangeMessage → Result Error (Unit {0})
validate_schedule time disc [] = ok tt
validate_schedule time disc (c ∷ cs) = do
  a ← ok_or c.anchor (invalid "scheduled anchor missing")
  validate_anchor a
  refuse (leb a.time_ns time || leb c.discontinuity disc) (invalid "schedule order")
  validate_schedule a.time_ns c.discontinuity cs

-- `matches!(x, 1 | 2)`
abbrev pub is_enum : ℤ → Bool
is_enum x = eqb_ℤ x (pos 1) || eqb_ℤ x (pos 2)

unfoldable pub validate_snapshot : Snapshot → Result Error (Unit {0})
validate_snapshot s = do
  refuse (not (s.version == protocol_version)) (version s.version)
  refuse (not (length s.session == 16) || (s.revision == 0)) (invalid "identity/revision")
  refuse (not (length s.session_id == 0) && not (length s.session_id == 16))
      (invalid "recording session ID")
  refuse (not (is_enum s.source_kind) || not (is_enum s.source_health)) (invalid "source enum")
  f ← ok_or s.format (invalid "format missing")
  _ ← new_format f.numerator f.denominator f.drop_frame
  a ← ok_or s.anchor (invalid "anchor missing")
  validate_anchor a
  refuse (ltb max_scheduled (length s.scheduled)) (invalid "schedule capacity")
  validate_schedule a.time_ns s.discontinuity s.scheduled

unfoldable pub decode_snapshot : Codec Snapshot → Bytes → Result Error Snapshot
decode_snapshot c bytes = do
  refuse (ltb max_message (length bytes)) size
  s ← ok_or (c.decode_message bytes) decode
  validate_snapshot s
  ok s

-- The checks of `decode_probe` after the version.
unfoldable pub bad_probe : Probe → Bool
bad_probe p =
    (p.sequence == 0)
    || (ltb i64_max p.t1 || ltb i64_max p.t2 || ltb i64_max p.t3)
    || ltb p.t3 p.t2
    || bool_ne (p.t2 == 0) (p.t3 == 0)

unfoldable pub decode_probe : Codec Probe → Bytes → Result Error Probe
decode_probe c bytes = do
  refuse (ltb max_message (length bytes)) size
  p ← ok_or (c.decode_message bytes) decode
  refuse (not (p.version == protocol_version)) (version p.version)
  refuse (bad_probe p) (invalid "probe")
  ok p
