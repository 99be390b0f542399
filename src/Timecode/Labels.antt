-- ===== src/Timecode/Labels.antt =====
-- Labels and positions: which formats exist, the range of labels and the two round trips.
use ethersync.Base.{
  ℕ, ◌+◌, ◌-◌, ◌*◌, ◌/◌, ◌<◌, ◌≤◌, ◌≡◌, ◌⊎◌, inl, inr, Bool, true, false, arith, ok, if◌then◌else◌,
  Bool-cases,
}
use native.Mathlib.Nat.{mod-eq_of_lt}
use ethersync.Base.Int.{ℤ, pos, negsuc, rem_euclid, ◌-ℤ◌}
use ethersync.Timecode.Defs.{
  FrameFormat, new_format, nominal, frames_per_day, undrop, split_label, Label, label, Position,
  from_frames, position, no_label,
}

-- A format that the constructor accepts.
abbrev pub IsFormat : FrameFormat → Type 0
IsFormat f = new_format f.numerator f.denominator f.drop_frame ≡ ok f

-- What labels depend on: the nominal rate and whether labels are dropped.
abbrev pub IsKind : ℕ → Bool → Type 0
IsKind n false = (n ≡ 24) ⊎ ((n ≡ 25) ⊎ ((n ≡ 30) ⊎ ((n ≡ 48) ⊎ ((n ≡ 50) ⊎ (n ≡ 60)))))
IsKind n true = (n ≡ 30) ⊎ (n ≡ 60)

pub nominal-IsKind : (f : FrameFormat) → IsFormat f → IsKind (nominal f) f.drop_frame
unfolding new_format nominal
nominal-IsKind f h = ground arith

pub rem_euclid-lt : (z : ℤ) (d : ℕ) → 0 < d → rem_euclid z d < d
rem_euclid-lt (pos n) d h = omega arith
rem_euclid-lt (negsuc n) d h = omega arith

-- To prove something of every kind it is enough to prove it of the eight.
IsKind-cases :
    (P : ℕ → Bool → Type 0)
    → P 24 false
      × P 25 false
      × P 30 false
      × P 48 false
      × P 50 false
      × P 60 false
      × P 30 true
      × P 60 true
    → (n : ℕ) (drop : Bool) → IsKind n drop
    → P n drop
IsKind-cases P c n false (inl e) = rw e c.0
IsKind-cases P c n false (inr (inl e)) = rw e c.1
IsKind-cases P c n false (inr (inr (inl e))) = rw e c.2
IsKind-cases P c n false (inr (inr (inr (inl e)))) = rw e c.3
IsKind-cases P c n false (inr (inr (inr (inr (inl e))))) = rw e c.4
IsKind-cases P c n false (inr (inr (inr (inr (inr e))))) = rw e c.5
IsKind-cases P c n true (inl e) = rw e c.6
IsKind-cases P c n true (inr e) = rw e c.7

abbrev dropped : ℕ → Bool → ℕ
dropped n drop = if drop then n / 15 else 0

abbrev day : ℕ → Bool → ℕ
day n drop = 86400 * n - (if drop then n / 15 * 1296 else 0)

abbrev spell : ℕ → Bool → ℕ → Label
spell n drop frame = split_label n drop (if drop then undrop n frame else frame)

-- A label exists, and counts the frames from which it was made.
record Reads (n d frame : ℕ) (l : Label) : Type 0 where
  exists : no_label n d l.hours l.minutes l.seconds l.frames ≡ false
  counts :
      ((l.hours * 60 + l.minutes) * 60 + l.seconds) * n + l.frames
      ≡ frame + d * (l.hours * 60 + l.minutes - (l.hours * 60 + l.minutes) / 10)

abbrev ReadsAll : ℕ → Bool → Type 0
ReadsAll n drop =
    (frame : ℕ) → frame < day n drop → Reads n (dropped n drop) frame (spell n drop frame)

spell-Reads : (n : ℕ) (drop : Bool) → IsKind n drop → ReadsAll n drop
unfolding undrop split_label no_label
spell-Reads = IsKind-cases ReadsAll (
  (λ frame h. ground arith),
  (λ frame h. ground arith),
  (λ frame h. ground arith),
  (λ frame h. ground arith),
  (λ frame h. ground arith),
  (λ frame h. ground arith),
  (λ frame h. ground arith),
  (λ frame h. ground arith),
)

frames_per_day-pos : (f : FrameFormat) → IsFormat f → 0 < frames_per_day f
unfolding frames_per_day
frames_per_day-pos f h =
    IsKind-cases (λ n drop. 0 < day n drop) (omega arith) (nominal f) f.drop_frame
      (nominal-IsKind f h)

label-Reads :
    (f : FrameFormat) (p : Position)
    → IsFormat f
    → Reads
        (nominal f)
        (dropped (nominal f) f.drop_frame)
        (rem_euclid p.frames (frames_per_day f))
        (label f p)
unfolding label frames_per_day
label-Reads f p h =
    spell-Reads (nominal f) f.drop_frame (nominal-IsKind f h) _
      (rem_euclid-lt p.frames _ (frames_per_day-pos f h))

-- In every accepted format the label of any position, negative ones included, is a label that
-- exists, and reading it back gives the position's whole frames wrapped into one day.
pub position-label :
    (f : FrameFormat) (p : Position)
    → IsFormat f
    → position f (label f p).hours (label f p).minutes (label f p).seconds (label f p).frames
      ≡ ok (from_frames (pos (rem_euclid p.frames (frames_per_day f))))
unfolding position ◌-ℤ◌
position-label f p h = ground (arith, label-Reads f p h)

abbrev counted : ℕ → ℕ → ℕ → ℕ → ℕ → ℕ
counted n hours minutes seconds frames = ((hours * 60 + minutes) * 60 + seconds) * n + frames

abbrev skipped : ℕ → ℕ → ℕ → ℕ
skipped d hours minutes = d * (hours * 60 + minutes - (hours * 60 + minutes) / 10)

-- A label that exists is the label of the frames that it counts, and they lie in the day.
record Spells (n : ℕ) (drop : Bool) (hours minutes seconds frames : ℕ) : Type 0 where
  fits : skipped (dropped n drop) hours minutes ≤ counted n hours minutes seconds frames
  in_day :
      counted n hours minutes seconds frames - skipped (dropped n drop) hours minutes < day n drop
  back :
      spell n drop (counted n hours minutes seconds frames - skipped (dropped n drop) hours minutes)
      ≡ record {
        hours = hours;
        minutes = minutes;
        seconds = seconds;
        frames = frames;
        drop_frame = drop;
      }

abbrev SpellsAll : ℕ → Bool → Type 0
SpellsAll n drop =
    (hours minutes seconds frames : ℕ)
    → no_label n (dropped n drop) hours minutes seconds frames ≡ false
    → Spells n drop hours minutes seconds frames

no_label-Spells : (n : ℕ) (drop : Bool) → IsKind n drop → SpellsAll n drop
unfolding undrop split_label no_label
no_label-Spells = IsKind-cases SpellsAll (
  (λ h m s r e. ground arith),
  (λ h m s r e. ground arith),
  (λ h m s r e. ground arith),
  (λ h m s r e. ground arith),
  (λ h m s r e. ground arith),
  (λ h m s r e. ground arith),
  (λ h m s r e. ground arith),
  (λ h m s r e. ground arith),
)

position-eq-ok :
    (f : FrameFormat) (hours minutes seconds frames : ℕ) (p : Position)
    → position f hours minutes seconds frames ≡ ok p
    → let d = dropped (nominal f) f.drop_frame in
      (no_label (nominal f) d hours minutes seconds frames ≡ false)
      × (p
          ≡ from_frames (
              pos (counted (nominal f) hours minutes seconds frames)
              -ℤ pos (skipped d hours minutes)))
unfolding position
position-eq-ok f hours minutes seconds frames p e =
    elim (Bool-cases
      (no_label (nominal f) (dropped (nominal f) f.drop_frame) hours minutes seconds frames)) [
        | inl bad ↦ absurd (cc (rw bad at e))
        | inr good ↦ (good, cc (rw good at e))
      ]

label-pos :
    (f : FrameFormat) (m : ℕ)
    → m < day (nominal f) f.drop_frame
    → label f (from_frames (pos m)) ≡ spell (nominal f) f.drop_frame m
unfolding label frames_per_day
label-pos f m h = rw (mod-eq_of_lt h)

sub-pos : (a b : ℕ) → b ≤ a → pos a -ℤ pos b ≡ pos (a - b)
unfolding ◌-ℤ◌
sub-pos a b h = ground arith

-- Every label that a format reads is the label of the position that was read.
pub label-position :
    (f : FrameFormat) (hours minutes seconds frames : ℕ) (p : Position)
    → IsFormat f
    → position f hours minutes seconds frames ≡ ok p
    → label f p ≡ record {
      hours = hours;
      minutes = minutes;
      seconds = seconds;
      frames = frames;
      drop_frame = f.drop_frame;
    }
label-position f hours minutes seconds frames p h e =
    let d : ℕ = dropped (nominal f) f.drop_frame in
    let (good, at) = position-eq-ok f hours minutes seconds frames p e in
    let r : Spells (nominal f) f.drop_frame hours minutes seconds frames =
      no_label-Spells (nominal f) f.drop_frame (nominal-IsKind f h) hours minutes seconds frames
        good in
    rw (at, sub-pos _ _ r.fits, label-pos f _ r.in_day) r.back
