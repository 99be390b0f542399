-- ===== src/Timeline/Accept.antt =====
-- What `from_wire` accepts: a valid timeline, and it never panics.
use ethersync.Base.{
  ℕ, zero, suc, ◌≤◌, ◌<◌, ◌≡◌, ◌≢◌, refl, ap, inl, inr, ◌||◌, Option, none, some, List, [], ◌∷◌,
  arith, ltb, leb, length, take, replicate, length-replicate, Result, ok, ◌>>◌, refuse, >>=-eq-ok,
  refuse-eq-ok, Option-cases, Bool-cases, ltb_false→le,
}
use ethersync.Base.Int.{InSigned}
use ethersync.Timecode.Defs.{Error, invalid}
use ethersync.Timecode.Motion.{new_rate, unit}
use ethersync.Timecode.Rates.{new_rate-IsRate}
use ethersync.Wire.Messages.{PositionMessage, RateMessage, AnchorMessage, ChangeMessage}
use ethersync.Wire.Validate.{i64_max, validate_anchor, validate_schedule}
use ethersync.Timeline.Defs.{Anchor, Scheduled, default_scheduled}
use ethersync.Timeline.Convert.{anchor_from_wire, fill_slots}
use ethersync.Timeline.Schedule.{IsAnchor, Ascending}

-- The ranges of the message fields' own types, `sint64` and `fixed32`.
abbrev pub PositionInRange : Option PositionMessage → Type 0
PositionInRange none = Unit
PositionInRange (some p) = InSigned 63 p.frames × (p.subframe < unit)

abbrev pub AnchorInRange : Option AnchorMessage → Type 0
AnchorInRange none = Unit
AnchorInRange (some a) = PositionInRange a.position

abbrev pub ScheduleInRange : List ChangeMessage → Type 0
ScheduleInRange [] = Unit
ScheduleInRange (c ∷ cs) = AnchorInRange c.anchor × ScheduleInRange cs

-- A message that passes `validate_anchor` converts, to a valid anchor at the same time.
pub record Converts (m : AnchorMessage) : Type 0 where
  pub anchor : Anchor
  pub converts : anchor_from_wire m ≡ ok anchor
  pub same_time : anchor.time_ns ≡ m.time_ns
  pub valid : IsAnchor anchor

abbrev pub anchor_message : ℕ → Option PositionMessage → Option RateMessage → AnchorMessage
anchor_message time p r = record { time_ns = time; position = p; rate = r }

pub convert_anchor :
    (time : ℕ) (p : Option PositionMessage) (r : Option RateMessage)
    → PositionInRange p
    → validate_anchor (anchor_message time p r) ≡ ok tt
    → Converts (anchor_message time p r)
unfolding validate_anchor anchor_from_wire
convert_anchor time none r h e = absurd (elim (Bool-cases (ltb i64_max time)) [
  | inl bad ↦ cc (rw bad at e)
  | inr good ↦ cc (rw good at e)
])
convert_anchor time (some p) none h e = absurd (elim (Bool-cases (ltb i64_max time)) [
  | inl bad ↦ cc (rw bad at e)
  | inr good ↦ cc (rw good at e)
])
convert_anchor time (some p) (some r) h e = elim (Bool-cases (ltb i64_max time)) [
  | inl bad ↦ absurd (cc (rw bad at e))
  | inr good ↦
      let (rate, made, _) =
        >>=-eq-ok (new_rate r.numerator r.denominator) (λ _. ok tt) (rw good at e) in
      record {
        anchor = record {
          time_ns = time;
          position = record { frames = p.frames; subframe = p.subframe };
          rate = rate;
        };
        converts = rw made;
        same_time = refl;
        valid = record {
          time_in = ltb_false→le _ _ good;
          position_in = record { frames_in = h.0; subframe_in = h.1 };
          rate_in = (new_rate-IsRate _ _ rate made).0;
        };
      }
]

-- The changes of a message that passes `validate_schedule` fill the slots in ascending order.
pub record Fills (n time disc : ℕ) (cs : List ChangeMessage) : Type 0 where
  pub slots : List Scheduled
  pub fills : fill_slots (replicate n default_scheduled) cs ≡ ok slots
  pub all_there : length slots ≡ n
  pub ascending : Ascending time disc (take (length cs) slots)

fill-nil : (n time disc : ℕ) → Fills n time disc []
unfolding fill_slots
fill-nil zero time disc = record { slots = []; fills = refl; all_there = refl; ascending = tt }
fill-nil (suc n) time disc = record {
  slots = replicate (suc n) default_scheduled;
  fills = refl;
  all_there = length-replicate (suc n) default_scheduled;
  ascending = tt;
}

abbrev schedule_tail :
    ℕ → ℕ → ChangeMessage → List ChangeMessage → AnchorMessage → Result Error (Unit {0})
schedule_tail time disc c cs m = do
  refuse (leb m.time_ns time || leb c.discontinuity disc) (invalid "schedule order")
  validate_schedule m.time_ns c.discontinuity cs

schedule_head :
    (time disc : ℕ) (c : ChangeMessage) (cs : List ChangeMessage) (m : AnchorMessage)
    → c.anchor ≡ some m
    → validate_schedule time disc (c ∷ cs) ≡ ok tt
    → (validate_anchor m ≡ ok tt)
      × (time < m.time_ns)
      × (disc < c.discontinuity)
      × (validate_schedule m.time_ns c.discontinuity cs ≡ ok tt)
unfolding validate_schedule
schedule_head time disc c cs m has e =
    let (_, valid, rest) =
      >>=-eq-ok (validate_anchor m) (λ _. schedule_tail time disc c cs m) (rw has at e) in
    let (ordered, tail) =
      refuse-eq-ok (leb m.time_ns time || leb c.discontinuity disc) (invalid "schedule order")
        (validate_schedule m.time_ns c.discontinuity cs) rest in
    (valid, ground arith, ground arith, tail)

schedule_has_anchor :
    (time disc : ℕ) (c : ChangeMessage) (cs : List ChangeMessage)
    → validate_schedule time disc (c ∷ cs) ≡ ok tt
    → c.anchor ≢ none
unfolding validate_schedule
schedule_has_anchor time disc c cs e lacks = cc (rw lacks at e)

fill_head :
    (n : ℕ) (c : ChangeMessage) (cs : List ChangeMessage) (m : AnchorMessage) (a : Anchor)
    (slots : List Scheduled)
    → c.anchor ≡ some m
    → anchor_from_wire m ≡ ok a
    → fill_slots (replicate n default_scheduled) cs ≡ ok slots
    → fill_slots (replicate (suc n) default_scheduled) (c ∷ cs)
      ≡ ok (record { discontinuity = c.discontinuity; anchor = a } ∷ slots)
unfolding fill_slots
fill_head n c cs m a slots has made rest = rw (has, made, rest)

pub fill_schedule :
    (n time disc : ℕ) (cs : List ChangeMessage)
    → ScheduleInRange cs
    → length cs ≤ n
    → validate_schedule time disc cs ≡ ok tt
    → Fills n time disc cs
fill_schedule n time disc [] h le e = fill-nil n time disc
fill_schedule zero time disc (c ∷ cs) h le e = absurd (omega arith)
fill_schedule (suc n) time disc (c ∷ cs) h le e = elim (Option-cases c.anchor) [
  | inl lacks ↦ absurd (schedule_has_anchor time disc c cs e lacks)
  | inr (m, has) ↦
      let (valid, later, above, tail) = schedule_head time disc c cs m has e in
      let a = convert_anchor m.time_ns m.position m.rate (rw has at h.0) valid in
      let rest = fill_schedule n m.time_ns c.discontinuity cs h.1 (omega arith) tail in
      record {
        slots = record { discontinuity = c.discontinuity; anchor = a.anchor } ∷ rest.slots;
        fills = fill_head n c cs m a.anchor rest.slots has a.converts rest.fills;
        all_there = ap suc rest.all_there;
        ascending = (rw a.same_time later, above, a.valid, rw a.same_time rest.ascending);
      }
]
