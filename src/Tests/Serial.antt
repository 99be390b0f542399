-- ===== src/Tests/Serial.antt =====
-- A faithful encoding of snapshots for the tests: every field in turn, lists after their length.
use ethersync.Base.{
  ℕ, zero, suc, ◌≡◌, refl, Bool, true, false, Option, none, some, List, [], ◌∷◌, length,
}
use ethersync.Base.Int.{ℤ, pos, negsuc}
use ethersync.Wire.Messages.{
  Bytes, FormatMessage, PositionMessage, RateMessage, AnchorMessage, ChangeMessage, Snapshot,
}
use ethersync.Wire.Validate.{Codec, IsFaithful}

-- `put` writes before the rest, `get` reads it back.
pub record Serial (M : Type 0) : Type 0 where
  pub put : M → Bytes → Bytes
  pub get : Bytes → Option (M × Bytes)
  pub law : (m : M) (rest : Bytes) → get (put m rest) ≡ some (m, rest)

abbrev pub then_get :
    {A B : Type 0} → Option (A × Bytes) → (A → Bytes → Option (B × Bytes)) → Option (B × Bytes)
then_get none next = none
then_get (some (a, rest)) next = next a rest

abbrev pub get_number : Bytes → Option (ℕ × Bytes)
get_number [] = none
get_number (n ∷ rest) = some (n, rest)

abbrev pub number : Serial ℕ
number = record { put = λ n rest. n ∷ rest; get = get_number; law = λ n rest. refl }

abbrev pub both : {A B : Type 0} → Serial A → Serial B → Serial (A × B)
both s t = record {
  put = λ p rest. s.put p.0 (t.put p.1 rest);
  get = λ bytes. then_get (s.get bytes) (λ a r. then_get (t.get r) (λ b q. some ((a, b), q)));
  law = λ p rest. rw (s.law p.0 (t.put p.1 rest), t.law p.1 rest) refl;
}

abbrev pub through :
    {A B : Type 0} (to : B → A) (back : A → B) → ((b : B) → back (to b) ≡ b) → Serial A → Serial B
through to back same s = record {
  put = λ b rest. s.put (to b) rest;
  get = λ bytes. then_get (s.get bytes) (λ a r. some (back a, r));
  law = λ b rest. rw (s.law (to b) rest, same b) refl;
}

abbrev pub put_option : {A : Type 0} → Serial A → Option A → Bytes → Bytes
put_option s none rest = 0 ∷ rest
put_option s (some a) rest = 1 ∷ s.put a rest

abbrev pub get_option : {A : Type 0} → Serial A → Bytes → Option (Option A × Bytes)
get_option s [] = none
get_option s (zero ∷ rest) = some (none, rest)
get_option s (suc n ∷ rest) = then_get (s.get rest) (λ a r. some (some a, r))

pub option_law :
    {A : Type 0} (s : Serial A) (o : Option A) (rest : Bytes)
    → get_option s (put_option s o rest) ≡ some (o, rest)
option_law s none rest = refl
option_law s (some a) rest = rw (s.law a rest) refl

abbrev pub optional : {A : Type 0} → Serial A → Serial (Option A)
optional s = record { put = put_option s; get = get_option s; law = option_law s }

abbrev pub put_all : {A : Type 0} → Serial A → List A → Bytes → Bytes
put_all s [] rest = rest
put_all s (a ∷ xs) rest = s.put a (put_all s xs rest)

abbrev pub get_all : {A : Type 0} → Serial A → ℕ → Bytes → Option (List A × Bytes)
get_all s zero bytes = some ([], bytes)
get_all s (suc n) bytes =
    then_get (s.get bytes) (λ a r. then_get (get_all s n r) (λ xs q. some (a ∷ xs, q)))

pub all_law :
    {A : Type 0} (s : Serial A) (xs : List A) (rest : Bytes)
    → get_all s (length xs) (put_all s xs rest) ≡ some (xs, rest)
all_law s [] rest = refl
all_law s (a ∷ xs) rest = rw (s.law a (put_all s xs rest), all_law s xs rest) refl

abbrev pub get_list : {A : Type 0} → Serial A → Bytes → Option (List A × Bytes)
get_list s [] = none
get_list s (n ∷ bytes) = get_all s n bytes

abbrev pub listed : {A : Type 0} → Serial A → Serial (List A)
listed s = record {
  put = λ xs rest. length xs ∷ put_all s xs rest;
  get = get_list s;
  law = all_law s;
}

abbrev pub of_integer : ℤ → ℕ × ℕ
of_integer (pos n) = (0, n)
of_integer (negsuc n) = (1, n)

abbrev pub to_integer : ℕ × ℕ → ℤ
to_integer (zero, n) = pos n
to_integer (suc k, n) = negsuc n

pub to_integer-of_integer : (z : ℤ) → to_integer (of_integer z) ≡ z
to_integer-of_integer (pos n) = refl
to_integer-of_integer (negsuc n) = refl

abbrev pub integer : Serial ℤ
integer = through of_integer to_integer to_integer-of_integer (both number number)

abbrev pub of_flag : Bool → ℕ
of_flag true = 1
of_flag false = 0

abbrev pub to_flag : ℕ → Bool
to_flag zero = false
to_flag (suc n) = true

pub to_flag-of_flag : (b : Bool) → to_flag (of_flag b) ≡ b
to_flag-of_flag true = refl
to_flag-of_flag false = refl

abbrev pub flag : Serial Bool
flag = through of_flag to_flag to_flag-of_flag number

abbrev pub format_serial : Serial FormatMessage
format_serial =
    through {A = ℕ × (ℕ × Bool)} (λ m. (m.numerator, (m.denominator, m.drop_frame)))
      (λ (n, (d, b)). record { numerator = n; denominator = d; drop_frame = b }) (λ m. refl)
      (both number (both number flag))

abbrev pub position_serial : Serial PositionMessage
position_serial =
    through {A = ℤ × ℕ} (λ m. (m.frames, m.subframe))
      (λ (f, s). record { frames = f; subframe = s }) (λ m. refl) (both integer number)

abbrev pub rate_serial : Serial RateMessage
rate_serial =
    through {A = ℤ × ℕ} (λ m. (m.numerator, m.denominator))
      (λ (n, d). record { numerator = n; denominator = d }) (λ m. refl) (both integer number)

abbrev pub anchor_serial : Serial AnchorMessage
anchor_serial =
    through {A = ℕ × (Option PositionMessage × Option RateMessage)}
      (λ m. (m.time_ns, (m.position, m.rate)))
      (λ (t, (p, r)). record { time_ns = t; position = p; rate = r }) (λ m. refl)
      (both number (both (optional position_serial) (optional rate_serial)))

abbrev pub change_serial : Serial ChangeMessage
change_serial =
    through {A = ℕ × Option AnchorMessage} (λ m. (m.discontinuity, m.anchor))
      (λ (d, a). record { discontinuity = d; anchor = a }) (λ m. refl)
      (both number (optional anchor_serial))

-- The fields in two groups: the numbers and the session, and the rest.
abbrev pub Fields : Type 0
Fields =
    (ℕ × (Bytes × (ℕ × (ℕ × (ℤ × ℤ)))))
    × (Option FormatMessage × (Option AnchorMessage × (List ChangeMessage × Bytes)))

abbrev pub snapshot_serial : Serial Snapshot
snapshot_serial =
    through {A = Fields}
      (λ m. (
        (m.version, (m.session, (m.revision, (m.discontinuity, (m.source_kind, m.source_health))))),
        (m.format, (m.anchor, (m.scheduled, m.session_id))),
      ))
      (λ (
        (version, (session, (revision, (discontinuity, (kind, health))))),
        (format, (anchor, (scheduled, id))),
      ).
        record {
          version = version;
          session = session;
          revision = revision;
          discontinuity = discontinuity;
          source_kind = kind;
          source_health = health;
          format = format;
          anchor = anchor;
          scheduled = scheduled;
          session_id = id;
        })
      (λ m. refl)
      (both (both number (both (listed number) (both number (both number (both integer integer)))))
        (both (optional format_serial)
          (both (optional anchor_serial) (both (listed change_serial) (listed number)))))

abbrev pub whole : Option (Snapshot × Bytes) → Option Snapshot
whole none = none
whole (some (m, rest)) = some m

abbrev pub plain : Codec Snapshot
plain = record {
  encode_to_vec = λ m. snapshot_serial.put m [];
  decode_message = λ bytes. whole (snapshot_serial.get bytes);
}

pub plain-IsFaithful : IsFaithful plain
plain-IsFaithful m = rw (snapshot_serial.law m []) refl
