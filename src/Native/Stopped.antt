-- ===== src/Native/Stopped.antt =====
-- native/src/api.rs: once an engine has stopped, every leader and follower that is held is told.
use ethersync.Base.{
  ℕ, ◌+◌, ◌-◌, ◌≤◌, ◌<◌, ◌≡◌, refl, Bool, true, false, List, [], ◌∷◌, ◌++◌, ◌==◌, ltb,
  if◌then◌else◌, Result, arith, Bool-cases, ◌⊎◌, inl, inr, ==_iff, if_elim,
}
use ethersync.Native.{NativeError}
use ethersync.Transport.Shared.{parked}
use ethersync.Transport.Tables.{parked-append_left, parked-append_right}
use ethersync.Native.Stops.{
  Engine, update, retain_live, register_stop, new_control, drop_control, keep_control, open_control,
  set_flags, shutdown, Step, opens, clones, releases, stops, drops, shuts, Reach, fresh, next,
}

record IsSound (e : Engine) : Type 0 where
  unmade : (id : ℕ) → e.made ≤ id → e.strong id ≡ 0
  listed : (id : ℕ) → 0 < e.strong id → parked id e.stops ≡ true
  told : e.stop ≡ true → (id : ℕ) → 0 < e.strong id → e.flags id ≡ true

retain_live-parked :
    (strong : ℕ → ℕ) (id : ℕ) (ids : List ℕ)
    → 0 < strong id
    → parked id ids ≡ true
    → parked id (retain_live strong ids) ≡ true
unfolding retain_live parked
retain_live-parked strong id [] l h = cc
retain_live-parked strong id (i ∷ ids) l h =
    ground (arith, ==_iff i id, retain_live-parked strong id ids l)

set_flags-keeps :
    (strong : ℕ → ℕ) (ids : List ℕ) (flags : ℕ → Bool) (id : ℕ)
    → flags id ≡ true
    → set_flags strong ids flags id ≡ true
unfolding set_flags
set_flags-keeps strong [] flags id h = h
set_flags-keeps strong (i ∷ ids) flags id h =
    set_flags-keeps strong ids (if ltb 0 (strong i) then update flags i true else flags) id
      (if_elim (λ (f : ℕ → Bool). f id ≡ true) (ltb 0 (strong i)) (λ _. ground arith) (λ _. h))

set_flags-parked :
    (strong : ℕ → ℕ) (ids : List ℕ) (flags : ℕ → Bool) (id : ℕ)
    → 0 < strong id
    → parked id ids ≡ true
    → set_flags strong ids flags id ≡ true
unfolding set_flags parked
set_flags-parked strong [] flags id l h = cc
set_flags-parked strong (i ∷ ids) flags id l h = elim (Bool-cases (i == id)) [
  | inl same ↦
      set_flags-keeps strong ids (if ltb 0 (strong i) then update flags i true else flags) id
        (ground (arith, ==_iff i id))
  | inr different ↦ set_flags-parked strong ids _ id l (rw different at h)
]

-- A change of one count makes no handle where there was none.
living :
    (strong : ℕ → ℕ) (id n i : ℕ)
    → (n ≡ 0) ⊎ (0 < strong id)
    → 0 < update strong id n i
    → 0 < strong i
living strong id n i h l = ground (arith, ==_iff id i)

told_more : (flags : ℕ → Bool) (id i : ℕ) → flags i ≡ true → update flags id true i ≡ true
told_more flags id i h = ground (arith, ==_iff id i)

-- Counts that change so, and flags that are set, keep an engine sound.
counts-IsSound :
    (e : Engine) (id n : ℕ)
    → (n ≡ 0) ⊎ (0 < e.strong id)
    → IsSound e
    → IsSound (record e { strong = update e.strong id n })
counts-IsSound e id n h s = record {
  unmade = λ i l. ground (arith, s.unmade i l, s.unmade id, ==_iff id i);
  listed = λ i l. s.listed i (living e.strong id n i h l);
  told = λ t i l. s.told t i (living e.strong id n i h l);
}

flags-IsSound :
    (e : Engine) (id : ℕ) → IsSound e → IsSound (record e { flags = update e.flags id true })
flags-IsSound e id s = record {
  unmade = s.unmade;
  listed = s.listed;
  told = λ t i l. told_more e.flags id i (s.told t i l);
}

one_less : (n : ℕ) → (n - 1 ≡ 0) ⊎ (0 < n)
one_less n = elim (Bool-cases (ltb 0 n)) [ inl h ↦ inr (ground arith) | inr h ↦ inl (ground arith) ]

drop_control-IsSound : (e : Engine) (id : ℕ) → IsSound e → IsSound (drop_control id e)
drop_control-IsSound e id s =
    flags-IsSound (record e { strong = update e.strong id (e.strong id - 1) }) id
      (counts-IsSound e id (e.strong id - 1) (one_less (e.strong id)) s)

-- A handle is the new one, or one that there was.
new_living :
    (strong : ℕ → ℕ) (made i n : ℕ) → 0 < update strong made n i → (made ≡ i) ⊎ (0 < strong i)
new_living strong made i n l = ground (arith, ==_iff made i)

given_up : (strong : ℕ → ℕ) (made i : ℕ) → 0 < update (update strong made 1) made 0 i → 0 < strong i
given_up strong made i l = ground (arith, ==_iff made i)

beyond : (strong : ℕ → ℕ) (made i n : ℕ) → made + 1 ≤ i → strong i ≡ 0 → update strong made n i ≡ 0
beyond strong made i n l h = ground (arith, ==_iff made i)

kept_flag :
    (flags : ℕ → Bool) (made i : ℕ)
    → flags i ≡ true
    → update (update flags made false) made true i ≡ true
kept_flag flags made i h = ground (arith, ==_iff made i)

refused-IsSound :
    (e : Engine) → IsSound e → e.stop ≡ true → IsSound (drop_control e.made (new_control e))
refused-IsSound e s stopped =
    let count = update e.strong e.made 1 e.made - 1 in
    let zero_left : count ≡ 0 = ground (arith, ==_iff e.made e.made) in
    record {
      unmade = λ i l.
          beyond (update e.strong e.made 1) e.made i count l
            (beyond e.strong e.made i 1 l (s.unmade i (omega arith)));
      listed = λ i l. s.listed i (given_up e.strong e.made i (rw zero_left at l));
      told = λ t i l.
          kept_flag e.flags e.made i (s.told t i (given_up e.strong e.made i (rw zero_left at l)));
    }

registered-IsSound :
    (e : Engine)
    → IsSound e
    → e.stop ≡ false
    → IsSound (record (new_control e) {
      stops = retain_live (update e.strong e.made 1) e.stops ++ e.made ∷ [];
    })
registered-IsSound e s running = record {
  unmade = λ i l. beyond e.strong e.made i 1 l (s.unmade i (omega arith));
  listed = λ i l. elim (new_living e.strong e.made i 1 l) [
    | inl same ↦
        parked-append_right i (retain_live (update e.strong e.made 1) e.stops) (e.made ∷ [])
          (unfold parked in ground (arith, ==_iff e.made i))
    | inr old ↦
        parked-append_left i (retain_live (update e.strong e.made 1) e.stops) (e.made ∷ [])
          (retain_live-parked (update e.strong e.made 1) i e.stops l (s.listed i old))
  ];
  told = λ t i l. absurd (ground arith);
}

-- A new control is in the list, or was given up where the engine had stopped.
open_control-IsSound : (e : Engine) → IsSound e → IsSound (open_control e).1
unfolding open_control register_stop
open_control-IsSound e s =
    if_elim (λ (r : Result NativeError (Unit {0}) × Engine). IsSound (keep_control e.made r).1)
      e.stop (refused-IsSound e s) (registered-IsSound e s)

shutdown-IsSound : (e : Engine) → IsSound e → IsSound (shutdown e)
unfolding shutdown
shutdown-IsSound e s = record {
  unmade = s.unmade;
  listed = s.listed;
  told = λ t i l. set_flags-parked e.strong e.stops e.flags i l (s.listed i l);
}

Step-IsSound : {e f : Engine} → Step e f → IsSound e → IsSound f
Step-IsSound (opens e) s = open_control-IsSound e s
Step-IsSound (clones e id l) s = counts-IsSound e id (e.strong id + 1) (inr l) s
Step-IsSound (releases e id) s = counts-IsSound e id (e.strong id - 1) (one_less (e.strong id)) s
Step-IsSound (stops e id) s = flags-IsSound e id s
Step-IsSound (drops e id) s = drop_control-IsSound e id s
Step-IsSound (shuts e) s = shutdown-IsSound e s

Reach-IsSound : {e : Engine} → Reach e → IsSound e
Reach-IsSound fresh = record {
  unmade = λ i l. refl;
  listed = λ i l. absurd (omega arith);
  told = λ t i l. absurd (omega arith);
}
Reach-IsSound (next r st) = Step-IsSound st (Reach-IsSound r)

-- Whatever the threads do and in whatever order: once the engine has stopped, the stop flag of every
-- leader and follower that anyone still holds is set, also of one that was being registered meanwhile.
pub Reach-told :
    (e : Engine) → Reach e → e.stop ≡ true → (id : ℕ) → 0 < e.strong id → e.flags id ≡ true
Reach-told e r stopped id l = (Reach-IsSound r).told stopped id l
