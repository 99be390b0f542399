-- ===== src/Native/Stops.antt =====
-- native/src/api.rs: the stop flags of an engine's leaders and followers. A flag is a number; `strong`
-- counts the handles of it, so that a weak handle upgrades where the count is not 0. Registering and
-- the part of `shutdown` that sets the flags hold the lock of `stops`, so each is one step.
use ethersync.Base.{
  ℕ, ◌+◌, ◌-◌, ◌<◌, Bool, true, false, List, [], ◌∷◌, ◌++◌, ◌==◌, ltb, if◌then◌else◌, Result, ok,
  err,
}
use ethersync.Native.{NativeError}

pub record Engine : Type 0 where
  pub stop : Bool
  pub stops : List ℕ
  pub made : ℕ
  pub strong : ℕ → ℕ
  pub flags : ℕ → Bool

abbrev pub new_engine : Engine
new_engine = record { stop = false; stops = []; made = 0; strong = λ _. 0; flags = λ _. false }

abbrev pub update : {A : Type 0} → (ℕ → A) → ℕ → A → ℕ → A
update f id a i = if i == id then a else f i

-- `stops.retain(|s| s.upgrade().is_some())`
unfoldable pub retain_live : (ℕ → ℕ) → List ℕ → List ℕ
retain_live strong [] = []
retain_live strong (id ∷ ids) =
    let rest = retain_live strong ids in if ltb 0 (strong id) then id ∷ rest else rest

-- `Engine::register_stop`
unfoldable pub register_stop : ℕ → Engine → Result NativeError (Unit {0}) × Engine
unfolding retain_live
register_stop id e =
    if e.stop
    then (err NativeError.shutdown, e)
    else (ok tt, record e { stops = retain_live e.strong e.stops ++ id ∷ [] })

-- `Control::new`, which makes a flag with one handle.
abbrev pub new_control : Engine → Engine
new_control e = record e {
  made = e.made + 1;
  strong = update e.strong e.made 1;
  flags = update e.flags e.made false;
}

-- Dropping a control sets its flag and gives up its handle.
abbrev pub drop_control : ℕ → Engine → Engine
drop_control id e = record e {
  strong = update e.strong id (e.strong id - 1);
  flags = update e.flags id true;
}

-- `?` after the registration: the control is dropped where it is refused.
abbrev pub keep_control :
    ℕ → Result NativeError (Unit {0}) × Engine → Result NativeError (Unit {0}) × Engine
keep_control id (ok _, e) = (ok tt, e)
keep_control id (err reason, e) = (err reason, drop_control id e)

-- `Engine::leader` and `follower`, from the control to its registration.
unfoldable pub open_control : Engine → Result NativeError (Unit {0}) × Engine
unfolding register_stop
open_control e = keep_control e.made (register_stop e.made (new_control e))

-- `for stop in stops.iter().filter_map(|s| s.upgrade()) { stop.store(true, ..) }`
unfoldable pub set_flags : (ℕ → ℕ) → List ℕ → (ℕ → Bool) → ℕ → Bool
set_flags strong [] flags = flags
set_flags strong (id ∷ ids) flags =
    set_flags strong ids (if ltb 0 (strong id) then update flags id true else flags)

-- `Engine::shutdown`, while it holds the lock of the flags.
unfoldable pub shutdown : Engine → Engine
unfolding set_flags
shutdown e = record e { stop = true; flags = set_flags e.strong e.stops e.flags }

-- What the threads of the program do with an engine, in any order: open a control, take another handle
-- of a flag or give one up, set a flag (the shutdown of a control), drop a control, shut down.
pub data Step : Engine → Engine → Type 0 where
  opens : (e : Engine) → Step e (open_control e).1
  clones :
      (e : Engine) (id : ℕ)
      → 0 < e.strong id
      → Step e (record e { strong = update e.strong id (e.strong id + 1) })
  releases :
      (e : Engine) (id : ℕ) → Step e (record e { strong = update e.strong id (e.strong id - 1) })
  stops : (e : Engine) (id : ℕ) → Step e (record e { flags = update e.flags id true })
  drops : (e : Engine) (id : ℕ) → Step e (drop_control id e)
  shuts : (e : Engine) → Step e (shutdown e)

pub data Reach : Engine → Type 0 where
  fresh : Reach new_engine
  next : {e f : Engine} → Reach e → Step e f → Reach f
