-- ===== src/Native/Readers.antt =====
-- native/src/api.rs: `Readers`, the publishing ends of the readers' triple buffers. A buffer
-- (triple_buffer) hands its reader what was written last; a reader is alive while a handle of it is
-- counted.
use ethersync.Base.{
  ℕ, suc, ◌≤◌, ◌<◌, ◌≡◌, refl, List, [], ◌∷◌, ◌++◌, map, ltb, leb, if◌then◌else◌, length, All,
  arith, length-append, Result, ok, err, if_elim, leb→le, ◌⊎◌, inl, inr,
}
use ethersync.Native.{NativeError}
use ethersync.Follower.View.{View}

abbrev pub reader_capacity : ℕ
reader_capacity = 64

pub record Input (F : Type 0) : Type 0 where
  pub written : View F
  pub strong_count : ℕ

module _ {F : Type 0} where
  -- `retain(|(_, alive)| alive.strong_count() > 0)`
  unfoldable pub retain_alive : List (Input F) → List (Input F)
  retain_alive [] = []
  retain_alive (i ∷ is) =
      let rest = retain_alive is in if ltb 0 i.strong_count then i ∷ rest else rest

  -- `Readers::add`, with the reply: the new reader's buffer holds the view.
  unfoldable pub add : List (Input F) → View F → Result NativeError (Input F) × List (Input F)
  unfolding retain_alive
  add inputs view =
      let live = retain_alive inputs in
      let made : Input F = record { written = view; strong_count = 1 } in
      if leb reader_capacity (length live)
      then (err NativeError.reader_limit, live)
      else (ok made, live ++ made ∷ [])

  abbrev pub write : View F → Input F → Input F
  write view i = record i { written = view }

  -- `Readers::publish`
  unfoldable pub publish : List (Input F) → View F → List (Input F)
  unfolding retain_alive
  publish inputs view = map (write view) (retain_alive inputs)

  abbrev pub IsAlive : Input F → Type 0
  IsAlive i = 0 < i.strong_count

  abbrev pub Shows : View F → Input F → Type 0
  Shows view i = (0 < i.strong_count) × (i.written ≡ view)

  retain_alive-IsAlive : (is : List (Input F)) → All IsAlive (retain_alive is)
  unfolding retain_alive
  retain_alive-IsAlive [] = tt
  retain_alive-IsAlive (i ∷ is) =
      let rest = retain_alive-IsAlive is in
      if_elim (λ (x : List (Input F)). All IsAlive x) (ltb 0 i.strong_count)
        (λ h. (ground arith, rest)) (λ _. rest)

  length-retain_alive : (is : List (Input F)) → length (retain_alive is) ≤ length is
  unfolding retain_alive
  length-retain_alive [] = omega arith
  length-retain_alive (i ∷ is) =
      let rest = length-retain_alive is in
      if_elim (λ (x : List (Input F)). length x ≤ suc (length is)) (ltb 0 i.strong_count)
        (λ h. omega arith) (λ _. omega arith)

  All-append :
      (P : Input F → Type 0) (xs ys : List (Input F)) → All P xs → All P ys → All P (xs ++ ys)
  All-append P [] ys a b = b
  All-append P (x ∷ xs) ys (p, a) b = (p, All-append P xs ys a b)

  All-map-write :
      (view : View F) (is : List (Input F))
      → All IsAlive is
      → All (Shows view) (map (write view) is)
  All-map-write view [] a = tt
  All-map-write view (i ∷ is) (p, a) = ((p, refl), All-map-write view is a)

  -- What `add` replies and leaves.
  pub record Added (inputs : List (Input F)) (view : View F)
      (r : Result NativeError (Input F) × List (Input F)) : Type 0 where
    pub alive : All IsAlive r.1
    pub at_most : length r.1 ≤ reader_capacity
    pub reply :
        ((r.0 ≡ err NativeError.reader_limit) × (length r.1 ≡ reader_capacity))
        ⊎ ((new : Input F) × (r.0 ≡ ok new)
            × Shows view new
            × (r.1 ≡ retain_alive inputs ++ new ∷ []))

  -- Adding a reader drops the abandoned ones, keeps at most 64 and refuses only where 64 live ones
  -- are left; else the new reader shows the given view.
  pub add-Added :
      (inputs : List (Input F)) (view : View F)
      → length inputs ≤ reader_capacity
      → Added inputs view (add inputs view)
  unfolding add
  add-Added inputs view few =
      let live = retain_alive inputs in
      let new : Input F = record { written = view; strong_count = 1 } in
      let le = length-retain_alive inputs in
      if_elim (Added inputs view) (leb reader_capacity (length live))
        (λ full. record {
          alive = retain_alive-IsAlive inputs;
          at_most = omega arith;
          reply = inl (refl, omega (arith, leb→le reader_capacity (length live) full));
        })
        (λ room. record {
          alive =
              All-append IsAlive live (new ∷ []) (retain_alive-IsAlive inputs) (omega arith, tt);
          at_most =
              let l : length live < 64 = ground arith in
              omega (arith, length-append live (new ∷ []));
          reply = inr (new, refl, (omega arith, refl), refl);
        })

  -- After a publication every reader that is left is alive and shows the view that was published.
  pub publish-Shows :
      (inputs : List (Input F)) (view : View F) → All (Shows view) (publish inputs view)
  unfolding publish
  publish-Shows inputs view = All-map-write view (retain_alive inputs) (retain_alive-IsAlive inputs)
