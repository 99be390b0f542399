-- ===== src/Native/Endpoints.antt =====
-- native/src/discovery.rs: what `local_endpoints` returns.
use ethersync.Base.{
  ℕ, ◌*◌, ◌^◌, ◌/◌, ◌<◌, ◌≤◌, ◌≢◌, ◌⊎◌, ◌↔◌, inl, inr, sym, Option, none, some, bool_ne,
  if◌then◌else◌, Bool-cases, not, ◌==◌, ◌≡◌, refl, ap, ◌∙◌, Bool, true, false, ◌||◌, List, [], ◌∷◌,
  arith, if_elim,
}
use ethersync.Native.Discovery.{
  IpAddr, v4, v6, is_ipv4, is_unspecified, is_multicast, is_broadcast, is_unicast_link_local,
  nonzero, endpoint_at, endpoint_of, by_family, cons_some, SocketAddr, Interface, before, family,
  number, insert_sorted, sort, same, dedup_from, dedup, candidates, local_endpoints,
}
use ethersync.Native.Endpoints.Eligible.{
  Offers, IsOffered, given, Offers-given, given-Offers, address_eq,
}
pub mod Eligible

before_asym : (a b : SocketAddr) → before a b ≡ true → before b a ≡ false
unfolding before
before_asym a b h = ground arith

same_before : (a b c : SocketAddr) → same a b ≡ true → before c a ≡ before c b
unfolding before
same_before a b c h = ground arith

same_same : (a b x : SocketAddr) → same a b ≡ true → same x a ≡ same x b
unfolding before
same_same a b x h = ground arith

-- Whether an equal address stands in a list.
abbrev pub listed : SocketAddr → List SocketAddr → Bool
listed x [] = false
listed x (a ∷ more) = same x a || listed x more

-- No address comes before the one that it follows.
abbrev NotBelow : SocketAddr → List SocketAddr → Type 0
NotBelow a [] = Unit {0}
NotBelow a (b ∷ more) = before b a ≡ false

abbrev Ordered : List SocketAddr → Type 0
Ordered [] = Unit {0}
Ordered (a ∷ more) = NotBelow a more × Ordered more

-- Each address comes before the one that follows it.
abbrev pub Below : SocketAddr → List SocketAddr → Type 0
Below a [] = Unit {0}
Below a (b ∷ more) = before a b ≡ true

abbrev pub Increasing : List SocketAddr → Type 0
Increasing [] = Unit {0}
Increasing (a ∷ more) = Below a more × Increasing more

insert_sorted-NotBelow :
    (a b : SocketAddr) (more : List SocketAddr)
    → before b a ≡ true
    → NotBelow b more
    → NotBelow b (insert_sorted a more)
unfolding insert_sorted
insert_sorted-NotBelow a b [] h n = before_asym b a h
insert_sorted-NotBelow a b (c ∷ more) h n =
    if_elim (NotBelow b) (before c a) (λ _. n) (λ _. before_asym b a h)

insert_sorted-Ordered :
    (a : SocketAddr) (more : List SocketAddr) → Ordered more → Ordered (insert_sorted a more)
unfolding insert_sorted
insert_sorted-Ordered a [] o = (tt, tt)
insert_sorted-Ordered a (b ∷ more) o =
    if_elim Ordered (before b a)
      (λ h. (insert_sorted-NotBelow a b more h o.0, insert_sorted-Ordered a more o.1)) (λ h. (h, o))

sort-Ordered : (xs : List SocketAddr) → Ordered (sort xs)
unfolding sort
sort-Ordered [] = tt
sort-Ordered (a ∷ more) = insert_sorted-Ordered a (sort more) (sort-Ordered more)

dedup_from-Below :
    (a b : SocketAddr) (more : List SocketAddr) → before a b ≡ true → Below a (dedup_from b more)
unfolding dedup_from
dedup_from-Below a b [] h = h
dedup_from-Below a b (c ∷ more) h =
    if_elim (Below a) (same b c) (λ _. dedup_from-Below a b more h) (λ _. h)

different : (a b : SocketAddr) → same a b ≡ false → before b a ≡ false → before a b ≡ true
different a b h k = ground arith

dedup_from-Increasing :
    (a : SocketAddr) (more : List SocketAddr)
    → NotBelow a more
    → Ordered more
    → Increasing (dedup_from a more)
unfolding dedup_from
dedup_from-Increasing a [] n o = (tt, tt)
dedup_from-Increasing a (b ∷ more) n o =
    if_elim Increasing (same a b) (λ h. dedup_from-Increasing a more (not_below more o.0 h) o.1)
      (λ h. (dedup_from-Below a b more (different a b h n), dedup_from-Increasing b more o.0 o.1))
  where
    not_below : (more : List SocketAddr) → NotBelow b more → same a b ≡ true → NotBelow a more
    not_below [] n' h = tt
    not_below (c ∷ more) n' h = same_before a b c h ∙ n'

dedup-Increasing : (xs : List SocketAddr) → Ordered xs → Increasing (dedup xs)
unfolding dedup
dedup-Increasing [] o = tt
dedup-Increasing (a ∷ more) o = dedup_from-Increasing a more o.0 o.1

listed-insert_sorted :
    (x a : SocketAddr) (more : List SocketAddr)
    → listed x (insert_sorted a more) ≡ (same x a || listed x more)
unfolding insert_sorted
listed-insert_sorted x a [] = refl
listed-insert_sorted x a (b ∷ more) =
    let ih = listed-insert_sorted x a more in
    if_elim (λ (l : List SocketAddr). listed x l ≡ (same x a || (same x b || listed x more)))
      (before b a) (λ _. rw ih (exchange (same x b) (same x a) (listed x more))) (λ _. refl)
  where
    exchange : (p q r : Bool) → (p || (q || r)) ≡ (q || (p || r))
    exchange true true r = refl
    exchange true false r = refl
    exchange false q r = refl

listed-sort : (x : SocketAddr) (xs : List SocketAddr) → listed x (sort xs) ≡ listed x xs
unfolding sort
listed-sort x [] = refl
listed-sort x (a ∷ more) =
    listed-insert_sorted x a (sort more) ∙ ap (λ l. same x a || l) (listed-sort x more)

listed-dedup_from :
    (x a : SocketAddr) (more : List SocketAddr)
    → listed x (dedup_from a more) ≡ (same x a || listed x more)
unfolding dedup_from
listed-dedup_from x a [] = refl
listed-dedup_from x a (b ∷ more) =
    if_elim (λ (l : List SocketAddr). listed x l ≡ (same x a || (same x b || listed x more)))
      (same a b)
      (λ h.
        listed-dedup_from x a more
        ∙ twice (same x a) (same x b) (listed x more) (same_same a b x h))
      (λ _. ap (λ l. same x a || l) (listed-dedup_from x b more))
  where
    twice : (p q r : Bool) → p ≡ q → (p || r) ≡ (p || (q || r))
    twice true q r h = refl
    twice false true r h = cc
    twice false false r h = refl

listed-dedup : (x : SocketAddr) (xs : List SocketAddr) → listed x (dedup xs) ≡ listed x xs
unfolding dedup
listed-dedup x [] = refl
listed-dedup x (a ∷ more) = listed-dedup_from x a more

same-eq : (a b : SocketAddr) → same a b ≡ true → a ≡ b
unfolding before family number
same-eq a b h =
    let ips : a.ip ≡ b.ip = same_ip a.ip b.ip (ground arith) (ground arith) in
    let ports : a.port ≡ b.port = ground arith in
    let scopes : a.scope ≡ b.scope = ground arith in
    address_eq a.ip a.port a.scope b (sym ips) (sym ports) (sym scopes)
  where
    same_ip : (p q : IpAddr) → family p ≡ family q → number p ≡ number q → p ≡ q
    same_ip (v4 m) (v4 n) e f = ap v4 f
    same_ip (v4 m) (v6 n) e f = absurd (ground arith)
    same_ip (v6 m) (v4 n) e f = absurd (ground arith)
    same_ip (v6 m) (v6 n) e f = ap v6 f

same_self : (a : SocketAddr) → same a a ≡ true
unfolding before
same_self a = ground arith

listed-cons_some :
    (x : SocketAddr) (o : Option SocketAddr) (xs : List SocketAddr)
    → listed x (cons_some o xs) ≡ true
    → (o ≡ some x) ⊎ (listed x xs ≡ true)
listed-cons_some x none xs h = inr h
listed-cons_some x (some a) xs h = elim (Bool-cases (same x a)) [
  | inl e ↦ inl (ap some (sym (same-eq x a e)))
  | inr e ↦ inr (rw e at h)
]

cons_some-listed_head :
    (x : SocketAddr) (o : Option SocketAddr) (xs : List SocketAddr)
    → o ≡ some x
    → listed x (cons_some o xs) ≡ true
cons_some-listed_head x o xs h = rw (h, same_self x) refl

cons_some-listed_tail :
    (x : SocketAddr) (o : Option SocketAddr) (xs : List SocketAddr)
    → listed x xs ≡ true
    → listed x (cons_some o xs) ≡ true
cons_some-listed_tail x none xs h = h
cons_some-listed_tail x (some a) xs h = ground arith

candidates-IsOffered :
    (bind : SocketAddr) (interfaces : List Interface) (x : SocketAddr)
    → (listed x (candidates bind interfaces) ≡ true) ↔ IsOffered bind interfaces x
unfolding candidates endpoint_of
candidates-IsOffered bind [] x = ((λ h. absurd (ground arith)), (λ h. absurd h))
candidates-IsOffered bind (i ∷ more) x =
    let o = if i.is_oper_up then given bind.ip i.ip i.index bind.port else none in
    let rest = candidates bind more in
    let ih = candidates-IsOffered bind more x in
    (
      (λ h. elim (listed-cons_some x o rest h) [
        | inl e ↦ inl (Offers-given bind i x i.is_oper_up refl e)
        | inr e ↦ inr (ih.0 e)
      ]),
      (λ h. elim h [
        | inl e ↦ cons_some-listed_head x o rest (given-Offers bind i x e)
        | inr e ↦ cons_some-listed_tail x o rest (ih.1 e)
      ]),
    )

-- The endpoints come in increasing order, so none is there twice, and they are exactly what some
-- interface offers: its address and the listener's port, where it is up and the address is of the
-- listener's family, neither unspecified, multicast nor broadcast, with the interface's index as the
-- scope of a link-local address, which must not be 0, and the scope 0 for any other.
pub local_endpoints_lem :
    (bind : SocketAddr) (interfaces : List Interface)
    → Increasing (local_endpoints bind interfaces)
      × ((x : SocketAddr)
          → (listed x (local_endpoints bind interfaces) ≡ true) ↔ IsOffered bind interfaces x)
unfolding local_endpoints
local_endpoints_lem bind interfaces =
    let found = candidates bind interfaces in
    (
      dedup-Increasing (sort found) (sort-Ordered found),
      λ x.
          rw (listed-dedup x (sort found), listed-sort x found)
            (candidates-IsOffered bind interfaces x),
    )
