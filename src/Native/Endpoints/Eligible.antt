-- ===== src/Native/Endpoints/Eligible.antt =====
-- native/src/discovery.rs: what an interface offers to a listener, for `local_endpoints`.
use ethersync.Base.{
  ℕ, ◌*◌, ◌^◌, ◌/◌, ◌<◌, ◌≤◌, ◌≢◌, ◌⊎◌, inl, inr, sym, Option, none, some, bool_ne, if◌then◌else◌,
  not, ◌==◌, ◌≡◌, refl, ap, Bool, true, false, ◌||◌, List, [], ◌∷◌, arith, if_elim,
}
use ethersync.Native.Discovery.{
  IpAddr, v4, v6, is_ipv4, is_unspecified, is_multicast, is_broadcast, is_unicast_link_local,
  nonzero, endpoint_at, by_family, SocketAddr, Interface,
}

-- Which addresses of an interface a listener at a given address can be reached at, and the scope that
-- goes with them. Multicast is 224.0.0.0/4 and ff00::/8, link-local fe80::/10.
abbrev pub IsEligible : IpAddr → IpAddr → Option ℕ → ℕ → Type 0
IsEligible (v4 b) (v4 n) index scope =
    (n ≢ 0) × (n ≢ 4_294_967_295) × ((n < 224 * 2 ^ 24) ⊎ (240 * 2 ^ 24 ≤ n)) × (scope ≡ 0)
IsEligible (v6 b) (v6 n) index scope =
    (n ≢ 0)
    × (n / 2 ^ 120 ≢ 255)
    × (((n / 2 ^ 118 ≢ 1018) × (scope ≡ 0))
        ⊎ ((n / 2 ^ 118 ≡ 1018) × (scope ≢ 0) × (index ≡ some scope)))
IsEligible (v4 b) (v6 n) index scope = ⊥
IsEligible (v6 b) (v4 n) index scope = ⊥

pub record Offers (bind : SocketAddr) (i : Interface) (x : SocketAddr) : Type 0 where
  pub up : i.is_oper_up ≡ true
  pub eligible : IsEligible bind.ip i.ip i.index x.scope
  pub ip : x.ip ≡ i.ip
  pub port : x.port ≡ bind.port

-- Some interface of a list offers an address.
abbrev pub IsOffered : SocketAddr → List Interface → SocketAddr → Type 0
IsOffered bind [] x = ⊥
IsOffered bind (i ∷ more) x = Offers bind i x ⊎ IsOffered bind more x

-- What an interface of some address gives.
abbrev pub given : IpAddr → IpAddr → Option ℕ → ℕ → Option SocketAddr
given b ip index port =
    if bool_ne (is_ipv4 ip) (is_ipv4 b) || (is_unspecified ip || is_multicast ip)
    then none
    else by_family port index ip

record Gave (b ip : IpAddr) (index : Option ℕ) (port : ℕ) (x : SocketAddr) : Type 0 where
  eligible : IsEligible b ip index x.scope
  ip_is : x.ip ≡ ip
  port_is : x.port ≡ port

some_address : {x y : SocketAddr} → some x ≡ some y → x ≡ y
some_address h = cc

Gave-of :
    (b ip : IpAddr) (index : Option ℕ) (port scope : ℕ) (x : SocketAddr)
    → IsEligible b ip index scope
    → record { ip = ip; port = port; scope = scope } ≡ x
    → Gave b ip index port x
Gave-of b ip index port scope x e h = record {
  eligible = rw (← h) e;
  ip_is = sym (ap (λ (a : SocketAddr). a.ip) h);
  port_is = sym (ap (λ (a : SocketAddr). a.port) h);
}

given-Gave :
    (b ip : IpAddr) (index : Option ℕ) (port : ℕ) (x : SocketAddr)
    → given b ip index port ≡ some x
    → Gave b ip index port x
given-Gave (v4 b) (v6 n) index port x h = cc
given-Gave (v6 b) (v4 n) index port x h = cc
given-Gave (v4 b) (v4 n) index port x h =
    let M = λ (o : Option SocketAddr). o ≡ some x → Gave (v4 b) (v4 n) index port x in
    if_elim M (is_unspecified (v4 n) || is_multicast (v4 n)) (λ _ h'. cc)
      (λ f.
        if_elim M (not (is_broadcast n))
          (λ g h'.
            Gave-of (v4 b) (v4 n) index port 0 x (ground arith, ground arith, ground arith, refl)
              (some_address h'))
          (λ _ h'. cc))
      h
given-Gave (v6 b) (v6 n) index port x h =
    let M = λ (o : Option SocketAddr). o ≡ some x → Gave (v6 b) (v6 n) index port x in
    if_elim M (is_unspecified (v6 n) || is_multicast (v6 n)) (λ _ h'. cc)
      (λ f.
        if_elim (λ (o : Option ℕ). M (endpoint_at (v6 n) port o)) (is_unicast_link_local n)
          (λ local. link_local f local index refl)
          (λ wide h'.
            Gave-of (v6 b) (v6 n) index port 0 x
              (ground arith, ground arith, inl (ground arith, refl)) (some_address h')))
      h
  where
    link_local :
        (is_unspecified (v6 n) || is_multicast (v6 n)) ≡ false
        → is_unicast_link_local n ≡ true
        → (o : Option ℕ) → index ≡ o
        → endpoint_at (v6 n) port (nonzero o) ≡ some x
        → Gave (v6 b) (v6 n) index port x
    link_local f local none e h' = cc
    link_local f local (some k) e h' =
        if_elim
          (λ (o : Option ℕ). endpoint_at (v6 n) port o ≡ some x → Gave (v6 b) (v6 n) index port x)
          (k == 0) (λ _ none'. cc)
          (λ some_scope at.
            Gave-of (v6 b) (v6 n) index port k x
              (ground arith, ground arith, inr (ground arith, ground arith, e)) (some_address at))
          h'

pub address_eq :
    (ip : IpAddr) (port scope : ℕ) (x : SocketAddr)
    → x.ip ≡ ip
    → x.port ≡ port
    → x.scope ≡ scope
    → record { ip = ip; port = port; scope = scope } ≡ x
address_eq ip port scope x a b c = rw (← a, ← b, ← c) refl

given-of :
    (b ip : IpAddr) (index : Option ℕ) (port : ℕ) (x : SocketAddr)
    → Gave b ip index port x
    → given b ip index port ≡ some x
given-of (v4 b) (v6 n) index port x g = absurd g.eligible
given-of (v6 b) (v4 n) index port x g = absurd g.eligible
given-of (v4 b) (v4 n) index port x g =
    let (nonzero', elsewhere, unicast, scope) = g.eligible in
    let f : (is_unspecified (v4 n) || is_multicast (v4 n)) ≡ false = ground arith in
    let narrow : not (is_broadcast n) ≡ true = ground arith in
    rw (f, narrow) (ap some (address_eq (v4 n) port 0 x g.ip_is g.port_is scope))
given-of (v6 b) (v6 n) index port x g =
    let (nonzero', unicast, scope) = g.eligible in
    let f : (is_unspecified (v6 n) || is_multicast (v6 n)) ≡ false = ground arith in
    rw f (elim scope [
      | inl (wide, z) ↦
          let l : is_unicast_link_local n ≡ false = ground arith in
          rw l (ap some (address_eq (v6 n) port 0 x g.ip_is g.port_is z))
      | inr (local, nz, e) ↦
          let l : is_unicast_link_local n ≡ true = ground arith in
          let k : (x.scope == 0) ≡ false = ground arith in
          rw (l, e, k) (ap some (address_eq (v6 n) port x.scope x g.ip_is g.port_is refl))
    ])

pub Offers-given :
    (bind : SocketAddr) (i : Interface) (x : SocketAddr) (up : Bool)
    → i.is_oper_up ≡ up
    → (if up then given bind.ip i.ip i.index bind.port else none) ≡ some x
    → Offers bind i x
Offers-given bind i x true e h =
    let g = given-Gave bind.ip i.ip i.index bind.port x h in
    record { up = e; eligible = g.eligible; ip = g.ip_is; port = g.port_is }
Offers-given bind i x false e h = cc

pub given-Offers :
    (bind : SocketAddr) (i : Interface) (x : SocketAddr)
    → Offers bind i x
    → (if i.is_oper_up then given bind.ip i.ip i.index bind.port else none) ≡ some x
given-Offers bind i x o = rw o.up (
    given-of bind.ip i.ip i.index bind.port x
      (record { eligible = o.eligible; ip_is = o.ip; port_is = o.port }))
