-- ===== src/Native/Discovery.antt =====
-- native/src/discovery.rs: `local_endpoints`, and the table of leaders that `Discovery::poll` keeps. An
-- IP address is its number of 32 or of 128 bits; a service name and an identity are numbers.
use ethersync.Base.{
  ℕ, ◌-◌, ◌/◌, ◌^◌, Bool, true, false, not, ◌&&◌, ◌||◌, Option, none, some, List, [], ◌∷◌, ◌==◌,
  ltb, if◌then◌else◌, bool_ne, Result, ok, err,
}
use ethersync.Wire.Messages.{Bytes}
use ethersync.Native.Pins.{validate_pin}
use ethersync.Transport.Quinn.{insert, remove}

pub data IpAddr : Type 0 where
  v4 v6 : ℕ → IpAddr

pub record SocketAddr : Type 0 where
  pub ip : IpAddr
  pub port : ℕ
  pub scope : ℕ

pub record Interface : Type 0 where
  pub is_oper_up : Bool
  pub ip : IpAddr
  pub index : Option ℕ

abbrev pub is_ipv4 : IpAddr → Bool
is_ipv4 (v4 n) = true
is_ipv4 (v6 n) = false

abbrev pub is_unspecified : IpAddr → Bool
is_unspecified (v4 n) = n == 0
is_unspecified (v6 n) = n == 0

-- 224.0.0.0/4 and ff00::/8.
abbrev pub is_multicast : IpAddr → Bool
is_multicast (v4 n) = n / 2 ^ 28 == 14
is_multicast (v6 n) = n / 2 ^ 120 == 255

-- 255.255.255.255, and fe80::/10.
abbrev pub is_broadcast : ℕ → Bool
is_broadcast n = n == 2 ^ 32 - 1

abbrev pub is_unicast_link_local : ℕ → Bool
is_unicast_link_local n = n / 2 ^ 118 == 1018

abbrev pub nonzero : Option ℕ → Option ℕ
nonzero none = none
nonzero (some index) = if index == 0 then none else some index

abbrev pub endpoint_at : IpAddr → ℕ → Option ℕ → Option SocketAddr
endpoint_at ip port none = none
endpoint_at ip port (some scope) = some (record { ip = ip; port = port; scope = scope })

abbrev pub by_family : ℕ → Option ℕ → IpAddr → Option SocketAddr
by_family port index (v4 n) =
    if not (is_broadcast n) then endpoint_at (v4 n) port (some 0) else none
by_family port index (v6 n) =
    endpoint_at (v6 n) port (if is_unicast_link_local n then nonzero index else some 0)

-- What an interface gives: nothing, or the address to listen at.
unfoldable pub endpoint_of : SocketAddr → Interface → Option SocketAddr
endpoint_of bind i =
    if bool_ne (is_ipv4 i.ip) (is_ipv4 bind.ip) || (is_unspecified i.ip || is_multicast i.ip)
    then none
    else by_family bind.port i.index i.ip

-- `filter(is_oper_up).filter_map(..)`
abbrev pub cons_some : {A : Type 0} → Option A → List A → List A
cons_some none xs = xs
cons_some (some x) xs = x ∷ xs

unfoldable pub candidates : SocketAddr → List Interface → List SocketAddr
unfolding endpoint_of
candidates bind [] = []
candidates bind (i ∷ is) =
    cons_some (if i.is_oper_up then endpoint_of bind i else none) (candidates bind is)

-- The derived order of addresses: the family, then the address, the port and the scope.
unfoldable pub family : IpAddr → ℕ
family (v4 n) = 0
family (v6 n) = 1

unfoldable pub number : IpAddr → ℕ
number (v4 n) = n
number (v6 n) = n

-- Equal so far, and then what decides.
abbrev pub then_by : ℕ → ℕ → Bool → Bool
then_by a b rest = ltb a b || ((a == b) && rest)

unfoldable pub before : SocketAddr → SocketAddr → Bool
unfolding family number
before a b =
    then_by (family a.ip) (family b.ip)
      (then_by (number a.ip) (number b.ip) (then_by a.port b.port (ltb a.scope b.scope)))

-- `sort_unstable` and `dedup`
unfoldable pub insert_sorted : SocketAddr → List SocketAddr → List SocketAddr
insert_sorted a [] = a ∷ []
insert_sorted a (b ∷ bs) =
    let rest = insert_sorted a bs in if before b a then b ∷ rest else a ∷ b ∷ bs

unfoldable pub sort : List SocketAddr → List SocketAddr
unfolding insert_sorted
sort [] = []
sort (a ∷ more) = insert_sorted a (sort more)

-- Neither comes before the other: equal.
abbrev pub same : SocketAddr → SocketAddr → Bool
same a b = not (before a b) && not (before b a)

unfoldable pub dedup_from : SocketAddr → List SocketAddr → List SocketAddr
dedup_from a [] = a ∷ []
dedup_from a (b ∷ bs) =
    let skip = dedup_from a bs in let keep = dedup_from b bs in if same a b then skip else a ∷ keep

unfoldable pub dedup : List SocketAddr → List SocketAddr
unfolding dedup_from
dedup [] = []
dedup (a ∷ more) = dedup_from a more

unfoldable pub local_endpoints : SocketAddr → List Interface → List SocketAddr
unfolding candidates sort dedup
local_endpoints bind interfaces = dedup (sort (candidates bind interfaces))

-- A service that was resolved: its full name and port, the values of its properties, its addresses. An
-- address that is of neither family is none.
pub record ServiceInfo : Type 0 where
  pub fullname : ℕ
  pub port : ℕ
  pub id : Option ℕ
  pub fp : Option Bytes
  pub version : Option ℕ
  pub name : Option ℕ
  pub addresses : List (Option (IpAddr × ℕ))

pub data ServiceEvent : Type 0 where
  resolved : ServiceInfo → ServiceEvent
  removed : ℕ → ServiceEvent
  other : ServiceEvent

pub record Found : Type 0 where
  pub service_name : ℕ
  pub identity : ℕ
  pub name : ℕ
  pub protocol_version : ℕ
  pub addresses : List SocketAddr
  pub fingerprint : Bytes

abbrev pub unwrap_or : Option ℕ → ℕ → ℕ
unwrap_or none d = d
unwrap_or (some n) d = n

-- An address of version 4 has no scope.
abbrev pub found_address : ℕ → Option (IpAddr × ℕ) → Option SocketAddr
found_address port none = none
found_address port (some (v4 n, scope)) = some (record { ip = v4 n; port = port; scope = 0 })
found_address port (some (v6 n, scope)) = some (record { ip = v6 n; port = port; scope = scope })

unfoldable pub found_addresses : ℕ → List (Option (IpAddr × ℕ)) → List SocketAddr
found_addresses port [] = []
found_addresses port (a ∷ more) = cons_some (found_address port a) (found_addresses port more)

abbrev pub is_ok {ℓ} : {E : Type 0} {A : Type ℓ} → Result E A → Bool
is_ok (ok a) = true
is_ok (err e) = false

-- The entry of a resolved service, where it has an identity and a fingerprint that is a pin.
abbrev pub entry_from : ServiceInfo → Option ℕ → Option Bytes → Option Found
entry_from info none fp = none
entry_from info (some id) none = none
entry_from info (some id) (some fp) =
    if is_ok (validate_pin fp)
    then some (record {
      service_name = info.fullname;
      identity = id;
      name = unwrap_or info.name id;
      protocol_version = unwrap_or info.version 0;
      addresses = found_addresses info.port info.addresses;
      fingerprint = fp;
    })
    else none

unfoldable pub entry : ServiceInfo → Option Found
unfolding found_addresses
entry info = entry_from info info.id info.fp

abbrev pub insert_entry : Option Found → List (ℕ × Found) → List (ℕ × Found)
insert_entry none leaders = leaders
insert_entry (some f) leaders = insert f.service_name f leaders

unfoldable pub on_service : ServiceEvent → List (ℕ × Found) → List (ℕ × Found)
unfolding entry
on_service (resolved info) leaders = insert_entry (entry info) leaders
on_service (removed name) leaders = remove name leaders
on_service other leaders = leaders

-- `Discovery::poll`, over the events that came in: the table of leaders.
unfoldable pub poll : List ServiceEvent → List (ℕ × Found) → List (ℕ × Found)
unfolding on_service
poll [] leaders = leaders
poll (e ∷ events) leaders = poll events (on_service e leaders)
