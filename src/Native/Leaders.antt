-- ===== src/Native/Leaders.antt =====
-- native/src/discovery.rs: what the table of leaders holds.
use ethersync.Base.{
  ℕ, length, ◌&&◌, ◌≡◌, refl, ap, ◌∙◌, Option, none, some, List, [], ◌∷◌, ◌==◌, if◌then◌else◌,
  Bool-cases, inl, inr, ==_iff,
}
use ethersync.Native.Discovery.{
  ServiceInfo, ServiceEvent, resolved, removed, other, unwrap_or, found_addresses, entry_from,
  Found, entry, insert_entry, on_service, poll,
}
use ethersync.Wire.Messages.{Bytes}
use ethersync.Native.Pins.{all_hex, validate_pin}
use ethersync.Transport.Quinn.{get, insert, remove}
use ethersync.Transport.Tables.{get-insert_self, get-insert_ne, get-remove_self, get-remove_ne}

-- What an event says of a name: nothing, that there is no such leader, or its entry.
abbrev entered_as : ℕ → Option Found → Option (Option Found)
entered_as name none = none
entered_as name (some f) = if f.service_name == name then some (some f) else none

-- What a resolved service is listed as: only with an identity, and a fingerprint of 64 hexadecimal
-- digits. Its name is the identity where it has none, and its version is 0.
abbrev pub listing : ServiceInfo → Option ℕ → Option Bytes → Option Found
listing info none fp = none
listing info (some id) none = none
listing info (some id) (some fp) =
    if (length fp == 64) && all_hex fp
    then some (record {
      service_name = info.fullname;
      identity = id;
      name = unwrap_or info.name id;
      protocol_version = unwrap_or info.version 0;
      addresses = found_addresses info.port info.addresses;
      fingerprint = fp;
    })
    else none

abbrev pub says : ℕ → ServiceEvent → Option (Option Found)
says name (resolved info) = entered_as name (listing info info.id info.fp)
says name (removed gone) = if gone == name then some none else none
says name other = none

-- The last that events say of a name.
abbrev or_else : Option (Option Found) → Option (Option Found) → Option (Option Found)
or_else none b = b
or_else (some a) b = some a

abbrev pub last_said : ℕ → List ServiceEvent → Option (Option Found)
last_said name [] = none
last_said name (e ∷ events) = or_else (last_said name events) (says name e)

abbrev pub otherwise : Option (Option Found) → Option Found → Option Found
otherwise none before' = before'
otherwise (some said) before' = said

get-insert_eq :
    (id name : ℕ) (f : Found) (leaders : List (ℕ × Found))
    → id ≡ name
    → get name (insert id f leaders) ≡ some f
get-insert_eq id name f leaders h = rw h (get-insert_self name f leaders)

get-remove_eq :
    (id name : ℕ) (leaders : List (ℕ × Found)) → id ≡ name → get name (remove id leaders) ≡ none
get-remove_eq id name leaders h = rw h (get-remove_self name leaders)

insert_entry-get :
    (name : ℕ) (o : Option Found) (leaders : List (ℕ × Found))
    → get name (insert_entry o leaders) ≡ otherwise (entered_as name o) (get name leaders)
insert_entry-get name none leaders = refl
insert_entry-get name (some f) leaders = elim (Bool-cases (f.service_name == name)) [
  | inl e ↦ rw e (get-insert_eq f.service_name name f leaders ((==_iff f.service_name name).0 e))
  | inr e ↦
      rw e (
        get-insert_ne name f.service_name f leaders (λ h. cc (e, (==_iff f.service_name name).1 h)))
]

listing_from :
    (info : ServiceInfo) (id : Option ℕ) (fp : Option Bytes)
    → entry_from info id fp ≡ listing info id fp
unfolding validate_pin
listing_from info none fp = refl
listing_from info (some id) none = refl
listing_from info (some id) (some fp) = elim (Bool-cases (length fp == 64)) [
  | inl long ↦ elim (Bool-cases (all_hex fp)) [
    | inl digits ↦ rw (long, digits) refl
    | inr others ↦ rw (long, others) refl
  ]
  | inr short ↦ rw short refl
]

entry-listing : (info : ServiceInfo) → entry info ≡ listing info info.id info.fp
unfolding entry
entry-listing info = listing_from info info.id info.fp

on_service-get :
    (name : ℕ) (e : ServiceEvent) (leaders : List (ℕ × Found))
    → get name (on_service e leaders) ≡ otherwise (says name e) (get name leaders)
unfolding on_service
on_service-get name (resolved info) leaders =
    rw (← entry-listing info) (insert_entry-get name (entry info) leaders)
on_service-get name (removed gone) leaders = elim (Bool-cases (gone == name)) [
  | inl e ↦ rw e (get-remove_eq gone name leaders ((==_iff gone name).0 e))
  | inr e ↦ rw e (get-remove_ne name gone leaders (λ h. cc (e, (==_iff gone name).1 h)))
]
on_service-get name other leaders = refl

otherwise-or_else :
    (a b : Option (Option Found)) (o : Option Found)
    → otherwise a (otherwise b o) ≡ otherwise (or_else a b) o
otherwise-or_else none b o = refl
otherwise-or_else (some a) b o = refl

-- Whatever events come in, the table has for each service name what the last event that concerns it
-- says: where the service was resolved with an identity and a fingerprint of 64 hexadecimal digits, that
-- identity, fingerprint, version, name and addresses; nothing after a removal; and where no event
-- concerns it, as one without an identity or such a fingerprint does not, what there was before.
pub poll-last_said :
    (name : ℕ) (events : List ServiceEvent) (leaders : List (ℕ × Found))
    → get name (poll events leaders) ≡ otherwise (last_said name events) (get name leaders)
unfolding poll
poll-last_said name [] leaders = refl
poll-last_said name (e ∷ events) leaders =
    poll-last_said name events (on_service e leaders)
    ∙ ap (otherwise (last_said name events)) (on_service-get name e leaders)
    ∙ otherwise-or_else (last_said name events) (says name e) (get name leaders)
