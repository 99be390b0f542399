-- ===== src/Transport/Peers.antt =====
-- native/src/network.rs: `Peer`, a connection on its way from the TLS handshake to its subscriptions. What
-- the futures of the transport return is an argument, `pending` where they are not done. The producers
-- of its tracks are left out.
use ethersync.Base.{
  ℕ, ◌≡◌, Bool, true, false, not, ◌&&◌, Option, none, some, ◌==◌, leb, if◌then◌else◌, Result, ok,
  err, ◌>>=◌, earliest, String,
}
use ethersync.Native.{NativeError}
use ethersync.Transport.Defs.{Poll, ready, pending}

-- The futures are kept as whether there is one: the handshake with whether it is one of HTTP/3.
pub record Peer : Type 0 where
  pub tls : Bool
  pub connection : Option Bool
  pub handshake : Option Bool
  pub session : Bool
  pub subscriptions : Bool
  pub incoming : ℕ
  pub leader : Bool
  pub deadline : ℕ
  pub driver_deadline : Option ℕ

-- What a step reads: the deadlines of the two drivers, the time, whether the TLS handshake is done and
-- then whether the protocol is HTTP/3, the end of the handshake, the error that closed the session, the
-- end of the subscriptions.
pub record PeerReads : Type 0 where
  pub first_driver : Result NativeError (Option ℕ)
  pub second_driver : Result NativeError (Option ℕ)
  pub now : ℕ
  pub secured : Result NativeError (Option Bool)
  pub agreed : Poll (Result NativeError (Unit {0}))
  pub closed : Option NativeError
  pub subscribed : Poll (Result NativeError (Unit {0}))

-- `Peer::new`, once its tracks are made.
unfoldable pub new_peer : Bool → ℕ → Peer
new_peer leader deadline = record {
  tls = true;
  connection = none;
  handshake = none;
  session = false;
  subscriptions = false;
  incoming = 0;
  leader = leader;
  deadline = deadline;
  driver_deadline = none;
}

abbrev pub transport_error : String → NativeError
transport_error reason = NativeError.transport reason

-- The drivers are polled, in order.
unfoldable pub poll_drivers : PeerReads → Peer → Result NativeError Peer
poll_drivers r p = do
  first ← r.first_driver
  second ← r.second_driver
  ok (record p { driver_deadline = earliest (earliest none first) second })

unfoldable pub check_deadline : PeerReads → Peer → Result NativeError Peer
check_deadline r p =
    if (p.incoming == 0) && leb p.deadline r.now
    then err (transport_error "connection/subscription timeout")
    else ok p

abbrev pub secured_by : Option Bool → Peer → Peer
secured_by none p = p
secured_by (some h3) p = record p { tls = false; connection = some h3; handshake = some h3 }

-- The connection of a finished TLS handshake, which starts the next one.
unfoldable pub secure : PeerReads → Peer → Result NativeError Peer
secure r p = if p.tls then (r.secured >>= λ h3. ok (secured_by h3 p)) else ok p

-- The number of tracks that a peer subscribes to.
abbrev pub tracks : Bool → ℕ
tracks leader = if leader then 1 else 2

-- The handshake ends: a follower takes none of HTTP/3. What it has is a session, and it subscribes.
abbrev pub agreed_by : Poll (Result NativeError (Unit {0})) → Peer → Result NativeError Peer
agreed_by pending p = ok p
agreed_by (ready (err e)) p = err e
agreed_by (ready (ok _)) p =
    ok (record p { session = true; handshake = none; subscriptions = true })

abbrev pub agree_on : Option Bool → PeerReads → Peer → Result NativeError Peer
agree_on none r p = ok p
agree_on (some h3) r p =
    if h3 && not p.leader
    then err (transport_error "unexpected HTTP/3 client ALPN")
    else agreed_by r.agreed p

unfoldable pub agree : PeerReads → Peer → Result NativeError Peer
agree r p = agree_on p.handshake r p

abbrev pub closed_by : Option NativeError → Peer → Result NativeError Peer
closed_by none p = ok p
closed_by (some e) p = err e

unfoldable pub check_closed : PeerReads → Peer → Result NativeError Peer
check_closed r p = if p.session then closed_by r.closed p else ok p

abbrev pub subscribed_by : Poll (Result NativeError (Unit {0})) → Peer → Result NativeError Peer
subscribed_by pending p = ok p
subscribed_by (ready (err e)) p = err e
subscribed_by (ready (ok _)) p = ok (record p { incoming = tracks p.leader; subscriptions = false })

unfoldable pub subscribe : PeerReads → Peer → Result NativeError Peer
subscribe r p = if p.subscriptions then subscribed_by r.subscribed p else ok p

-- `Peer::step`, with whether the subscriptions stand.
unfoldable pub step_peer : PeerReads → Peer → Result NativeError (Bool × Peer)
unfolding poll_drivers check_deadline secure agree check_closed subscribe
step_peer r p = do
  polled ← poll_drivers r p
  timely ← check_deadline r polled
  secured ← secure r timely
  agreed ← agree r secured
  open' ← check_closed r agreed
  subscribed ← subscribe r open'
  ok (not (subscribed.incoming == 0), subscribed)

-- A peer is at one of four stages, in this order: the TLS handshake, the handshake of the session, the
-- subscriptions, and in use.
pub data Stage : Type 0 where
  securing agreeing subscribing using : Stage

abbrev pub IsAt : Stage → Peer → Type 0
IsAt securing p =
    (p.tls ≡ true)
    × (p.handshake ≡ none)
    × (p.session ≡ false)
    × (p.subscriptions ≡ false)
    × (p.incoming ≡ 0)
IsAt agreeing p =
    (p.tls ≡ false)
    × ((h3 : Bool) × (p.handshake ≡ some h3))
    × (p.session ≡ false)
    × (p.subscriptions ≡ false)
    × (p.incoming ≡ 0)
IsAt subscribing p =
    (p.tls ≡ false)
    × (p.handshake ≡ none)
    × (p.session ≡ true)
    × (p.subscriptions ≡ true)
    × (p.incoming ≡ 0)
IsAt using p =
    (p.tls ≡ false)
    × (p.handshake ≡ none)
    × (p.session ≡ true)
    × (p.subscriptions ≡ false)
    × (p.incoming ≡ tracks p.leader)

abbrev pub IsPeer : Peer → Type 0
IsPeer p = (s : Stage) × IsAt s p
