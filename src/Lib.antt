-- ===== src/Lib.antt =====
-- The timecode library: the protocol (protocol/src) and the jobs of the native engine
-- (native/src/network.rs). A leader publishes a timeline of positions, and followers estimate the
-- leader's clock from exchanged probes and show the position at any time.
--
-- The parts, and how they interact:
--   Timecode   protocol/src/timecode.rs: formats, labels, positions and rates. `new_format` and
--              `new_rate` are `FrameFormat::new` and `Rate::new`; the other functions keep their names.
--   Wire       protocol/src/lib.rs and protocol/proto/tidkod/v1/tidkod.proto: the messages, `encode`,
--              `decode_snapshot`, `decode_probe` and `validate_snapshot`.
--   Timeline   protocol/src/timeline.rs, first half: a timeline is an anchor with up to four scheduled
--              changes; `at` is what it plays, `latch` takes changes over, `wire` and `from_wire`
--              convert it to messages and back.
--   Clock      protocol/src/clock.rs: the estimator admits the four times of an exchange, quarantines
--              outliers, and fits a mapping to the leader's clock. Clock/Probes is
--              protocol/src/probes.rs: it matches replies to requests and yields the exchanges.
--   Follower   protocol/src/timeline.rs, second half: `View` evaluates a timeline through a mapping,
--              and `FollowerCore` takes states, exchanges and ticks. `connect`, `disconnect` and
--              `measurement_timed` are `connected`, `disconnected` and `measurement_timed`.
--   Boundary   protocol/src/boundary.rs: `first`, the binary search for a deadline, and `next_boundary`,
--              which predicts the next frame or scheduled change of a view.
--   Output     protocol/src/output.rs: `ClockBridge` between another clock and the engine's
--              (`new_bridge`, `convert`), and `sample_time`.
--   Tracking   protocol/src/tracking.rs: `Tracker`, which drives a timeline's anchor by the samples of
--              an external source; `sample` and `health` keep their names.
--   Native     native/src/lib.rs, native/src/api.rs, native/src/discovery.rs and native/src/transport/tls.rs: the errors, the
--              readers' buffers (Readers), the clock and the checks that `Engine::leader` and
--              `Engine::follower` make of their options (Options), certificates and pins (Pins).
--   Leader     native/src/network.rs, `LeaderJob`: `change_timeline`, what a pass of `progress` does
--              (`pass`: the commands, the promotion of changes that are due, the source's health and
--              the publication), the answer to a probe (`serve_probe`), `new` (`start_job`),
--              `deadline` (`next_deadline`) and `drop` (`drop_leader`).
--   FollowerJob  native/src/network.rs, `FollowerJob`: `disconnect` (`lose`), the commands, each stage
--              of `progress`, `step`, `deadline` and `drop`. It drives Follower and Clock/Probes by
--              what the transport brings, and decodes what Leader publishes: Delivery composes a
--              leader's pass with the reception of its publication.
--   Browser    clients/wasm/src/lib.rs: the follower of a web page. `snapshot`, `probe`, `reply_timed` and
--              the others keep their names; `shown` is the end of `read_for_presentation`.
--   Transport  native/src/transport/quic.rs: what a connection's handles share (Shared), its receiving
--              and sending streams (Receiving, Sending), its operations (Connections), and the endpoint:
--              its state over the parameter `Quinn` (Quinn), the visit of each connection (Visits),
--              connecting and receiving (Endpoint), sending and `Endpoint::step` (Packets, `step`).
--              Timers is native/src/transport/runtime.rs, Peers is `Peer` of native/src/network.rs.
--   Worker     native/src/worker.rs: `run`, the loop over the jobs of an engine, of which LeaderJob and
--              FollowerJob are two. Its stop flags are those of native/src/api.rs (Native/Stops).
--   Base       what the parts share; Tests has runs at concrete inputs.
--
-- Machine integers are numbers or integers, with casts, saturation and range checks written out; a
-- function that changes its receiver returns the new one. `f64` is a type with operations and no
-- laws (Base/Float), so no theorem depends on rounding. Loops are structural recursion, but for the
-- greatest common divisor (recursion on the second number's accessibility) and `latch`, whose rounds
-- are as many as there are scheduled changes, each round taking one away. The search of `first`
-- halves its range, so 64 rounds are enough for 64-bit times.
--
-- A pass of a job is a function of what the transport and the clocks bring to it: each reading of a
-- clock is an argument of its own, so nothing is assumed of their order but in a theorem's hypotheses.
-- The loops over commands run at most 32 rounds and those over datagrams and groups at most 8, as in
-- the code, and the loop of `promote_due` as many rounds as there are scheduled changes.
--
-- The endpoint and the worker run over what they do not implement: `Quinn` has the states and
-- operations of quinn-proto, with no laws, and the answers of the socket, of the channels and of
-- the clocks come in order as arguments. Observers puts a log of what `handle` is given beside
-- quinn-proto's state. The loops of a step have the code's limits: 32 receives, 8 rounds of each
-- kind for a connection, 64 factories. `run` takes fuel, and `run-Ends` says that one more than the
-- number of the pass that stops it is enough. An engine's threads are a step relation on its flags.
--
-- Not modelled: the protobuf encoding, which is the parameter `Codec`; native/src/transport/web.rs, which
-- is another project's code; quinn-proto, the machines of the moq library and the operations of the
-- system; the events for the application; the set-up of mDNS; the other bindings, and the browser's
-- presentation clock and its serialization; the digest of a certificate, a parameter of Native/Pins.
pub mod Base
pub mod Timecode
pub mod Wire
pub mod Timeline
pub mod Clock
pub mod Follower
pub mod Boundary
pub mod Output
pub mod Tracking
pub mod Native
pub mod Leader
pub mod FollowerJob
pub mod Browser
pub mod Transport
pub mod Worker
pub mod Tests
