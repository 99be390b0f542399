-- ===== src/Tests/Exchanges.antt =====
-- The clock estimator and the probes at concrete inputs.
use ethersync.Base.{◌+◌, ◌≤◌, ◌≡◌, inr, refl, none, some, [], ◌∷◌, length, ok, arith}
use ethersync.Base.Int.{ℤ}
use ethersync.Wire.Messages.{Bytes, Probe}
use ethersync.Wire.Validate.{Codec, IsFaithful, max_message, decode_probe, bad_probe}
use ethersync.Clock.Defs.{Exchange}
use ethersync.Clock.Estimator.{default_estimator, observe_timed}
use ethersync.Clock.Admission.{
  IsExchange, IsEstimator, Observed, observe_timed-IsEstimator, observe_timed-Observed,
}
use ethersync.Clock.Probes.{Probes, default_probes, request, reply}
use ethersync.Leader.Serving.{serve_probe, serve_probe-request}
use ethersync.Clock.Probes.Matching.{IsProbes, default_probes-IsProbes, request-IsProbes}
use ethersync.Clock.Probes.Replies.{reply-IsExchange, reply_twice, reply_evicted, reply-request}
use ethersync.Tests.Samples.{decimal_float}

abbrev trip : Exchange
trip = record { t1 = 100; t2 = 1_000; t3 = 1_010; t4 = 140 }

default_estimator-IsEstimator : IsEstimator (default_estimator {F = ℤ})
unfolding default_estimator
default_estimator-IsEstimator = record {
  samples_bounded = omega arith;
  recovery_bounded = omega arith;
  trace_bounded = omega arith;
  count_bounded = omega arith;
}

observe_timed-IsEstimator_example :
    IsEstimator (observe_timed (default_estimator {F = ℤ}) trip none 150).1
observe_timed-IsEstimator_example =
    observe_timed-IsEstimator default_estimator trip none 150 default_estimator-IsEstimator

observe_timed-Observed_example :
    Observed (default_estimator {F = ℤ}) trip (observe_timed default_estimator trip none 150)
observe_timed-Observed_example = observe_timed-Observed default_estimator trip none 150

-- An encoding of probes as five numbers.
abbrev five : Codec Probe
five = record {
  encode_to_vec = λ p. p.version ∷ p.sequence ∷ p.t1 ∷ p.t2 ∷ p.t3 ∷ [];
  decode_message = λ bytes. elim bytes [
    | a ∷ b ∷ c ∷ d ∷ e ∷ [] ↦ some (record { version = a; sequence = b; t1 = c; t2 = d; t3 = e })
    | _ ↦ none
  ];
}

five-IsFaithful : IsFaithful five
five-IsFaithful p = refl

five_small : (m : Probe) → length (five.encode_to_vec m) ≤ max_message
five_small m = omega arith

trip-IsExchange : IsExchange trip
trip-IsExchange = record {
  sent = omega arith;
  held = omega arith;
  residence = omega arith;
  fresh = omega arith;
  t3_fits = omega arith;
  t4_fits = omega arith;
}

reply-request_example :
    (reply five
      (request five default_probes 100).1
      (five.encode_to_vec (record {
        version = 1;
        sequence = default_probes.sequence + 1;
        t1 = 100;
        t2 = 1_000;
        t3 = 1_010;
      }))
      140).0
    ≡ ok (some trip)
reply-request_example =
    reply-request five default_probes 100 1_000 1_010 140 five-IsFaithful five_small
      default_probes-IsProbes (unfold default_probes in omega arith) trip-IsExchange (omega arith)

abbrev asked : Probes
asked = (request five default_probes 100).1

abbrev echo : Bytes
echo = 1 ∷ 1 ∷ 100 ∷ 1_000 ∷ 1_010 ∷ []

asked-IsProbes : IsProbes asked
asked-IsProbes = request-IsProbes five default_probes 100 five_small default_probes-IsProbes

echo_answers : (reply five asked echo 140).0 ≡ ok (some trip)
unfolding default_probes
echo_answers =
    reply-request five default_probes 100 1_000 1_010 140 five-IsFaithful five_small
      default_probes-IsProbes (omega arith) trip-IsExchange (omega arith)

reply_observable : IsExchange trip
reply_observable = reply-IsExchange five asked echo 140 trip (omega arith) echo_answers

reply_twice_example : (reply five (reply five asked echo 140).1 echo 150).0 ≡ ok none
reply_twice_example = reply_twice five asked echo 140 150 trip asked-IsProbes echo_answers

abbrev unasked : Probe
unasked = record { version = 1; sequence = 5; t1 = 100; t2 = 1_000; t3 = 1_010 }

unasked_decodes : decode_probe five (five.encode_to_vec unasked) ≡ ok unasked
unfolding decode_probe bad_probe
unasked_decodes = refl

reply_evicted_test : (reply five default_probes (five.encode_to_vec unasked) 140).0 ≡ ok none
reply_evicted_test =
    reply_evicted five default_probes (five.encode_to_vec unasked) 140 unasked
      default_probes-IsProbes unasked_decodes (inr (unfold default_probes in omega arith))

serve_probe-request_example :
    (sent : Bytes) × ((request five default_probes 100).0 ≡ ok sent)
    × (answered : Bytes) × (serve_probe five sent 1_000 1_010 ≡ ok answered)
    × ((reply five (request five default_probes 100).1 answered 140).0 ≡ ok (some trip))
serve_probe-request_example =
    serve_probe-request five default_probes 100 1_000 1_010 140 five-IsFaithful five_small
      default_probes-IsProbes (unfold default_probes in omega arith) trip-IsExchange (omega arith)
