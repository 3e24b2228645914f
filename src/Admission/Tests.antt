-- ===== src/Admission/Tests.antt =====
-- Runs of the admission controller at concrete inputs.
use try_ops_try_on_mlops.Base.{
  ℕ, ◌+◌, ◌-◌, ◌*◌, ◌/◌, ◌≤◌, ◌≡◌, refl, List, [], ◌∷◌, ltb, leb, arith, true,
}
use try_ops_try_on_mlops.Base.Int.{pos, negsuc, pos_part}
use try_ops_try_on_mlops.Base.Result.{ok}
use try_ops_try_on_mlops.Admission.State.{
  opened, Controller, Floats, AdmissionConfig, RequestEvent, closed,
}
use try_ops_try_on_mlops.Admission.Controller.{
  admitting, Report, refill, limits, arrive, gate, err_rate, update_breaker, admit, settle, handle,
  handle_all, summarise, python_fallback, initial,
}
use try_ops_try_on_mlops.Admission.Cooldown.{handle_all-Cooling}
use try_ops_try_on_mlops.Admission.Bulkhead.{unfinished, ends, unfinished-le-max_concurrency}

-- whole numbers of hundredths in place of floats
abbrev hundredths : Floats
hundredths = record {
  Float = ℕ;
  lt = ltb;
  le = leb;
  add = λ a b. a + b;
  subtract = λ a b. a - b;
  times = λ a b. a * b / 100;
  divide = λ a b. a * 100 / b;
  of_int = λ n. pos_part n * 100;
}

-- two at a time, and open on half of the last three failure_at, for 100 ms
abbrev config : AdmissionConfig hundredths
config = record {
  bucket_capacity = 500;
  refill_per_sec = 1000;
  max_concurrency = pos 2;
  breaker_window = pos 3;
  breaker_error_threshold = 50;
  breaker_cooldown_ms = pos 100;
  breaker_min_samples = pos 2;
}

abbrev event : ℕ → ℕ → RequestEvent hundredths
event ts duration = record {
  ts_ms = pos ts;
  cost = 100;
  duration_ms = pos duration;
  outcome = "ok";
}

abbrev failure_at : ℕ → RequestEvent hundredths
failure_at ts = record { ts_ms = pos ts; cost = 100; duration_ms = negsuc 4; outcome = "error" }

abbrev events : List (RequestEvent hundredths)
events =
    event 0 50
    ∷ event 10 20
    ∷ event 20 5
    ∷ failure_at 60
    ∷ failure_at 70
    ∷ event 90 5
    ∷ event 190 10
    ∷ []

abbrev report : Report hundredths
report = record {
  tally = record {
    total = 7;
    admitted = 5;
    rejected_rate_limited = 0;
    rejected_breaker_open = 1;
    rejected_concurrency_full = 1;
    breaker_trips = 1;
    breaker_recoveries = 1;
    peak_inflight = 2;
    min_tokens = 170;
    admitted_errors = 2;
  };
  admit_rate = 71;
  shed_rate = 29;
  observed_error_rate = 40;
  final_breaker_state = closed;
  max_shed_rate = 30;
  gate_ok = true;
}

trips_and_recovers : python_fallback hundredths config events 30 ≡ ok report
unfolding python_fallback handle_all handle arrive refill gate limits settle admit update_breaker
    err_rate summarise
trips_and_recovers = refl

unfinished-le-max_concurrency_example :
    unfinished (pos 195) (ends hundredths config events (initial hundredths config)) ≤ 2
unfinished-le-max_concurrency_example =
    unfinished-le-max_concurrency hundredths config events (pos 195) (omega arith) (ground arith)

-- One failure in the window, and another at 70: the breaker trips.
abbrev before : Controller hundredths
before = record {
  s = record {
    tokens = 400;
    last_refill_ms = pos 60;
    started = true;
    inflight = [];
    breaker_state = closed;
    breaker_opened_ms = pos 0;
    window = 0 ∷ 1 ∷ [];
    errors = 1;
  };
  rep = record {
    total = 2;
    admitted = 2;
    rejected_rate_limited = 0;
    rejected_breaker_open = 0;
    rejected_concurrency_full = 0;
    breaker_trips = 0;
    breaker_recoveries = 0;
    peak_inflight = 1;
    min_tokens = 400;
    admitted_errors = 1;
  };
}

abbrev tripped : Controller hundredths
tripped = record {
  s = record {
    tokens = 310;
    last_refill_ms = pos 70;
    started = true;
    inflight = pos 70 ∷ [];
    breaker_state = opened;
    breaker_opened_ms = pos 70;
    window = 0 ∷ 1 ∷ 1 ∷ [];
    errors = 2;
  };
  rep = record {
    total = 3;
    admitted = 3;
    rejected_rate_limited = 0;
    rejected_breaker_open = 0;
    rejected_concurrency_full = 0;
    breaker_trips = 1;
    breaker_recoveries = 0;
    peak_inflight = 1;
    min_tokens = 310;
    admitted_errors = 2;
  };
}

before-tripped : handle hundredths config (failure_at 70) before ≡ (admitting, ok tripped)
unfolding handle arrive refill gate limits settle admit update_breaker err_rate
before-tripped = refl

handle_all-Cooling_example :
    (c : Controller hundredths) × (handle_all hundredths config
        (event 90 5 ∷ event 169 5 ∷ [])
        tripped
      ≡ ok c)
    × (c.rep.admitted ≡ 3)
    × (c.rep.rejected_breaker_open ≡ 2 + 0)
    × (c.s.breaker_state ≡ opened)
    × (c.s.breaker_opened_ms ≡ pos 70)
handle_all-Cooling_example =
    handle_all-Cooling hundredths config (failure_at 70) (event 90 5 ∷ event 169 5 ∷ []) before
      tripped before-tripped refl (ground arith)
