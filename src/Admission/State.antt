-- ===== src/Admission/State.antt =====
-- src/tryops/native_admission.py: `AdmissionConfig`, `RequestEvent`, `_State` and the counts of the
-- report. Times are Python's integers; the floats are a parameter.
use try_ops_try_on_mlops.Base.{ℕ, String, Bool, List}
use try_ops_try_on_mlops.Base.Int.{ℤ}

-- Python's floats. No division of the program has the divisor 0.
pub record Floats : Type 1 where
  pub Float : Type 0
  pub lt : Float → Float → Bool
  pub le : Float → Float → Bool
  pub add : Float → Float → Float
  pub subtract : Float → Float → Float
  pub times : Float → Float → Float
  pub divide : Float → Float → Float
  pub of_int : ℤ → Float

pub data BreakerState : Type 0 where
  closed opened half_open : BreakerState

module _ (F : Floats) where
  pub record AdmissionConfig : Type 0 where
    pub bucket_capacity : F.Float
    pub refill_per_sec : F.Float
    pub max_concurrency : ℤ
    pub breaker_window : ℤ
    pub breaker_error_threshold : F.Float
    pub breaker_cooldown_ms : ℤ
    pub breaker_min_samples : ℤ

  pub record RequestEvent : Type 0 where
    pub ts_ms : ℤ
    pub cost : F.Float
    pub duration_ms : ℤ
    pub outcome : String

  pub record AdmissionState : Type 0 where
    pub tokens : F.Float
    pub last_refill_ms : ℤ
    pub started : Bool
    pub inflight : List ℤ
    pub breaker_state : BreakerState
    pub breaker_opened_ms : ℤ
    pub window : List ℕ
    pub errors : ℕ

  -- `rep`, and the local count of the admitted requests that failed
  pub record Tally : Type 0 where
    pub total : ℕ
    pub admitted : ℕ
    pub rejected_rate_limited : ℕ
    pub rejected_breaker_open : ℕ
    pub rejected_concurrency_full : ℕ
    pub breaker_trips : ℕ
    pub breaker_recoveries : ℕ
    pub peak_inflight : ℕ
    pub min_tokens : F.Float
    pub admitted_errors : ℕ

  -- what the loop carries from one event to the next
  pub record Controller : Type 0 where
    pub s : AdmissionState
    pub rep : Tally
