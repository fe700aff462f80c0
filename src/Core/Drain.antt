-- ===== src/Core/Drain.antt =====
-- crates/core/src/drain.rs: options of a node drain, its progress events and its summary.
mod Tests
use roder.Prelude.{
  ℕ, String, ◌≡◌, Bool, false, Option, none, some, List, arith, ltb, if◌then◌else◌, Result, ok, err,
  ◌≤◌, ◌↔◌,
}

pub record DrainSummary : Type 0 where
  pub evicted : ℕ
  pub skipped : ℕ
  pub failed : List String

abbrev pub drain_timeout_max_secs : ℕ
drain_timeout_max_secs = 3600

abbrev pub drain_grace_period_max_secs : ℕ
drain_grace_period_max_secs = 86400

pub record DrainOptions : Type 0 where
  pub force : Bool
  pub delete_emptydir_data : Bool
  pub ignore_daemonsets : Bool
  pub disable_eviction : Bool
  pub grace_period : Option ℕ
  pub timeout_secs : ℕ

-- `Option::is_some_and(|seconds| seconds > DRAIN_GRACE_PERIOD_MAX_SECS)`
grace_too_long : Option ℕ → Bool
grace_too_long none = false
grace_too_long (some seconds) = ltb drain_grace_period_max_secs seconds

unfoldable pub validate : DrainOptions → Result (Unit {0}) String
unfolding grace_too_long
validate o =
    if ltb drain_timeout_max_secs o.timeout_secs
    then err "timeout must not exceed 3600 seconds"
    else if grace_too_long o.grace_period
    then err "grace period must not exceed 86400 seconds"
    else ok tt

pub record DrainBlocker : Type 0 where
  pub pod : String
  pub reason : String
  pub clearable_by : String

pub data DrainEventKind : Type 0 where
  started : ℕ → DrainEventKind
  cordoned : DrainEventKind
  evicted : String → ℕ → ℕ → DrainEventKind
  evict_failed : String → String → DrainEventKind
  blocked : List DrainBlocker → DrainEventKind
  waiting_termination : List String → DrainEventKind
  power_requested : String → DrainEventKind
  node_ready : DrainEventKind
  finished : DrainSummary → DrainEventKind
  error : String → DrainEventKind
  cancelled : DrainEventKind

pub record DrainEvent : Type 0 where
  pub seq : ℕ
  pub kind : DrainEventKind

pub record ActiveDrainJob : Type 0 where
  pub job : ℕ
  pub executor : Option String
  pub started_at : ℕ
  pub key : String
  pub name : String
  pub power : Option String

abbrev pub GraceInRange : Option ℕ → Type 0
GraceInRange none = Unit
GraceInRange (some seconds) = seconds ≤ drain_grace_period_max_secs

-- Options are accepted exactly when the timeout is at most an hour and a grace period, if one is
-- given, at most a day.
pub validate-ok_iff :
    (o : DrainOptions)
    → (validate o ≡ ok tt)
      ↔ ((o.timeout_secs ≤ drain_timeout_max_secs) × GraceInRange o.grace_period)
unfolding validate
validate-ok_iff o = ground arith
