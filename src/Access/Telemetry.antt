-- ===== src/Access/Telemetry.antt =====
-- The decisions of access.py and `AccessDecisionTelemetry`, which counts and keeps them.
pub mod Bounds
use rtsp_proxy.Prelude.{
  ℕ, ◌+◌, String, Bool, true, false, not, ◌&&◌, ◌||◌, Option, none, some, List, [], ◌∷◌, ◌++◌, ltb,
  ◌==◌, if◌then◌else◌, length, eqb, is_some, String-discrete,
}
use rtsp_proxy.Prelude.Errors.{value_error, Result, ok, refuse, ◌>>◌}
use mathlib.Core.Bool.{Bool-discrete}

pub data AccessDecisionReason : Type 0 where
  allowed request_denied target_denied ip_denied credential_denied grant_inactive :
      AccessDecisionReason

pub AccessDecisionReason-discrete : Discrete AccessDecisionReason
AccessDecisionReason-discrete = hlevel

abbrev pub is_allowed : AccessDecisionReason → Bool
is_allowed AccessDecisionReason.allowed = true
is_allowed _ = false

pub record AccessDecision : Type 0 where
  pub allowed : Bool
  pub reason : AccessDecisionReason
  pub camera_id : Option ℕ
  pub grant_id : Option ℕ
  pub last_use_persisted : Option Bool

-- `__post_init__`: the decision itself, or the exception.
unfoldable pub checked_decision : AccessDecision → Result AccessDecision
checked_decision d = do
  refuse (not (eqb Bool-discrete d.allowed (is_allowed d.reason)))
      (value_error "access_decision_invalid")
  refuse (d.allowed && (not (is_some d.camera_id) || not (is_some d.grant_id)))
      (value_error "access_decision_identity_missing")
  refuse (not (eqb Bool-discrete d.allowed (is_some d.last_use_persisted)))
      (value_error "access_decision_metadata_invalid")
  ok d

pub record AccessDecisionEvent : Type 0 where
  pub reason : AccessDecisionReason
  pub allowed : Bool
  pub node_id : ℕ
  pub action : String
  pub protocol : String
  pub peer_family : String
  pub peer_ip : ℕ
  pub public_id : String
  pub camera_id : Option ℕ
  pub grant_id : Option ℕ
  pub last_use_persisted : Option Bool

-- The key of the counters.
pub record MetricKey : Type 0 where
  pub reason : AccessDecisionReason
  pub allowed : Bool
  pub action : String
  pub protocol : String
  pub peer_family : String

pub MetricKey-discrete : Discrete MetricKey
MetricKey-discrete = hlevel (String-discrete)

abbrev pub metric_key : AccessDecisionEvent → MetricKey
metric_key e = record {
  reason = e.reason;
  allowed = e.allowed;
  action = e.action;
  protocol = e.protocol;
  peer_family = e.peer_family;
}

pub record Telemetry : Type 0 where
  pub maximum_audit_events : ℕ
  pub counters : List (MetricKey × ℕ)
  pub audit : List AccessDecisionEvent
  pub dropped_audit : ℕ
  pub last_use_persistence_failures : ℕ

unfoldable pub create_telemetry : ℕ → Result Telemetry
create_telemetry maximum = do
  refuse (ltb maximum 1) (value_error "access_decision_telemetry_invalid")
  ok (record {
    maximum_audit_events = maximum;
    counters = [];
    audit = [];
    dropped_audit = 0;
    last_use_persistence_failures = 0;
  })

-- `self._counters[key] += 1` of a `Counter`.
unfoldable pub bump : MetricKey → List (MetricKey × ℕ) → List (MetricKey × ℕ)
bump k [] = (k, 1) ∷ []
bump k ((j, n) ∷ rest) =
    if eqb MetricKey-discrete j k then (j, n + 1) ∷ rest else (j, n) ∷ bump k rest

-- `append` to a `deque(maxlen=…)`.
abbrev pub append_bounded :
    ℕ → List AccessDecisionEvent → AccessDecisionEvent → List AccessDecisionEvent
append_bounded most [] e = e ∷ []
append_bounded most (oldest ∷ rest) e =
    if length (oldest ∷ rest) == most then rest ++ e ∷ [] else oldest ∷ (rest ++ e ∷ [])

abbrev is_unpersisted : Option Bool → ℕ
is_unpersisted none = 0
is_unpersisted (some true) = 0
is_unpersisted (some false) = 1

unfoldable pub record_event : AccessDecisionEvent → Telemetry → Telemetry
unfolding bump
record_event e t = record t {
  counters = bump (metric_key e) t.counters;
  last_use_persistence_failures =
      t.last_use_persistence_failures + is_unpersisted e.last_use_persisted;
  dropped_audit = t.dropped_audit + (if length t.audit == t.maximum_audit_events then 1 else 0);
  audit = append_bounded t.maximum_audit_events t.audit e;
}

unfoldable pub record_all : List AccessDecisionEvent → Telemetry → Telemetry
record_all [] t = t
record_all (e ∷ rest) t = record_all rest (record_event e t)
