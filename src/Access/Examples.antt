-- ===== src/Access/Examples.antt =====
-- One camera with one grant: the theorems on access.py at concrete inputs.
mod Issuing
use rtsp_proxy.Prelude.{
  ℕ, ◌+◌, ◌*◌, ◌≤◌, ◌-◌, ◌≡◌, refl, true, false, min, leb, length, if◌then◌else◌, none, some, List,
  [], ◌∷◌, arith, get, put, String-discrete,
}
use rtsp_proxy.Prelude.Errors.{ok}
use rtsp_proxy.Access.Grants.{AccessGrant, AccessTarget, AuthorizeRequest, permits, active_at}
use rtsp_proxy.Access.Floats.{Floats, IsFloats}
use rtsp_proxy.Access.Limiter.{
  peer, Limits, Limiter, create_limiter, begin_peer, end_peer, allow_peer, allow_grant, find_bucket,
}
use rtsp_proxy.Access.Limiter.Pending.{IsPendingBounded, end_peer-begin_peer}
use rtsp_proxy.Access.Limiter.Buckets.{allowed_at}
use rtsp_proxy.Access.Limiter.Rate.{allowed_at_bounded, allowed_at-exact}
use rtsp_proxy.Access.Limiter.Runs.{
  Call, beginning, ending, asking_peer, asking_grant, run, IsBounded, run-IsBounded,
}
use rtsp_proxy.Access.Telemetry.{
  checked_decision, AccessDecisionReason, AccessDecision, AccessDecisionEvent, Telemetry,
  create_telemetry, record_all,
}
use rtsp_proxy.Access.Telemetry.Bounds.{Accounts, record_all-Accounts_all}
use rtsp_proxy.Access.Authorizer.{AccessAuthorizerStore, Verifier, Clocks, World, authorize}
use rtsp_proxy.Access.Authorizer.Granted.{IsAuthorized, authorize-IsAuthorized}
use rtsp_proxy.Access.Authorizer.InFlight.{authorize-flights}

-- Floats that are whole numbers, for the examples.
abbrev pub floats : Floats
floats = record {
  of_int = λ n. n;
  add = λ x y. x + y;
  sub = λ x y. x - y;
  mul = λ x y. x * y;
  min = λ x y. min x y;
  max = λ x y. if leb x y then y else x;
  le = leb;
}

floats-IsFloats : IsFloats floats
floats-IsFloats = record {
  le_trans = λ x y z h k. ground arith;
  of_int_le = λ m n small few. refl;
  sub_at_most = λ n x small h. ground arith;
  sub_at_least = λ n x small h. ground arith;
  min_first = λ n x small. ground arith;
  min_at_most = λ n x y small h. ground arith;
  min_at_least = λ x y z h k. ground arith;
  no_time = λ now before h. ground arith;
  gain_at_most = λ rate x y small h. ground arith;
  gain_at_least = λ rate x y small h. ground arith;
}

abbrev limits : Limits
limits = record {
  peer_rate = 2;
  peer_burst = 2;
  grant_rate = 1;
  grant_burst = 2;
  maximum_pending_per_peer = 1;
  maximum_keys = 3;
}

abbrev limiter : Limiter
limiter = record { limits = limits; buckets = []; pending = [] }

limiter-create : create_limiter limits ≡ ok limiter
unfolding create_limiter
limiter-create = refl

limiter-IsPendingBounded : IsPendingBounded limiter
unfolding get
limiter-IsPendingBounded = record { counted = λ a. tt; keys = omega arith }

abbrev calls : List Call
calls =
    beginning 7
    ∷ beginning 7
    ∷ asking_peer 7 0
    ∷ asking_grant 1 2 5
    ∷ asking_peer 8 6
    ∷ asking_peer 9 7
    ∷ ending 7
    ∷ []

run-IsBounded_example : IsBounded (run floats calls limiter)
run-IsBounded_example = run-IsBounded floats limits limiter calls limiter-create

let_in : (begin_peer 7 limiter).0 ≡ true
unfolding begin_peer get
let_in = refl

end_peer-begin_peer_example :
    ((end_peer 7 (begin_peer 7 limiter).1).0 ≡ ok tt)
    × (get 7 (end_peer 7 (begin_peer 7 limiter).1).1.pending ≡ get 7 [])
end_peer-begin_peer_example = end_peer-begin_peer 7 7 limiter limiter-IsPendingBounded let_in

allowed_at_bounded_example : allowed_at floats (peer 7) 2 2 (5 ∷ 5 ∷ 5 ∷ 5 ∷ []) limiter ≤ 2
allowed_at_bounded_example =
    allowed_at_bounded floats floats-IsFloats (peer 7) 2 2 5 (5 ∷ 5 ∷ 5 ∷ []) limiter (omega arith)
      (omega arith) (refl, (refl, (refl, tt)))

nothing_found : find_bucket (peer 7) limiter.buckets ≡ none
unfolding find_bucket
nothing_found = refl

allowed_at-exact_example :
    allowed_at floats (peer 7) 2 2 (5 ∷ 5 ∷ 5 ∷ 5 ∷ []) limiter
    ≡ min 2 (length {A = ℕ} (5 ∷ 5 ∷ 5 ∷ 5 ∷ []))
allowed_at-exact_example =
    allowed_at-exact floats floats-IsFloats (peer 7) 2 2 5 (5 ∷ 5 ∷ 5 ∷ []) limiter (omega arith)
      (omega arith) nothing_found refl (refl, (refl, (refl, tt)))

abbrev event : AccessDecisionEvent
event = record {
  reason = AccessDecisionReason.target_denied;
  allowed = false;
  node_id = 1;
  action = "read";
  protocol = "rtsp";
  peer_family = "ipv4";
  peer_ip = 7;
  public_id = "camera";
  camera_id = none;
  grant_id = none;
  last_use_persisted = none;
}

abbrev telemetry : Telemetry
telemetry = record {
  maximum_audit_events = 2;
  counters = [];
  audit = [];
  dropped_audit = 0;
  last_use_persistence_failures = 0;
}

telemetry-create : create_telemetry 2 ≡ ok telemetry
unfolding create_telemetry
telemetry-create = refl

record_all-Accounts_all_example : Accounts (record_all (event ∷ event ∷ event ∷ []) telemetry) 3
record_all-Accounts_all_example =
    record_all-Accounts_all 2 telemetry (event ∷ event ∷ event ∷ []) telemetry-create

abbrev pub target : AccessTarget
target = record {
  camera_id = 10;
  node_id = 1;
  public_id = "camera";
  enabled = true;
  policy = record { camera_id = 10; revision = 1; internet_cidrs = []; local_cidrs = "net" ∷ [] };
}

abbrev pub grant : AccessGrant
grant = record {
  id = 20;
  camera_id = 10;
  username = "grant-20";
  token_verifier = "secret";
  pepper_key_id = "k";
  not_before = 0;
  expires_at = some 100;
  revoked_at = none;
  revision = 1;
  kind = "temporary";
  created_by = "operator";
  last_used_at = none;
}

-- A store that has the one camera and the one grant; its state counts the uses.
abbrev api : AccessAuthorizerStore ℕ
api = record {
  get_access_target = λ node public s. (ok (some target), s);
  get_access_grant = λ camera user s. (ok (some grant), s);
  rehash_access_grant = λ id token key revision s. (ok true, s);
  mark_access_grant_used = λ id s. (ok true, s + 1);
}

abbrev verifier : Verifier
verifier = record {
  primary_key_id = "k";
  digest = λ secret. secret;
  verify = λ secret expected key. true;
  contains = λ cidr address. true;
}

abbrev clocks : Clocks
clocks = record { floats = floats; at_peer = 0; at_grant = 0; now = 50 }

abbrev world : World ℕ
world = record { store = 0; attempts = some limiter; sink = some telemetry }

abbrev request : AuthorizeRequest
request = record {
  node_id = 1;
  public_id = "camera";
  peer = 7;
  username = "grant-20";
  password = "secret";
  action = "read";
  protocol = "rtsp";
}

abbrev decision : AccessDecision
decision = record {
  allowed = true;
  reason = AccessDecisionReason.allowed;
  camera_id = some 10;
  grant_id = some 20;
  last_use_persisted = some true;
}

is_let_in : (authorize api verifier clocks request world).0 ≡ ok decision
unfolding authorize begin_peer get String-discrete allow_peer permits allow_grant active_at
    checked_decision end_peer put
is_let_in = refl

authorize-IsAuthorized_example : IsAuthorized api verifier clocks request decision
authorize-IsAuthorized_example =
    authorize-IsAuthorized api verifier clocks request world decision is_let_in refl

authorize-flights_example :
    (k : Limiter) × ((authorize api verifier clocks request world).1.attempts ≡ some k)
    × (get 7 k.pending ≡ get 7 [])
authorize-flights_example =
    authorize-flights api verifier clocks request world limiter 7 refl limiter-IsPendingBounded
