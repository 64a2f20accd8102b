-- ===== src/Probe/Health/Age.antt =====
-- How a result ages.
use rtsp_proxy.Prelude.{ℕ, ◌+◌, ◌*◌, ◌≤◌, ◌≡◌, ◌↔◌, Option, some, none, arith}
use rtsp_proxy.Prelude.Errors.{ok}
use rtsp_proxy.Probe.Kinds.{ProbeObservationState, fresh, stale, overdue}
use rtsp_proxy.Probe.Health.{ProbeHealthRecord, observation_state}

abbrev pub staleness : ProbeObservationState → ℕ
staleness fresh = 0
staleness stale = 1
staleness overdue = 2

-- The last success lies `least` to `most` back.
abbrev pub Aged : Option ℕ → ℕ → ℕ → ℕ → Type 0
Aged none now least most = ⊥
Aged (some t) now least most = (t + least ≤ now) × (now ≤ t + most)

-- With a window that is allowed, a record is fresh exactly while its last success is at most one
-- interval old, and stale exactly while it is older than that and at most two intervals old.
pub observation_state-exact :
    (r : ProbeHealthRecord) (now interval : ℕ) (v : ProbeObservationState)
    → observation_state r now interval ≡ ok v
    → ((v ≡ fresh) ↔ Aged r.last_success_at now 0 interval)
      × ((v ≡ stale) ↔ Aged r.last_success_at now (interval + 1) (2 * interval))
unfolding observation_state
observation_state-exact r now interval v h = ground arith

-- Once the last success is past, waiting never makes a record fresher.
pub observation_state_ages :
    (r : ProbeHealthRecord) (now later interval success : ℕ) (v w : ProbeObservationState)
    → r.last_success_at ≡ some success
    → success ≤ now
    → now ≤ later
    → observation_state r now interval ≡ ok v
    → observation_state r later interval ≡ ok w
    → staleness v ≤ staleness w
unfolding observation_state
observation_state_ages r now later interval success v w e p q h k = ground arith
