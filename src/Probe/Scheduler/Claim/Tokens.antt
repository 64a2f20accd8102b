-- ===== src/Probe/Scheduler/Claim/Tokens.antt =====
-- The token of a lease that is granted.
use rtsp_proxy.Prelude.{ℕ, ◌+◌, ◌≡◌, arith}
use rtsp_proxy.Prelude.Errors.{Result, ok, err}
use rtsp_proxy.Probe.Data.{ProbeRequest, ProbeLease, checked_lease}
use rtsp_proxy.Probe.Scheduler.State.{Scheduler}
use rtsp_proxy.Probe.Scheduler.Claim.{
  next_attempt, draw_token, take_pending, count_attempt, prepare, activate, grant_lease,
}

-- A lease that was granted has the next token that is drawn.
abbrev pub TakesToken : Scheduler → Result ProbeLease × Scheduler → Type 0
TakesToken s (err e, t) = Unit {0}
TakesToken s (ok l, t) =
    (t.ids ≡ s.ids)
    × (l.lease_token ≡ s.ids.lease_token s.tokens_drawn)
    × (t.tokens_drawn ≡ s.tokens_drawn + 1)

pub grant_lease-TakesToken :
    (now : ℕ) (r : ProbeRequest) (s : Scheduler) → TakesToken s (grant_lease now r s)
unfolding grant_lease prepare take_pending count_attempt draw_token activate checked_lease
    next_attempt
grant_lease-TakesToken now r s = ground arith
