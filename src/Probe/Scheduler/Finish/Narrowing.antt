-- ===== src/Probe/Scheduler/Finish/Narrowing.antt =====
-- The end of a lease starts none.
use rtsp_proxy.Prelude.{arith, refl, inl, inr, Bool-cases, ◌&&◌, get, count-pop-le}
use rtsp_proxy.Probe.Data.{ProbeLease, ProbeExecutionResult}
use rtsp_proxy.Probe.Scheduler.State.{Scheduler}
use rtsp_proxy.Probe.Scheduler.Budget.{Narrows, Narrows-refl, IsNarrowing}
use rtsp_proxy.Probe.Scheduler.Finish.{
  is_lease, is_request, in_window, holds, release, complete, cancel,
}

release-Narrows : (l : ProbeLease) (s : Scheduler) → Narrows s (release l s)
unfolding release
release-Narrows l s = record {
  settings = refl;
  reservations = refl;
  ids = refl;
  fewer = λ p. count-pop-le p l.request_id s.active;
  tokens = omega arith;
}

pub complete-IsNarrowing : (l : ProbeLease) (r : ProbeExecutionResult) → IsNarrowing (complete l r)
unfolding complete
complete-IsNarrowing l r = record {
  at = λ s.
      elim (Bool-cases (
        is_lease (get l.request_id s.active) l
        && in_window l r
        && is_request (get l.target.camera_id s.requests_by_camera) l.request_id)) [
          | inl exact ↦ rw exact (
              let n = release-Narrows l s in
              record {
                settings = refl;
                reservations = refl;
                ids = refl;
                fewer = n.fewer;
                tokens = n.tokens;
              })
          | inr stale ↦ rw stale (Narrows-refl s)
        ];
}

pub cancel-IsNarrowing : (l : ProbeLease) → IsNarrowing (cancel l)
unfolding cancel
cancel-IsNarrowing l = record {
  at = λ s. elim (Bool-cases (holds s l)) [
    | inl exact ↦ rw exact (
        let n = release-Narrows l s in
        record {
          settings = refl;
          reservations = refl;
          ids = refl;
          fewer = n.fewer;
          tokens = n.tokens;
        })
    | inr stale ↦ rw stale (Narrows-refl s)
  ];
}
