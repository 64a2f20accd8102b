-- ===== src/Probe/Scheduler/Submit/Narrowing.antt =====
-- A submission starts no lease.
use rtsp_proxy.Prelude.{
  arith, ℕ, refl, Option, none, some, inl, inr, Bool-cases, ◌&&◌, ltb, leb, ◌==◌, if◌then◌else◌,
  min, is_some, get, length,
}
use rtsp_proxy.Probe.Kinds.{ProbeMethod, ProbePriority, priority_rank, same_priority, same_method}
use rtsp_proxy.Probe.Data.{ProbeTarget, ProbeRequest}
use rtsp_proxy.Probe.Identity.{same_probe_generation}
use rtsp_proxy.Probe.Eligibility.{require_probe_eligible}
use rtsp_proxy.Probe.Scheduler.Steps.{lift, modify}
use rtsp_proxy.Probe.Scheduler.Expiry.{expire_active, drop_expired_pending}
use rtsp_proxy.Probe.Scheduler.Budget.{
  Narrows-refl, Narrows-same, IsNarrowing, IsNarrowing-done, IsNarrowing-lift, IsNarrowing-bind,
  IsNarrowing-modify,
}
use rtsp_proxy.Probe.Scheduler.Expiry.Narrowing.{
  expire_active-IsNarrowing, drop_expired_pending-Narrows,
}
use rtsp_proxy.Probe.Scheduler.Submit.{
  move_promoted, replace_promoted, requeue_promoted, promote, join, new_request_id, admit_as,
  admit_new, admit, join_or_admit, checked_window, join_current, enter, submit,
}

move_promoted-IsNarrowing :
    (current promoted : ProbeRequest) → IsNarrowing (move_promoted current promoted)
unfolding move_promoted
move_promoted-IsNarrowing current promoted =
    IsNarrowing-bind _ _ (record { at = λ s. Narrows-refl s })
      λ rest. IsNarrowing-modify _ (λ s. Narrows-same s _ refl refl refl refl (omega arith))

replace_promoted-IsNarrowing :
    (current promoted : ProbeRequest) → IsNarrowing (replace_promoted current promoted)
unfolding replace_promoted
replace_promoted-IsNarrowing current promoted =
    IsNarrowing-bind _ _ (record { at = λ s. Narrows-refl s })
      λ rest. IsNarrowing-modify _ (λ s. Narrows-same s _ refl refl refl refl (omega arith))

requeue_promoted-IsNarrowing :
    (current promoted : ProbeRequest) → IsNarrowing (requeue_promoted current promoted)
unfolding requeue_promoted
requeue_promoted-IsNarrowing current promoted =
    elim (Bool-cases (same_priority promoted.priority current.priority)) [
      | inl same ↦ rw same (replace_promoted-IsNarrowing current promoted)
      | inr other ↦ rw other (move_promoted-IsNarrowing current promoted)
    ]

promote-IsNarrowing :
    (current : ProbeRequest) (t : ProbeTarget) (p : ProbePriority) (deadline_at : ℕ)
    → IsNarrowing (promote current t p deadline_at)
unfolding promote
promote-IsNarrowing current t p deadline_at =
    elim (Bool-cases (
      same_priority
        (if ltb (priority_rank current.priority) (priority_rank p) then p else current.priority)
        current.priority
      && min current.deadline_at deadline_at == current.deadline_at)) [
        | inl same ↦ rw same (IsNarrowing-done current)
        | inr other ↦ rw other (
            IsNarrowing-bind _ _ (IsNarrowing-lift _) (λ promoted.
              IsNarrowing-bind _ _ (requeue_promoted-IsNarrowing current promoted) (λ _.
                IsNarrowing-bind _ _
                  (IsNarrowing-modify _ (λ s. Narrows-same s _ refl refl refl refl (omega arith)))
                  (λ _. IsNarrowing-done promoted))))
      ]

join-IsNarrowing :
    (current : ProbeRequest) (t : ProbeTarget) (m : ProbeMethod) (p : ProbePriority)
    (deadline_at : ℕ)
    → IsNarrowing (join current t m p deadline_at)
unfolding join
join-IsNarrowing current t m p deadline_at = record {
  at = λ s.
      elim (Bool-cases (same_probe_generation current.target t && same_method current.method m)) [
        | inr other ↦ rw other (Narrows-same s _ refl refl refl refl (omega arith))
        | inl same ↦ rw same (elim (Bool-cases (is_some (get current.request_id s.active))) [
          | inl running ↦ rw running (Narrows-refl s)
          | inr waiting ↦ rw waiting ((promote-IsNarrowing current t p deadline_at).at s)
        ])
      ];
}

admit_as-IsNarrowing :
    (t : ProbeTarget) (m : ProbeMethod) (p : ProbePriority) (requested_at deadline_at id : ℕ)
    → IsNarrowing (admit_as t m p requested_at deadline_at id)
unfolding admit_as
admit_as-IsNarrowing t m p requested_at deadline_at id =
    IsNarrowing-bind _ _ (IsNarrowing-lift _) λ request.
      IsNarrowing-bind _ _
        (IsNarrowing-modify _ (λ s. Narrows-same s _ refl refl refl refl (omega arith)))
        λ _. IsNarrowing-done request

admit_new-IsNarrowing :
    (t : ProbeTarget) (m : ProbeMethod) (p : ProbePriority) (requested_at deadline_at : ℕ)
    → IsNarrowing (admit_new t m p requested_at deadline_at)
unfolding admit_new
admit_new-IsNarrowing t m p requested_at deadline_at =
    IsNarrowing-bind new_request_id (admit_as t m p requested_at deadline_at)
      (record { at = λ s. Narrows-same s _ refl refl refl refl (omega arith) })
      λ id. admit_as-IsNarrowing t m p requested_at deadline_at id

admit-IsNarrowing :
    (t : ProbeTarget) (m : ProbeMethod) (p : ProbePriority) (requested_at deadline_at : ℕ)
    → IsNarrowing (admit t m p requested_at deadline_at)
unfolding admit
admit-IsNarrowing t m p requested_at deadline_at = record {
  at = λ s. elim (Bool-cases (leb s.settings.queue_limit (length s.requests_by_camera))) [
    | inl full ↦ rw full (Narrows-same s _ refl refl refl refl (omega arith))
    | inr room ↦ rw room ((admit_new-IsNarrowing t m p requested_at deadline_at).at s)
  ];
}

join_or_admit-IsNarrowing :
    (o : Option ProbeRequest) (t : ProbeTarget) (m : ProbeMethod) (p : ProbePriority)
    (requested_at deadline_at : ℕ)
    → IsNarrowing (join_or_admit o t m p requested_at deadline_at)
unfolding join_or_admit
join_or_admit-IsNarrowing none t m p requested_at deadline_at =
    admit-IsNarrowing t m p requested_at deadline_at
join_or_admit-IsNarrowing (some c) t m p requested_at deadline_at =
    join-IsNarrowing c t m p deadline_at

enter-IsNarrowing :
    (t : ProbeTarget) (m : ProbeMethod) (p : ProbePriority) (requested_at deadline_at : ℕ)
    → IsNarrowing (enter t m p requested_at deadline_at)
unfolding enter join_current
enter-IsNarrowing t m p requested_at deadline_at =
    IsNarrowing-bind (expire_active requested_at) _ (expire_active-IsNarrowing requested_at) λ _.
      IsNarrowing-bind (modify (drop_expired_pending requested_at))
        (λ _. join_current t m p requested_at deadline_at)
        (IsNarrowing-modify _ (drop_expired_pending-Narrows requested_at))
        λ _. record { at = λ s. (join_or_admit-IsNarrowing _ t m p requested_at deadline_at).at s }

pub submit-IsNarrowing :
    (t : ProbeTarget) (m : ProbeMethod) (p : ProbePriority) (requested_at deadline_at : ℕ)
    → IsNarrowing (submit t m p requested_at deadline_at)
unfolding submit
submit-IsNarrowing t m p requested_at deadline_at =
    IsNarrowing-bind (lift (require_probe_eligible t m)) _ (IsNarrowing-lift _) λ _.
      IsNarrowing-bind (lift (checked_window requested_at deadline_at))
        (λ _. enter t m p requested_at deadline_at) (IsNarrowing-lift _)
        λ _. enter-IsNarrowing t m p requested_at deadline_at
