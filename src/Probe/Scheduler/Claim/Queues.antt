-- ===== src/Probe/Scheduler/Claim/Queues.antt =====
-- What holds of all pending requests goes on to hold when a lease is granted.
use rtsp_proxy.Prelude.{
  ℕ, ◌≡◌, subst, true, some, List, [], ◌∷◌, inl, inr, arith, Option-cases, Bool-cases, All, eqb,
  ==_iff, ◌==◌,
}
use rtsp_proxy.Prelude.Errors.{Result, ok, err}
use rtsp_proxy.Probe.Kinds.{ProbePriority, manual, confirmation, routine}
use rtsp_proxy.Probe.Data.{ProbeRequest, ProbeLease, checked_lease}
use rtsp_proxy.Probe.Identity.{ProbeRequest-discrete}
use rtsp_proxy.Probe.Scheduler.State.{Scheduler, Pending, queue, set_queue}
use rtsp_proxy.Probe.Scheduler.Keeps.{Keeps, Keeps-bind}
use rtsp_proxy.Probe.Scheduler.Submit.{remove_first}
use rtsp_proxy.Probe.Scheduler.Select.{eligible, mem}
use rtsp_proxy.Probe.Scheduler.Claim.{
  next_attempt, draw_token, take_pending, count_attempt, prepare, start_lease, activate,
  grant_lease, lease_for,
}

remove_first-All :
    (P : ProbeRequest → Type 0) (r : ProbeRequest) (q l : List ProbeRequest)
    → remove_first r q ≡ some l
    → All P q
    → All P l
unfolding remove_first
remove_first-All P r [] l h a = absurd (ground arith)
remove_first-All P r (x ∷ q) l h a = elim (Bool-cases (eqb ProbeRequest-discrete x r)) [
  | inl same ↦ let e : q ≡ l = ground arith in subst (All P) e a.1
  | inr other ↦ elim (Option-cases (remove_first r q)) [
    | inl missing ↦ absurd (ground arith)
    | inr (rest, e) ↦
        let split : x ∷ rest ≡ l = ground arith in
        subst (All P) split (a.0, remove_first-All P r q rest e a.1)
  ]
]

pub eligible-mem :
    (s : Scheduler) (now : ℕ) (admitted : List ℕ) (r : ProbeRequest)
    → eligible s now admitted r ≡ true
    → mem r.target.camera_id admitted ≡ true
unfolding eligible
eligible-mem s now admitted r h = ground arith

pub mem-All : (P : ℕ → Type 0) (k : ℕ) (l : List ℕ) → mem k l ≡ true → All P l → P k
mem-All P k [] h a = absurd (ground arith)
mem-All P k (j ∷ l) h a = elim (Bool-cases (j == k)) [
  | inl same ↦ subst P ((==_iff j k).0 same) a.0
  | inr other ↦ mem-All P k l (ground arith) a.1
]

module _ (P : ProbeRequest → Type 0) where
  abbrev pub Kept : Scheduler → Type 0
  Kept s = (p : ProbePriority) → All P (queue s.pending p)

  set_queue-Kept :
      (p : ProbePriority) (l : List ProbeRequest) (q : Pending)
      → ((k : ProbePriority) → All P (queue q k))
      → All P l
      → (k : ProbePriority) → All P (queue (set_queue p l q) k)
  set_queue-Kept manual l q kept new manual = new
  set_queue-Kept manual l q kept new k = kept k
  set_queue-Kept confirmation l q kept new confirmation = new
  set_queue-Kept confirmation l q kept new k = kept k
  set_queue-Kept routine l q kept new routine = new
  set_queue-Kept routine l q kept new k = kept k

  take_pending-Kept : (r : ProbeRequest) → Keeps Kept (take_pending r)
  unfolding take_pending
  take_pending-Kept r = record {
    at = λ s kept. elim (Option-cases (remove_first r (queue s.pending r.priority))) [
      | inl missing ↦ rw missing kept
      | inr (l, e) ↦ rw e (
          set_queue-Kept r.priority l s.pending kept
            (remove_first-All P r (queue s.pending r.priority) l e (kept r.priority)))
    ];
  }

  count_attempt-Kept : (r : ProbeRequest) → Keeps Kept (count_attempt r)
  unfolding count_attempt
  count_attempt-Kept r =
      Keeps-bind {P = Kept} (λ s. (next_attempt r s, s)) _ (record { at = λ s p. p })
        λ n. record { at = λ s p. p }

  prepare-Kept : (r : ProbeRequest) → Keeps Kept (prepare r)
  unfolding prepare draw_token
  prepare-Kept r = Keeps-bind {P = Kept} (take_pending r) _ (take_pending-Kept r) λ _.
      Keeps-bind {P = Kept} (count_attempt r) _ (count_attempt-Kept r) λ n. record { at = λ s p. p }

  start_lease-Kept : (l : Result ProbeLease) → Keeps Kept (start_lease l)
  unfolding start_lease
  start_lease-Kept (ok l) = record { at = λ s p. p }
  start_lease-Kept (err e) = record { at = λ s p. p }

  pub grant_lease-Kept : (now : ℕ) (r : ProbeRequest) → Keeps Kept (grant_lease now r)
  unfolding grant_lease activate
  grant_lease-Kept now r = Keeps-bind {P = Kept} (prepare r) (activate now r) (prepare-Kept r) λ n.
      record {
        at = λ s p. (start_lease-Kept (checked_lease (lease_for now r s.settings.lease n))).at s p;
      }
