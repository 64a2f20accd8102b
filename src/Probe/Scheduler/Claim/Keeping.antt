-- ===== src/Probe/Scheduler/Claim/Keeping.antt =====
-- Invariants of the claims: what narrowing keeps, and a grant to a request that there is room for.
use rtsp_proxy.Prelude.{
  ℕ, zero, suc, ◌<◌, ◌≡◌, refl, Bool, true, false, ◌||◌, Option, none, some, List, [], ◌∷◌, count,
  values, arith, inl, inr, Bool-cases, ltb, ltb→lt, length, Dict, get,
}
use rtsp_proxy.Probe.Kinds.{ProbePriority, manual, confirmation, routine}
use rtsp_proxy.Probe.Data.{ProbeTarget, ProbeRequest, ProbeLease}
use rtsp_proxy.Probe.Scheduler.State.{Scheduler, method_limit, queue}
use rtsp_proxy.Probe.Scheduler.Steps.{Step, done}
use rtsp_proxy.Probe.Scheduler.Keeps.{Keeps, follow-Keeps, Keeps-bind}
use rtsp_proxy.Probe.Scheduler.Budget.{Narrows, Narrows-refl, Narrows-same, Narrows-trans}
use rtsp_proxy.Probe.Scheduler.Expiry.{expire_active, drop_expired_pending}
use rtsp_proxy.Probe.Scheduler.Expiry.Narrowing.{
  expire_active-IsNarrowing, drop_expired_pending-Narrows,
}
use rtsp_proxy.Probe.Scheduler.Select.{eligible, active_on_node, active_on_site, active_by_method}
use rtsp_proxy.Probe.Scheduler.Select.Chosen.{next_eligible_request-IsFirst}
use rtsp_proxy.Probe.Scheduler.Claim.{
  Refreshed, kept, renewed, dropped, reject, refresh, refresh_one, refresh_queue, refresh_at,
  refresh_pending_targets, grant_lease, claim_chosen, claim_round, while_room, claim_loop,
  run_claims, claim_refreshed, claim_locked, claim_available, target_mismatch, pending_count,
}

refresh_one-Narrows :
    (d : Refreshed) (r : ProbeRequest) (s : Scheduler) → Narrows s (refresh_one d r s).2
unfolding refresh_one reject
refresh_one-Narrows kept r s = Narrows-refl s
refresh_one-Narrows (renewed t) r s = Narrows-same s _ refl refl refl refl (omega arith)
refresh_one-Narrows dropped r s = Narrows-same s _ refl refl refl refl (omega arith)

refresh_queue-Narrows :
    (targets : Dict ProbeTarget) (q : List ProbeRequest) (s : Scheduler)
    → Narrows s (refresh_queue targets q s).2
unfolding refresh_queue
refresh_queue-Narrows targets [] s = Narrows-refl s
refresh_queue-Narrows targets (r ∷ rest) s =
    Narrows-trans s _ _ (refresh_one-Narrows (refresh (get r.target.camera_id targets) r) r s)
      (refresh_queue-Narrows targets rest _)

refresh_at-Narrows :
    (targets : Dict ProbeTarget) (p : ProbePriority) (s : Scheduler)
    → Narrows s (refresh_at targets p s).1
unfolding refresh_at
refresh_at-Narrows targets p s =
    Narrows-trans s _ _ (refresh_queue-Narrows targets (queue s.pending p) s)
      (Narrows-same _ _ refl refl refl refl (omega arith))

refresh_pending_targets-Narrows :
    (targets : Dict ProbeTarget) (s : Scheduler) → Narrows s (refresh_pending_targets targets s).1
unfolding refresh_pending_targets
refresh_pending_targets-Narrows targets s =
    Narrows-trans s _ _ (refresh_at-Narrows targets manual s) (
      Narrows-trans _ _ _ (refresh_at-Narrows targets confirmation _)
        (refresh_at-Narrows targets routine _))

-- What an eligible request leaves room for.
pub record HasRoom (s : Scheduler) (r : ProbeRequest) : Type 0 where
  pub in_all : count (λ _. true) (values s.active) < s.settings.global_limit
  pub on_node : active_on_node s r.target.node_id < s.settings.per_node_limit
  pub on_site : active_on_site s r.target.site_key < s.settings.per_site_limit
  pub by_method : active_by_method s r.method < method_limit s.settings r.method

eligible-HasRoom :
    (s : Scheduler) (now : ℕ) (admitted : List ℕ) (r : ProbeRequest)
    → count (λ _. true) (values s.active) < s.settings.global_limit
    → eligible s now admitted r ≡ true
    → HasRoom s r
unfolding eligible
eligible-HasRoom s now admitted r room h = ground arith

count_all : (l : List ProbeLease) → count (λ _. true) l ≡ length l
count_all [] = refl
count_all (x ∷ l) = omega (arith, count_all l)

length-values : (d : Dict ProbeLease) → length (values d) ≡ length d
length-values [] = refl
length-values ((k, v) ∷ d) = omega (arith, length-values d)

room_in_all :
    (s : Scheduler)
    → ltb (length s.active) s.settings.global_limit ≡ true
    → count (λ _. true) (values s.active) < s.settings.global_limit
room_in_all s h = omega (arith, ltb→lt _ _ h, count_all (values s.active), length-values s.active)

-- What narrowing keeps, and the grant of a lease to a request with room.
module _ (P : Scheduler → Type 0) (narrow : (s t : Scheduler) → Narrows s t → P s → P t)
    (grant : (now : ℕ) (r : ProbeRequest) (s : Scheduler)
      → HasRoom s r
      → P s
      → P (grant_lease now r s).1) where
  claim_chosen-Keeps :
      (now : ℕ) (admitted : List ℕ) (s : Scheduler) (chosen : Option ProbeRequest)
      (rest : ProbeLease → Step (List ProbeLease))
      → ((r : ProbeRequest) → chosen ≡ some r → HasRoom s r)
      → ((l : ProbeLease) → Keeps P (rest l))
      → P s
      → P (claim_chosen now chosen rest s).1
  unfolding claim_chosen
  claim_chosen-Keeps now admitted s none rest room keep b = b
  claim_chosen-Keeps now admitted s (some r) rest room keep b =
      follow-Keeps rest keep (grant_lease now r s) (grant now r s (room r refl) b)

  claim_round-Keeps :
      (now : ℕ) (admitted : List ℕ) (s : Scheduler) (rest : ProbeLease → Step (List ProbeLease))
      → count (λ _. true) (values s.active) < s.settings.global_limit
      → ((l : ProbeLease) → Keeps P (rest l))
      → P s
      → P (claim_round now admitted rest s).1
  unfolding claim_round
  claim_round-Keeps now admitted s rest room keep b =
      claim_chosen-Keeps now admitted (record s { fair_index = _ }) _ rest
        (λ r chosen.
          let (_, _, fits, _) = next_eligible_request-IsFirst s now admitted r chosen in
          let has : HasRoom s r = eligible-HasRoom s now admitted r room fits in
          record {
            in_all = has.in_all;
            on_node = has.on_node;
            on_site = has.on_site;
            by_method = has.by_method;
          })
        keep (narrow s _ (Narrows-same s _ refl refl refl refl (omega arith)) b)

  while_room-Keeps :
      (test : Bool) (round : Step (List ProbeLease)) (s : Scheduler)
      → P s
      → (test ≡ true → P (round s).1)
      → P (while_room test round s).1
  unfolding while_room
  while_room-Keeps false round s b h = b
  while_room-Keeps true round s b h = h refl

  claim_loop-Keeps : (fuel now : ℕ) (admitted : List ℕ) → Keeps P (claim_loop fuel now admitted)
  unfolding claim_loop
  claim_loop-Keeps zero now admitted = record { at = λ s b. b }
  claim_loop-Keeps (suc fuel) now admitted =
      let next = claim_loop-Keeps fuel now admitted in
      record {
        at = λ s b. while_room-Keeps (ltb (length s.active) s.settings.global_limit) _ s b λ room.
            claim_round-Keeps now admitted s _ (room_in_all s room)
              (λ l.
                Keeps-bind {P = P} (claim_loop fuel now admitted) (λ ls. done (l ∷ ls)) next
                  (λ ls. record { at = λ u d. d }))
              b;
      }

  claim_locked-Keeps : (now : ℕ) (targets : Dict ProbeTarget) → Keeps P (claim_locked now targets)
  unfolding claim_locked claim_refreshed run_claims
  claim_locked-Keeps now targets = record {
    at = λ s b.
        follow-Keeps {P = P} (λ _ t. claim_refreshed now targets (drop_expired_pending now t))
          (λ _. record {
            at = λ t c.
                let tidy = drop_expired_pending now t in
                (claim_loop-Keeps (suc (pending_count (refresh_pending_targets targets tidy).1)) now
                    (refresh_pending_targets targets tidy).0).at
                  (refresh_pending_targets targets tidy).1
                  (narrow t _
                    (Narrows-trans t tidy _ (drop_expired_pending-Narrows now t)
                      (refresh_pending_targets-Narrows targets tidy))
                    c);
          })
          (expire_active now s) (narrow s _ ((expire_active-IsNarrowing now).at s) b);
  }

  pub claim_available-Keeps :
      (now : ℕ) (targets : Dict ProbeTarget) (s : Scheduler)
      → P s
      → P (claim_available now targets s).1
  unfolding claim_available
  claim_available-Keeps now targets s b =
      elim (Bool-cases (ltb s.settings.queue_limit (length targets) || target_mismatch targets)) [
        | inl invalid ↦ rw invalid b
        | inr valid ↦ rw valid ((claim_locked-Keeps now targets).at s b)
      ]
