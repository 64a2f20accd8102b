-- ===== src/Access/Telemetry/Bounds.antt =====
-- Every event is counted once, and each is kept or counted as dropped.
use rtsp_proxy.Prelude.{
  ℕ, ◌+◌, ◌≤◌, ◌≡◌, refl, subst, List, [], ◌∷◌, arith, length, length-append, eqb, inl, inr,
  Bool-cases, ◌==◌, if◌then◌else◌,
}
use rtsp_proxy.Prelude.Errors.{ok}
use rtsp_proxy.Access.Telemetry.{
  Telemetry, AccessDecisionEvent, MetricKey, MetricKey-discrete, bump, record_event, record_all,
  append_bounded, create_telemetry,
}

abbrev pub sum_counts : List (MetricKey × ℕ) → ℕ
sum_counts [] = 0
sum_counts ((k, n) ∷ rest) = n + sum_counts rest

bump-sum_counts :
    (k : MetricKey) (l : List (MetricKey × ℕ)) → sum_counts (bump k l) ≡ sum_counts l + 1
unfolding bump
bump-sum_counts k [] = refl
bump-sum_counts k ((j, n) ∷ rest) = elim (Bool-cases (eqb MetricKey-discrete j k)) [
  | inl same ↦ rw same (omega arith)
  | inr other ↦ rw other (omega (arith, bump-sum_counts k rest))
]

-- After `n` events: each of them is counted, each is kept or counted as dropped, and no more are
-- kept than may be.
pub record Accounts (t : Telemetry) (n : ℕ) : Type 0 where
  pub all_counted : sum_counts t.counters ≡ n
  pub kept_or_dropped : length t.audit + t.dropped_audit ≡ n
  pub kept_bounded : length t.audit ≤ t.maximum_audit_events
  pub some_room : 1 ≤ t.maximum_audit_events

length-append_bounded :
    (most : ℕ) (l : List AccessDecisionEvent) (e : AccessDecisionEvent)
    → 1 ≤ most
    → length (append_bounded most l e) + (if length l == most then 1 else 0) ≡ length l + 1
length-append_bounded most [] e h = ground arith
length-append_bounded most (x ∷ l) e h = ground (arith, length-append l (e ∷ []))

record_event-Accounts :
    (e : AccessDecisionEvent) (t : Telemetry) (n : ℕ)
    → Accounts t n
    → Accounts (record_event e t) (n + 1)
unfolding record_event
record_event-Accounts e t n a =
    let kept = length-append_bounded t.maximum_audit_events t.audit e a.some_room in
    record {
      all_counted = rw bump-sum_counts (omega (arith, a.all_counted));
      kept_or_dropped = omega (arith, kept, a.kept_or_dropped);
      kept_bounded = ground (arith, kept, a.kept_bounded);
      some_room = a.some_room;
    }

record_all-Accounts :
    (es : List AccessDecisionEvent) (t : Telemetry) (n : ℕ)
    → Accounts t n
    → Accounts (record_all es t) (n + length es)
unfolding record_all
record_all-Accounts [] t n a = record {
  all_counted = omega (arith, a.all_counted);
  kept_or_dropped = omega (arith, a.kept_or_dropped);
  kept_bounded = a.kept_bounded;
  some_room = a.some_room;
}
record_all-Accounts (e ∷ es) t n a =
    let rest = record_all-Accounts es (record_event e t) (n + 1) (record_event-Accounts e t n a) in
    record {
      all_counted = omega (arith, rest.all_counted);
      kept_or_dropped = omega (arith, rest.kept_or_dropped);
      kept_bounded = rest.kept_bounded;
      some_room = rest.some_room;
    }

create-Accounts : (most : ℕ) (t : Telemetry) → create_telemetry most ≡ ok t → Accounts t 0
unfolding create_telemetry
create-Accounts most t h = ground arith

-- Once any events have been recorded in a new telemetry, the counters add up to their number, the
-- events kept and the number of those dropped add up to it too, and no more events are kept than
-- its limit.
pub record_all-Accounts_all :
    (most : ℕ) (t : Telemetry) (es : List AccessDecisionEvent)
    → create_telemetry most ≡ ok t
    → Accounts (record_all es t) (length es)
record_all-Accounts_all most t es h =
    let none_yet : 0 + length es ≡ length es = omega arith in
    subst (Accounts (record_all es t)) none_yet
      (record_all-Accounts es t 0 (create-Accounts most t h))
