-- ===== src/Nodes/Methods/OfRegistration.antt =====
-- The registration of a node takes the steps of the registry.
use rtsp_proxy.Prelude.{
  ℕ, ◌≡◌, refl, Bool, true, false, not, ◌||◌, String, Option, none, some, List, [], ◌∷◌, ◌++◌, ◌==◌,
  arith, filter, ==_iff,
}
use rtsp_proxy.Prelude.Errors.{Result, ok, err, ◌>>=◌}
use rtsp_proxy.Nodes.Data.{RegistrationIdempotency, MediaNode}
use rtsp_proxy.Nodes.Ports.{contains, select_port_with_bounded_recheck}
use rtsp_proxy.Nodes.Ports.Sound.{IsSelected, select_port-IsSelected}
use rtsp_proxy.Nodes.Store.{Store, get_node, node_has_prepared_port_change, put_request}
use rtsp_proxy.Nodes.Register.{
  Registration, is_occupied, is_occupied_management, as_management, free_ports, new_node,
  register_automatically, NodeRegistrationResult, registered, register_idempotently,
}
use rtsp_proxy.Nodes.Steps.{also, node_requests, node_added}
use rtsp_proxy.Nodes.Methods.Rules.{Steps, steps_required, steps_after, steps_not}

-- An id that no node has, and no change of port waits for.
pub record IsFresh (id : ℕ) (s : Store) : Type 0 where
  pub is_new : get_node id s ≡ none
  pub is_settled : node_has_prepared_port_change id s ≡ false

free_ports-free :
    (occupied : ℕ → Bool) (ports : List ℕ) (p : ℕ)
    → contains (filter (λ q. not (occupied q)) ports) p ≡ true
    → (occupied p ≡ false) × (contains ports p ≡ true)
free_ports-free occupied [] p h = absurd (ground arith)
free_ports-free occupied (q ∷ rest) p h =
    ground (arith, ==_iff q p, free_ports-free occupied rest p)

module _ (s : Store) where
  steps_selected :
      (preferred : Option ℕ) (choose : List ℕ → ℕ) (bindable : ℕ → Bool) (ports : List ℕ)
      (next : ℕ → Result (MediaNode × Store))
      → ((p : ℕ) → IsSelected preferred bindable ports p → Steps s (next p))
      → Steps s (select_port_with_bounded_recheck preferred choose bindable ports >>= next)
  steps_selected preferred choose bindable ports next h =
      steps_after s (select_port_with_bounded_recheck preferred choose bindable ports) next
        (λ p e. h p (select_port-IsSelected preferred choose bindable ports p e))

  ok-as_management : (r : Result ℕ) (p : ℕ) → as_management r ≡ ok p → r ≡ ok p
  ok-as_management (ok q) p h = h
  ok-as_management (err e) p h = absurd (ground arith)

  steps_managed :
      (choose : List ℕ → ℕ) (bindable : ℕ → Bool) (ports : List ℕ)
      (next : ℕ → Result (MediaNode × Store))
      → ((p : ℕ) → IsSelected none bindable ports p → Steps s (next p))
      → Steps s
          (as_management (select_port_with_bounded_recheck none choose bindable ports) >>= next)
  steps_managed choose bindable ports next h =
      steps_after s (as_management (select_port_with_bounded_recheck none choose bindable ports))
        next
        (λ p e. h p (select_port-IsSelected none choose bindable ports p (ok-as_management _ p e)))

  steps_added :
      (r : Registration) (external api metrics : ℕ)
      → IsFresh r.new_node_id s
      → IsSelected r.preferred_port r.is_port_bindable
          (free_ports (is_occupied s) r.allowed_ports)
          external
      → IsSelected none r.is_port_bindable (free_ports (is_occupied_management s) r.api_ports) api
      → IsSelected none r.is_port_bindable
          (filter
            (λ port. not (port == external || port == api))
            (free_ports (is_occupied_management s) r.metrics_ports))
          metrics
      → Steps s (
          ok (
            new_node r external api metrics,
            record s { nodes = s.nodes ++ new_node r external api metrics ∷ [] },
          ))
  unfolding new_node
  steps_added r external api metrics fresh e a m =
      let apart =
        free_ports-free (λ port. port == external || port == api) _ metrics m.is_candidate in
      record {
        taken =
            node_added s (new_node r external api metrics) fresh.is_new fresh.is_settled refl
              (free_ports-free (is_occupied s) r.allowed_ports external e.is_candidate).0
              (free_ports-free (is_occupied_management s) r.api_ports api a.is_candidate).0
              (free_ports-free (is_occupied_management s) r.metrics_ports metrics apart.1).0
              (ground (arith, apart.0));
      }

  pub register_automatically-Steps :
      (r : Registration) → IsFresh r.new_node_id s → Steps s (register_automatically r s)
  unfolding register_automatically
  register_automatically-Steps r fresh =
      search (steps_required s, steps_selected, steps_managed, steps_added) depth 20 fits 10000

  steps_noted :
      (r : Result (MediaNode × Store)) (i : RegistrationIdempotency)
      → Steps s r
      → Steps {A = NodeRegistrationResult} s (
          r >>= λ made. ok (
            record { node = made.0; replayed = false },
            record (made.1) {
              registration_requests =
                  put_request
                    (i.actor_session_id, i.key)
                    (i.actor_account_id, i.request_sha256, made.0.id)
                    made.1.registration_requests;
            },
          ))
  steps_noted (ok made) i h = record { taken = also s made.1 _ h.taken (node_requests made.1 _) }
  steps_noted (err e) i h = record { taken = tt }

  registered-Steps :
      (r : Registration) (i : RegistrationIdempotency) (o : Option (ℕ × String × ℕ))
      → IsFresh r.new_node_id s
      → Steps s (registered r i o s)
  unfolding registered put_request
  registered-Steps r i (some previous) fresh = search (steps_after s, steps_not s)
  registered-Steps r i none fresh =
      steps_noted (register_automatically r s) i (register_automatically-Steps r fresh)

  pub register_idempotently-Steps :
      (r : Registration) (i : RegistrationIdempotency)
      → IsFresh r.new_node_id s
      → Steps s (register_idempotently r i s)
  unfolding register_idempotently
  register_idempotently-Steps r i fresh = registered-Steps r i _ fresh
