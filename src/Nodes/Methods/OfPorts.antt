-- ===== src/Nodes/Methods/OfPorts.antt =====
-- The change of a node's port takes the steps of the registry.
use rtsp_proxy.Prelude.{ℕ, ◌≡◌, refl, false, not, some, [], ◌∷◌, ◌++◌, ◌==◌, arith, subst, sym}
use rtsp_proxy.Prelude.Errors.{Result, ok, ◌>>=◌}
use rtsp_proxy.Nodes.Kinds.{NodePortChangeState, is_prepared}
use rtsp_proxy.Nodes.Data.{MediaNode, NodePortChange, NodeRuntimeObservation}
use rtsp_proxy.Nodes.Table.{find, find-key}
use rtsp_proxy.Nodes.Store.{
  Store, Means, get_node, put_node, put_change, port_change_of, change_key,
  node_has_prepared_port_change,
}
use rtsp_proxy.Nodes.Lifecycle.{observed}
use rtsp_proxy.Nodes.PortChange.{
  PortChangeRequest, is_taken, prepared_change, begin_port_change, require_change, moved_to_port,
  complete_port_change, abort_port_change,
}
use rtsp_proxy.Nodes.Steps.{change_begun, change_completed, change_aborted}
use rtsp_proxy.Nodes.Methods.Rules.{
  Steps, steps_required, steps_then, steps_either, steps_found, steps_on, steps_not,
}

module _ (s : Store) where
  steps_begun :
      (q : PortChangeRequest) (n : MediaNode)
      → n.id ≡ q.node_id
      → get_node n.id s ≡ some n
      → (n.external_port == q.new_port) ≡ false
      → is_taken q.node_id q.new_port s ≡ false
      → node_has_prepared_port_change q.node_id s ≡ false
      → Steps s (
          ok (
            prepared_change q n,
            record s { port_changes = s.port_changes ++ prepared_change q n ∷ [] },
          ))
  unfolding prepared_change
  steps_begun q n same found other untaken single = record {
    taken = change_begun s n (prepared_change q n) (record {
      found = subst (λ id. get_node id s ≡ some n) same found;
      old_port = refl;
      is_other = other;
      is_untaken = untaken;
      is_single = single;
      state = refl;
    });
  }

  pub begin_port_change-Steps :
      {A : Type 0} (means : Means A) (q : PortChangeRequest) → Steps s (begin_port_change means q s)
  unfolding begin_port_change
  begin_port_change-Steps means q =
      search (steps_required s, steps_then s, steps_on s, steps_begun) depth 20 fits 20000

  steps_changing :
      (id : ℕ) (next : NodePortChange → Result (MediaNode × Store))
      → ((c : NodePortChange) → port_change_of c.id s ≡ some c → Steps s (next c))
      → Steps s (require_change id s >>= next)
  unfolding require_change
  steps_changing id next h = steps_found s _ _ _ (λ c e. h c (
      subst (λ k. find change_key k s.port_changes ≡ some c)
        (sym (find-key change_key id s.port_changes c e)) e))

  steps_completed :
      (c : NodePortChange) (n : MediaNode) (o : NodeRuntimeObservation) (now : ℕ)
      → port_change_of c.id s ≡ some c
      → get_node c.node_id s ≡ some n
      → not (is_prepared c.state) ≡ false
      → let m =
          observed now o
            (record n { external_port = c.new_port; desired_revision = c.target_revision }) in
        Steps s (
          ok (
            m,
            put_change
                (record c { state = NodePortChangeState.complete })
                (record (put_node m s) { cameras = moved_to_port n.id c.new_port s.cameras }),
          ))
  unfolding observed
  steps_completed c n o now found on ready = record {
    taken = change_completed s c n _ found (ground arith) on (record {
      id = refl;
      external_port = refl;
      api_port = refl;
      metrics_port = refl;
      registered_cameras = refl;
      camera_capacity = refl;
    });
  }

  pub complete_port_change-Steps :
      (id : ℕ) (o : NodeRuntimeObservation) (now : ℕ) → Steps s (complete_port_change id o now s)
  unfolding complete_port_change
  complete_port_change-Steps id o now =
      search
        (
          steps_changing,
          steps_found s,
          steps_either s,
          steps_not s,
          steps_required s,
          steps_then s,
          steps_completed,
        )
        depth 20 fits 20000

  steps_aborted :
      (c : NodePortChange) (n : MediaNode) (o : NodeRuntimeObservation) (now : ℕ)
      → port_change_of c.id s ≡ some c
      → get_node c.node_id s ≡ some n
      → not (is_prepared c.state) ≡ false
      → let m =
          observed now o
            (record n { external_port = c.old_port; desired_revision = c.source_revision }) in
        Steps s
          (ok (m, put_change (record c { state = NodePortChangeState.aborted }) (put_node m s)))
  unfolding observed
  steps_aborted c n o now found on ready = record {
    taken = change_aborted s c n _ found (ground arith) on (record {
      id = refl;
      external_port = refl;
      api_port = refl;
      metrics_port = refl;
      registered_cameras = refl;
      camera_capacity = refl;
    });
  }

  pub abort_port_change-Steps :
      (id : ℕ) (o : NodeRuntimeObservation) (now : ℕ) → Steps s (abort_port_change id o now s)
  unfolding abort_port_change
  abort_port_change-Steps id o now =
      search
        (
          steps_changing,
          steps_found s,
          steps_either s,
          steps_not s,
          steps_required s,
          steps_then s,
          steps_aborted,
        )
        depth 20 fits 20000
