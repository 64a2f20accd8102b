-- ===== src/Nodes/Methods/OfNodes.antt =====
-- The commands on one node take the steps of the registry.
use rtsp_proxy.Prelude.{ℕ, ◌≡◌, refl, false, Option, none, some, String, not, ◌||◌, arith, sym}
use rtsp_proxy.Probe.Kinds.{NodeState}
use rtsp_proxy.Nodes.Data.{NodeCommandFence, NodeRuntimeObservation, MediaNode}
use rtsp_proxy.Prelude.Errors.{ok}
use rtsp_proxy.Nodes.Kinds.{is_node_deleting}
use rtsp_proxy.Nodes.Table.{find-key, remove_at}
use rtsp_proxy.Nodes.Store.{Store, Means, get_node, node_key}
use rtsp_proxy.Nodes.Lifecycle.{
  observed, truthy, apply_runtime_observation, request_desired_state, request_administrative_state,
  request_node_delete, finalized, finalize_node_delete, request_stop, request_restart,
}
use rtsp_proxy.Nodes.Reconfigure.{request_release, request_reconfigure}
use rtsp_proxy.Nodes.Steps.{node_removed}
use rtsp_proxy.Nodes.Methods.Rules.{Steps, steps_required, steps_not, step_rules}

pub request_restart-Steps :
    (id : ℕ) (fence : Option NodeCommandFence) (s : Store) → Steps s (request_restart id fence s)
unfolding request_restart
request_restart-Steps id fence s = search step_rules depth 20

pub request_stop-Steps :
    (id : ℕ) (fence : Option NodeCommandFence) (s : Store) → Steps s (request_stop id fence s)
unfolding request_stop
request_stop-Steps id fence s = search step_rules depth 20

pub request_node_delete-Steps :
    (id : ℕ) (fence : Option NodeCommandFence) (s : Store)
    → Steps s (request_node_delete id fence s)
unfolding request_node_delete
request_node_delete-Steps id fence s = search step_rules depth 20

pub request_desired_state-Steps :
    (id : ℕ) (state : NodeState) (fence : Option NodeCommandFence) (s : Store)
    → Steps s (request_desired_state id state fence s)
unfolding request_desired_state
request_desired_state-Steps id state fence s = search step_rules depth 20

pub request_administrative_state-Steps :
    (id : ℕ) (state : NodeState) (fence : Option NodeCommandFence) (s : Store)
    → Steps s (request_administrative_state id state fence s)
unfolding request_administrative_state
request_administrative_state-Steps id state fence s = search step_rules depth 20

pub apply_runtime_observation-Steps :
    (id : ℕ) (o : NodeRuntimeObservation) (now : ℕ) (s : Store)
    → Steps s (apply_runtime_observation id o now s)
unfolding apply_runtime_observation observed
apply_runtime_observation-Steps id o now s = search step_rules depth 20

pub request_release-Steps :
    (id : ℕ) (release_id digest : String) (fence : Option NodeCommandFence) (s : Store)
    → Steps s (request_release id release_id digest fence s)
unfolding request_release
request_release-Steps id release_id digest fence s = search step_rules depth 20

pub request_reconfigure-Steps :
    {A : Type 0} (means : Means A) (id revision cameras : ℕ) (sha256 : String)
    (release_id digest : Option String) (s : Store)
    → Steps s (request_reconfigure means id revision cameras sha256 release_id digest s)
unfolding request_reconfigure
request_reconfigure-Steps means id revision cameras sha256 release_id digest s =
    search step_rules depth 30 fits 20000

steps_removed :
    (s : Store) (id : ℕ) (n : MediaNode)
    → get_node id s ≡ some n
    → (not (is_node_deleting n.state) || truthy n.registered_cameras) ≡ false
    → Steps s (ok (tt, record s { nodes = remove_at node_key id s.nodes }))
unfolding get_node
steps_removed s id n found ready =
    let same = find-key node_key id s.nodes n found in
    rw (sym same) (record { taken = node_removed s n (rw (sym same) at found) (ground arith) })

finalized-Steps :
    (o : Option MediaNode) (id : ℕ) (s : Store) → get_node id s ≡ o → Steps s (finalized o id s)
unfolding finalized
finalized-Steps none id s found = steps_not s tt
finalized-Steps (some n) id s found = search (steps_required, steps_removed)

pub finalize_node_delete-Steps : (id : ℕ) (s : Store) → Steps s (finalize_node_delete id s)
unfolding finalize_node_delete
finalize_node_delete-Steps id s = finalized-Steps (get_node id s) id s refl
