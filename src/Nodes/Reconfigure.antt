-- ===== src/Nodes/Reconfigure.antt =====
-- The changes of a node's release by `InMemoryNodeStore` (nodes.py), and the confirmation of the
-- cameras that a change disconnects.
use rtsp_proxy.Prelude.{
  ℕ, suc, String, Bool, true, false, not, ◌&&◌, ◌||◌, Option, none, some, ◌==◌, length, map, eqb,
  is_some, if◌then◌else◌,
}
use rtsp_proxy.Prelude.Errors.{
  value_error, node_lifecycle_conflict, node_release_conflict, Result, ok, refuse, ◌>>=◌, ◌>>◌,
}
use mathlib.Core.Bool.{Bool-discrete}
use rtsp_proxy.Probe.Kinds.{NodeState, running, stopped, failed}
use rtsp_proxy.Access.Grants.{text_is}
use rtsp_proxy.Nodes.Kinds.{is_draining, is_stopped}
use rtsp_proxy.Nodes.Data.{NodeCommandFence, MediaNode}
use rtsp_proxy.Nodes.Table.{put_at}
use rtsp_proxy.Nodes.Checks.{
  require_node_command_fence, validate_release, camera_placement_fingerprint,
}
use rtsp_proxy.Nodes.Store.{Store, Means, get_node, cameras_on, node_has_prepared_port_change}
use rtsp_proxy.Nodes.Lifecycle.{require_node, saved, truthy, has_active_moves_on}

-- `validate_release` where a release is given.
abbrev release_checked : Option String → Option String → Result (Unit {0})
release_checked (some release_id) (some digest) = validate_release release_id digest
release_checked _ _ = ok tt

abbrev or_own : String → Option String → String
or_own own none = own
or_own own (some given) = given

-- `release_id is not None and (node.release_id != release_id or …)`; the digest is then given too.
abbrev release_changed : MediaNode → Option String → Option String → Bool
release_changed n none digest = false
release_changed n (some release_id) digest =
    not (text_is n.release_id release_id)
    || not (text_is n.mediamtx_binary_sha256 (or_own n.mediamtx_binary_sha256 digest))

abbrev reconfigurable : NodeState → Bool
reconfigurable running = true
reconfigurable stopped = true
reconfigurable failed = true
reconfigurable _ = false

unfoldable pub request_release :
    ℕ → String → String → Option NodeCommandFence → Store → Result (MediaNode × Store)
unfolding get_node put_at require_node_command_fence has_active_moves_on validate_release
request_release id release_id digest fence s = do
  validate_release release_id digest
  n ← require_node id s
  require_node_command_fence n fence
  refuse (has_active_moves_on id s) (node_lifecycle_conflict "node_operation_in_progress")
  refuse
      (not (is_stopped n.state)
        || not (is_stopped n.runtime_state)
        || truthy n.registered_cameras
        || not (n.applied_revision == n.desired_revision))
      (node_release_conflict "node_release_transition_requires_stopped_empty")
  if text_is n.release_id release_id && text_is n.mediamtx_binary_sha256 digest
      then ok (n, s)
      else saved
          (record n {
            release_id = release_id;
            mediamtx_binary_sha256 = digest;
            desired_revision = suc n.desired_revision;
            applied_revision = 0;
            config_compatible = false;
            management_fresh = false;
            management_observed_at = none;
          })
          s

module _ {A : Type 0} (means : Means A) where
  -- The cameras on the node are those that the caller has seen.
  unfoldable pub require_blast_radius : MediaNode → ℕ → ℕ → String → Store → Result (Unit {0})
  unfolding camera_placement_fingerprint
  require_blast_radius n id expected_cameras expected_sha256 s =
      refuse
        (not (n.registered_cameras == expected_cameras)
          || not (length (cameras_on id s) == expected_cameras)
          || not (
              text_is
                (camera_placement_fingerprint means.digest
                  (map (λ c. (c.id, c.placement_generation)) (cameras_on id s)))
                expected_sha256))
        (node_lifecycle_conflict "node_blast_radius_changed")

  -- The revision, the number of cameras and their digest are the caller's expectations.
  unfoldable pub request_reconfigure :
      ℕ → ℕ → ℕ → String → Option String → Option String → Store → Result (MediaNode × Store)
  unfolding get_node put_at has_active_moves_on node_has_prepared_port_change require_blast_radius
      validate_release
  request_reconfigure id revision cameras sha256 release_id digest s = do
    refuse (not (eqb Bool-discrete (is_some release_id) (is_some digest)))
        (value_error "node_release_identity_incomplete")
    release_checked release_id digest
    n ← require_node id s
    refuse (not (is_draining n.state)) (node_lifecycle_conflict "node_not_draining")
    refuse (not (reconfigurable n.runtime_state))
        (node_lifecycle_conflict "node_reconfigure_runtime_invalid")
    refuse (not (n.desired_revision == revision)) (node_lifecycle_conflict "node_revision_conflict")
    refuse (has_active_moves_on id s || node_has_prepared_port_change id s)
        (node_lifecycle_conflict "node_operation_in_progress")
    require_blast_radius n id cameras sha256 s
    saved
        (record n {
          release_id = or_own n.release_id release_id;
          mediamtx_binary_sha256 = or_own n.mediamtx_binary_sha256 digest;
          desired_revision = suc n.desired_revision;
          applied_revision = if release_changed n release_id digest then 0 else n.applied_revision;
          management_fresh = false;
          management_observed_at = none;
          config_compatible = false;
        })
        s
