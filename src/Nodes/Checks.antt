-- ===== src/Nodes/Checks.antt =====
-- The tests of nodes.py that the registry calls.
use rtsp_proxy.Prelude.{
  ℕ, ◌+◌, ◌*◌, String, Bool, true, false, not, ◌&&◌, ◌||◌, Option, none, some, List, [], ◌∷◌, ltb,
  leb, ◌==◌, length, any, eqb, is_some, if◌then◌else◌,
}
use rtsp_proxy.Prelude.Errors.{
  value_error, node_lifecycle_conflict, invalid_node_runtime_observation, Result, refuse, ◌>>◌,
}
use mathlib.Core.Bool.{Bool-discrete}
use rtsp_proxy.Probe.Text.{codes}
use rtsp_proxy.Access.Grants.{is_hex, text_is}
use rtsp_proxy.Nodes.Kinds.{same_state, is_running, is_stopped, is_healthy}
use rtsp_proxy.Nodes.Data.{NodeCommandFence, NodeRuntimeObservation, MediaNode}

-- `observed_at is not None and observed_at >= now - timedelta(seconds=seconds)`
abbrev pub observed_within : ℕ → ℕ → Option ℕ → Bool
observed_within seconds now none = false
observed_within seconds now (some at) = leb now (at + seconds * 1_000_000)

unfoldable pub is_node_eligible : ℕ → ℕ → MediaNode → Bool
is_node_eligible seconds now n =
    is_running n.state
    && is_running n.runtime_state
    && is_healthy n.health
    && n.management_fresh
    && observed_within seconds now n.management_observed_at
    && n.config_compatible
    && n.applied_revision == n.desired_revision
    && not n.maintenance
    && ltb n.registered_cameras n.camera_capacity

abbrev fence_broken : MediaNode → Option NodeCommandFence → Bool
fence_broken n none = false
fence_broken n (some f) =
    not (n.desired_revision == f.expected_revision) || not (same_state n.state f.expected_state)

unfoldable pub require_node_command_fence : MediaNode → Option NodeCommandFence → Result (Unit {0})
require_node_command_fence n fence =
    refuse (fence_broken n fence) (node_lifecycle_conflict "node_command_fence_conflict")

unfoldable pub validate_release : String → String → Result (Unit {0})
validate_release release_id digest = do
  refuse (text_is release_id "" || ltb 128 (length (codes release_id)))
      (value_error "node_release_id_invalid")
  refuse (not (length (codes digest) == 64) || any (λ c. not (is_hex c)) (codes digest))
      (value_error "node_binary_sha256_invalid")

-- `x is None or x < 1`
abbrev below_one : Option ℕ → Bool
below_one none = true
below_one (some n) = ltb n 1

-- `value != text` where the value may be none.
abbrev differs : Option String → String → Bool
differs none t = true
differs (some s) t = not (text_is s t)

unfoldable pub validate_runtime_observation : MediaNode → NodeRuntimeObservation → Result (Unit {0})
validate_runtime_observation n o = do
  refuse (ltb n.desired_revision o.applied_revision)
      (invalid_node_runtime_observation "runtime_applied_revision_invalid")
  refuse
      ((is_running o.state || is_stopped o.state)
        && o.config_compatible
        && not (o.applied_revision == n.desired_revision))
      (invalid_node_runtime_observation "runtime_observation_revision_stale")
  refuse
      (not (
        eqb Bool-discrete (is_running o.state)
          (is_some o.process_id && is_some o.process_start_ticks && is_some o.process_boot_id)))
      (invalid_node_runtime_observation "runtime_process_identity_invalid")
  refuse (is_running o.state && (below_one o.process_id || below_one o.process_start_ticks))
      (invalid_node_runtime_observation "runtime_process_identity_invalid")
  refuse (o.management_fresh && not (is_running o.state))
      (invalid_node_runtime_observation "runtime_management_freshness_invalid")
  refuse
      (o.config_compatible
        && (not (is_some o.config_sha256)
            || differs o.release_id n.release_id
            || not (o.applied_revision == n.desired_revision)))
      (invalid_node_runtime_observation "runtime_config_identity_invalid")

-- `sorted(placements, key=lambda item: item[0].int)`, which keeps the order of equal ids.
insert_by_id : ℕ × ℕ → List (ℕ × ℕ) → List (ℕ × ℕ)
insert_by_id p [] = p ∷ []
insert_by_id p (q ∷ rest) =
    let tail = insert_by_id p rest in if ltb p.0 q.0 then p ∷ q ∷ rest else q ∷ tail

sorted_by_id : List (ℕ × ℕ) → List (ℕ × ℕ)
unfolding insert_by_id
sorted_by_id [] = []
sorted_by_id (p ∷ rest) = insert_by_id p (sorted_by_id rest)

-- The digest takes the pairs, of which the code joins the texts in lines and takes the SHA-256.
unfoldable pub camera_placement_fingerprint : (List (ℕ × ℕ) → String) → List (ℕ × ℕ) → String
unfolding sorted_by_id
camera_placement_fingerprint digest placements = digest (sorted_by_id placements)
