-- ===== src/Probe/Eligibility.antt =====
-- `_require_probe_eligible`.
use rtsp_proxy.Prelude.{◌≡◌, ◌≢◌, Bool, true, false, not, ◌&&◌, Option, none, arith, ◌==◌, is_some}
use rtsp_proxy.Prelude.Errors.{probe_ineligible, Result, ok, refuse, ◌>>◌}
use rtsp_proxy.Probe.Kinds.{NodeState, running, ProbeMethod, source, path, is_path}
use rtsp_proxy.Probe.Data.{ProbeTarget}

abbrev is_running : NodeState → Bool
is_running running = true
is_running _ = false

unfoldable pub require_probe_eligible : ProbeTarget → ProbeMethod → Result (Unit {0})
require_probe_eligible target method = do
  refuse (not target.enabled) (probe_ineligible "camera_disabled")
  refuse target.maintenance (probe_ineligible "camera_maintenance")
  refuse (target.max_source_sessions == 1) (probe_ineligible "camera_passive_only")
  refuse (not (is_some target.source_endpoint_generation))
      (probe_ineligible "source_endpoint_unavailable")
  refuse (is_path method && not (is_running target.node_state))
      (probe_ineligible "node_path_unavailable")
  refuse (is_path method && target.occupied) (probe_ineligible "camera_occupied")
  refuse (is_path method && target.source_pull_active) (probe_ineligible "path_source_pull_active")
  refuse (is_path method && not (is_some target.node_runtime))
      (probe_ineligible "node_runtime_unavailable")

-- What a target must be for a PATH probe, beside what any probe needs.
pub record IsPathReady (target : ProbeTarget) : Type 0 where
  pub node_running : target.node_state ≡ running
  pub not_occupied : target.occupied ≡ false
  pub not_pulling : target.source_pull_active ≡ false
  pub runtime_known : target.node_runtime ≢ none

abbrev pub IsReadyFor : ProbeMethod → ProbeTarget → Type 0
IsReadyFor source target = Unit
IsReadyFor path target = IsPathReady target

pub record IsEligible (target : ProbeTarget) (method : ProbeMethod) : Type 0 where
  pub enabled : target.enabled ≡ true
  pub not_maintained : target.maintenance ≡ false
  pub more_sessions : target.max_source_sessions ≢ 1
  pub endpoint_known : target.source_endpoint_generation ≢ none
  pub method_ready : IsReadyFor method target

is_some-ne-none {ℓ} : {A : Type ℓ} (o : Option A) → is_some o ≡ true → o ≢ none
is_some-ne-none o h = ground arith

is_some_of_ne {ℓ} : {A : Type ℓ} (o : Option A) → o ≢ none → is_some o ≡ true
is_some_of_ne o h = ground arith

pub require_probe_eligible_sound :
    (t : ProbeTarget) (m : ProbeMethod) → require_probe_eligible t m ≡ ok tt → IsEligible t m
unfolding require_probe_eligible
require_probe_eligible_sound t source h = ground arith
require_probe_eligible_sound t path h = ground arith

pub require_probe_eligible_complete :
    (t : ProbeTarget) (m : ProbeMethod) → IsEligible t m → require_probe_eligible t m ≡ ok tt
unfolding require_probe_eligible
require_probe_eligible_complete t source h = ground arith
require_probe_eligible_complete t path h = ground (arith, h.method_ready)
