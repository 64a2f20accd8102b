-- ===== src/Probe/Identity.antt =====
-- Equality of the dataclasses of probes.py, field by field, and the generations of a target:
-- `_probe_generation_key` and the comparisons that stand on it.
use rtsp_proxy.Prelude.{
  ◌≡◌, true, eqb_refl, arith, ℕ, String, Bool, ◌&&◌, ◌||◌, Option, none, some, eqb, ℕ_discrete,
  String-discrete,
}
use rtsp_proxy.Probe.Kinds.{ProbeMethod, source, path, is_source, NodeState-discrete}
use rtsp_proxy.Probe.Data.{
  ProbeNodeRuntimeGeneration, ProbeTarget, ProbeRequest, ProbeLease, ProbeObservation,
}
use mathlib.Core.Bool.{Bool-discrete}

pub ProbeTarget-discrete : Discrete ProbeTarget
ProbeTarget-discrete = hlevel (ℕ_discrete, String-discrete)

unfoldable pub ProbeRequest-discrete : Discrete ProbeRequest
ProbeRequest-discrete = hlevel (ℕ_discrete, String-discrete)

pub ProbeLease-discrete : Discrete ProbeLease
ProbeLease-discrete = hlevel (ℕ_discrete, String-discrete)

pub ProbeObservation-discrete : Discrete ProbeObservation
ProbeObservation-discrete = hlevel (ℕ_discrete, String-discrete)

-- The tuple of `_probe_generation_key`: for SOURCE the runtime is not part of it.
pub record ProbeGenerationKey : Type 0 where
  pub camera_id : ℕ
  pub public_id : String
  pub node_id : ℕ
  pub desired_revision : ℕ
  pub placement_generation : ℕ
  pub source_endpoint_generation : Option ℕ
  pub runtime : Option (Option ProbeNodeRuntimeGeneration)

unfoldable pub ProbeGenerationKey-discrete : Discrete ProbeGenerationKey
ProbeGenerationKey-discrete = hlevel (ℕ_discrete, String-discrete)

unfoldable pub node_runtime-discrete : Discrete (Option ProbeNodeRuntimeGeneration)
node_runtime-discrete = hlevel (ℕ_discrete, String-discrete)

abbrev key_runtime : ProbeMethod → ProbeTarget → Option (Option ProbeNodeRuntimeGeneration)
key_runtime source target = none
key_runtime path target = some target.node_runtime

unfoldable pub probe_generation_key : ProbeTarget → ProbeMethod → ProbeGenerationKey
probe_generation_key target method = record {
  camera_id = target.camera_id;
  public_id = target.public_id;
  node_id = target.node_id;
  desired_revision = target.desired_revision;
  placement_generation = target.placement_generation;
  source_endpoint_generation = target.source_endpoint_generation;
  runtime = key_runtime method target;
}

unfoldable pub same_probe_generation : ProbeTarget → ProbeTarget → Bool
same_probe_generation left right =
    eqb ProbeGenerationKey-discrete (probe_generation_key left source)
      (probe_generation_key right source)

unfoldable pub same_health_generation : ProbeTarget → ProbeTarget → ProbeMethod → Bool
same_health_generation left right method =
    eqb ProbeGenerationKey-discrete (probe_generation_key left method)
      (probe_generation_key right method)

unfoldable pub observation_target_is_current : ProbeTarget → ProbeTarget → ProbeMethod → Bool
observation_target_is_current observed current method =
    same_probe_generation observed current
    && eqb Bool-discrete observed.enabled current.enabled
    && eqb Bool-discrete observed.maintenance current.maintenance
    && eqb NodeState-discrete observed.node_state current.node_state
    && (is_source method || eqb node_runtime-discrete observed.node_runtime current.node_runtime)

pub same_probe_generation_refl : (t : ProbeTarget) → same_probe_generation t t ≡ true
unfolding same_probe_generation
same_probe_generation_refl t = eqb_refl ProbeGenerationKey-discrete _

pub same_health_generation_refl :
    (t : ProbeTarget) (m : ProbeMethod) → same_health_generation t t m ≡ true
unfolding same_health_generation
same_health_generation_refl t m = eqb_refl ProbeGenerationKey-discrete _

pub observation_target_is_current_refl :
    (t : ProbeTarget) (m : ProbeMethod) → observation_target_is_current t t m ≡ true
unfolding observation_target_is_current
observation_target_is_current_refl t m =
    rw
      (
        same_probe_generation_refl,
        eqb_refl Bool-discrete,
        eqb_refl NodeState-discrete,
        eqb_refl node_runtime-discrete,
      )
      (ground arith)
