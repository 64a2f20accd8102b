-- ===== src/Probe/Examples/Storage.antt =====
-- The theorems on the store of results at concrete inputs.
use rtsp_proxy.Prelude.{◌≡◌, refl, true, none, some, [], ◌∷◌, get}
use rtsp_proxy.Prelude.Errors.{ok}
use rtsp_proxy.Probe.Kinds.{path, manual, ProbeOutcome}
use rtsp_proxy.Probe.Data.{ProbeObservation}
use rtsp_proxy.Probe.Identity.{observation_target_is_current_refl}
use rtsp_proxy.Probe.Eligibility.{require_probe_eligible, IsEligible}
use rtsp_proxy.Probe.Store.{Store, record_if_current}
use rtsp_proxy.Probe.Store.Laws.{
  Effect, Admits, record_if_current-Effect, record_if_current-fenced, record_if_current_again,
}
use rtsp_proxy.Probe.Examples.{uuid, camera, targets}

abbrev observation : ProbeObservation
observation = record {
  observation_id = uuid 3000;
  request_id = uuid 1010;
  target = camera 10;
  method = path;
  priority = manual;
  outcome = ProbeOutcome.healthy;
  started_at = 0;
  completed_at = 2_000_000;
  attempt = 1;
  failure_class = none;
  video_codec = some "h264";
  audio_codec = none;
}

abbrev store : Store
store = record {
  targets = targets;
  observations =
      record {
        camera = uuid 10;
        method = path;
        observation = record observation { observation_id = uuid 2999; completed_at = 1_000_000 };
      }
      ∷ [];
}

is_recorded : (record_if_current observation store).0 ≡ ok true
unfolding record_if_current require_probe_eligible get
is_recorded = rw observation_target_is_current_refl refl

record_if_current-Effect_example : Effect observation store (record_if_current observation store)
record_if_current-Effect_example = record_if_current-Effect observation store

record_if_current-fenced_example : IsEligible (camera 10) path × Admits observation store
record_if_current-fenced_example = record_if_current-fenced observation store is_recorded

record_if_current_again_example :
    record_if_current observation (record_if_current observation store).1
    ≡ (ok true, (record_if_current observation store).1)
record_if_current_again_example = record_if_current_again observation store is_recorded
