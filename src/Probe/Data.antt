-- ===== src/Probe/Data.antt =====
-- The dataclasses of probes.py. A time is the instant that an aware `datetime` denotes, in
-- microseconds, and a `timedelta` is a number of microseconds.
use rtsp_proxy.Prelude.{
  ℕ, ◌+◌, String, Bool, false, not, ◌&&◌, ◌||◌, Option, none, some, ltb, leb, is_some,
}
use rtsp_proxy.Prelude.Errors.{value_error, Result, ok, refuse, ◌>>=◌, ◌>>◌}
use rtsp_proxy.Probe.Text.{is_uuid4, site_key_matches, codec_name_matches, release_id_matches}
use rtsp_proxy.Probe.Kinds.{
  NodeState, ProbeMethod, ProbePriority, ProbeOutcome, ProbeFailureClass, is_camera_failure,
  is_infrastructure_failure,
}

abbrev pub one_second : ℕ
one_second = 1_000_000

abbrev pub one_minute : ℕ
one_minute = 60_000_000

abbrev pub one_hour : ℕ
one_hour = 3_600_000_000

abbrev pub one_day : ℕ
one_day = 86_400_000_000

pub record ProbeNodeRuntimeGeneration : Type 0 where
  pub node_applied_revision : ℕ
  pub process_id : ℕ
  pub process_start_ticks : ℕ
  pub process_boot_id : ℕ
  pub release_id : String

pub record ProbeTarget : Type 0 where
  pub camera_id : ℕ
  pub public_id : String
  pub node_id : ℕ
  pub site_key : String
  pub desired_revision : ℕ
  pub placement_generation : ℕ
  pub node_state : NodeState
  pub enabled : Bool
  pub maintenance : Bool
  pub occupied : Bool
  pub source_pull_active : Bool
  pub max_source_sessions : ℕ
  pub node_runtime : Option ProbeNodeRuntimeGeneration
  pub source_endpoint_generation : Option ℕ

pub record ProbeRequest : Type 0 where
  pub request_id : ℕ
  pub target : ProbeTarget
  pub method : ProbeMethod
  pub priority : ProbePriority
  pub requested_at : ℕ
  pub deadline_at : ℕ
  pub available_at : ℕ

pub record ProbeLease : Type 0 where
  pub request_id : ℕ
  pub lease_token : ℕ
  pub target : ProbeTarget
  pub method : ProbeMethod
  pub priority : ProbePriority
  pub started_at : ℕ
  pub lease_expires_at : ℕ
  pub attempt : ℕ

pub record ProbeExecutionResult : Type 0 where
  pub outcome : ProbeOutcome
  pub completed_at : ℕ
  pub failure_class : Option ProbeFailureClass
  pub video_codec : Option String
  pub audio_codec : Option String

pub record ProbeObservation : Type 0 where
  pub observation_id : ℕ
  pub request_id : ℕ
  pub target : ProbeTarget
  pub method : ProbeMethod
  pub priority : ProbePriority
  pub outcome : ProbeOutcome
  pub started_at : ℕ
  pub completed_at : ℕ
  pub attempt : ℕ
  pub failure_class : Option ProbeFailureClass
  pub video_codec : Option String
  pub audio_codec : Option String

-- `__post_init__` of each class: the value itself, or the exception. The tests of Python types
-- hold by typing.
unfoldable pub checked_runtime : ProbeNodeRuntimeGeneration → Result ProbeNodeRuntimeGeneration
checked_runtime r = do
  refuse
      (ltb r.node_applied_revision 1
        || ltb r.process_id 1
        || ltb r.process_start_ticks 1
        || not (release_id_matches r.release_id))
      (value_error "probe_node_runtime_generation_invalid")
  ok r

endpoint_generation_invalid : Option ℕ → Bool
endpoint_generation_invalid none = false
endpoint_generation_invalid (some generation) = not (is_uuid4 generation)

unfoldable pub checked_target : ProbeTarget → Result ProbeTarget
unfolding endpoint_generation_invalid
checked_target t = do
  refuse (not (is_uuid4 t.camera_id) || not (is_uuid4 t.node_id))
      (value_error "probe_target_identity_invalid")
  refuse (not (site_key_matches t.site_key)) (value_error "probe_site_key_invalid")
  refuse (ltb t.desired_revision 1 || ltb t.placement_generation 1)
      (value_error "probe_target_generation_invalid")
  refuse (not t.enabled && t.maintenance) (value_error "probe_target_state_invalid")
  refuse (not (leb 1 t.max_source_sessions && leb t.max_source_sessions 16))
      (value_error "probe_source_session_limit_invalid")
  refuse (endpoint_generation_invalid t.source_endpoint_generation)
      (value_error "probe_source_endpoint_generation_invalid")
  ok t

unfoldable pub checked_request : ProbeRequest → Result ProbeRequest
checked_request r = do
  refuse (not (is_uuid4 r.request_id)) (value_error "probe_request_identity_invalid")
  refuse
      (not (leb r.requested_at r.available_at && ltb r.available_at r.deadline_at)
        || ltb (r.requested_at + one_day) r.deadline_at)
      (value_error "probe_request_window_invalid")
  ok r

unfoldable pub checked_lease : ProbeLease → Result ProbeLease
checked_lease l = do
  refuse
      (not (is_uuid4 l.request_id)
        || not (is_uuid4 l.lease_token)
        || leb l.lease_expires_at l.started_at
        || not (leb 1 l.attempt && leb l.attempt 10))
      (value_error "probe_lease_invalid")
  ok l

-- A codec that is there and no codec name.
codec_invalid : Option String → Bool
codec_invalid none = false
codec_invalid (some name) = not (codec_name_matches name)

-- `any(codecs)`: a codec that is there is not the empty text, or it was refused.
no_codec : ProbeExecutionResult → Bool
no_codec r = not (is_some r.video_codec || is_some r.audio_codec)

result_contract : ProbeOutcome → ProbeExecutionResult → Bool
unfolding no_codec
result_contract ProbeOutcome.healthy r = not (is_some r.failure_class || no_codec r)
result_contract ProbeOutcome.unhealthy r = is_camera_failure r.failure_class && no_codec r
result_contract ProbeOutcome.inconclusive r =
    is_infrastructure_failure r.failure_class && no_codec r

unfoldable pub checked_result : ProbeExecutionResult → Result ProbeExecutionResult
unfolding codec_invalid result_contract
checked_result r = do
  refuse
      (codec_invalid r.video_codec
        || codec_invalid r.audio_codec
        || not (result_contract r.outcome r))
      (value_error "probe_result_contract_invalid")
  ok r

abbrev pub observed_result : ProbeObservation → ProbeExecutionResult
observed_result o = record {
  outcome = o.outcome;
  completed_at = o.completed_at;
  failure_class = o.failure_class;
  video_codec = o.video_codec;
  audio_codec = o.audio_codec;
}

unfoldable pub checked_observation : ProbeObservation → Result ProbeObservation
checked_observation o = do
  refuse
      (not (is_uuid4 o.observation_id)
        || not (is_uuid4 o.request_id)
        || ltb o.completed_at o.started_at
        || ltb (o.started_at + one_minute) o.completed_at
        || not (leb 1 o.attempt && leb o.attempt 10))
      (value_error "probe_observation_invalid")
  _ ← checked_result (observed_result o)
  ok o
