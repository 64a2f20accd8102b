-- ===== src/Nodes/Runs.antt =====
-- Any calls of the registry's methods (nodes.py), in any order, from a registry without nodes.
pub mod Placements
pub mod Moves
pub mod Ports
use rtsp_proxy.Prelude.{ℕ, ◌≡◌, refl, String, Bool, Option, none, some, List, [], ◌∷◌, ◌++◌}
use rtsp_proxy.Prelude.Errors.{Result, ok, err}
use rtsp_proxy.Probe.Kinds.{NodeState}
use rtsp_proxy.Nodes.Data.{NodeCommandFence, RegistrationIdempotency, NodeRuntimeObservation}
use rtsp_proxy.Nodes.Store.{Store, Means, create_store}
use rtsp_proxy.Nodes.Register.{Registration, register_automatically, register_idempotently}
use rtsp_proxy.Nodes.Lifecycle.{
  apply_runtime_observation, request_desired_state, request_administrative_state,
  request_node_delete, finalize_node_delete, request_stop, request_restart,
}
use rtsp_proxy.Nodes.Reconfigure.{request_release, request_reconfigure}
use rtsp_proxy.Nodes.PortChange.{
  PortChangeRequest, begin_port_change, complete_port_change, abort_port_change,
}
use rtsp_proxy.Nodes.Place.{
  Placement, reserve_camera_registration, place_camera_automatically, place_camera_manually,
  place_camera_idempotently,
}
use rtsp_proxy.Nodes.Camera.{
  update_camera, set_camera_enabled, request_camera_delete, mark_camera_applied,
}
use rtsp_proxy.Nodes.Move.{
  MoveRequest, create_camera_move, switch_camera_move, mark_camera_move_source_cleaned,
  request_camera_move_abort, abort_camera_move, complete_camera_move,
}
use rtsp_proxy.Nodes.Steps.{Step, stays}
use rtsp_proxy.Nodes.Methods.Rules.{Steps}
use rtsp_proxy.Nodes.Methods.OfRegistration.{
  IsFresh, register_automatically-Steps, register_idempotently-Steps,
}
use rtsp_proxy.Nodes.Methods.OfNodes.{
  request_restart-Steps, request_stop-Steps, request_node_delete-Steps, request_desired_state-Steps,
  request_administrative_state-Steps, apply_runtime_observation-Steps, request_release-Steps,
  request_reconfigure-Steps, finalize_node_delete-Steps,
}
use rtsp_proxy.Nodes.Methods.OfPorts.{
  begin_port_change-Steps, complete_port_change-Steps, abort_port_change-Steps,
}
use rtsp_proxy.Nodes.Methods.OfPlacement.{
  place_camera_automatically-Steps, place_camera_manually-Steps, place_camera_idempotently-Steps,
  reserve_camera_registration-Steps,
}
use rtsp_proxy.Nodes.Methods.OfCameras.{
  update_camera-Steps, set_camera_enabled-Steps, request_camera_delete-Steps,
  mark_camera_applied-Steps,
}
use rtsp_proxy.Nodes.Methods.OfSwitches.{create_camera_move-Steps, switch_camera_move-Steps}
use rtsp_proxy.Nodes.Methods.OfMoves.{
  mark_camera_move_source_cleaned-Steps, request_camera_move_abort-Steps, abort_camera_move-Steps,
  complete_camera_move-Steps,
}
use rtsp_proxy.Nodes.Table.{IsKeyed}
use rtsp_proxy.Nodes.Store.{node_key}

-- A call of a method that may change the store, with its arguments and the times it reads. `A` is
-- what an admitted endpoint is.
pub data Call (A : Type 0) : Type 0 where
  registering : Registration → Call A
  registering_once : Registration → RegistrationIdempotency → Call A
  observing : ℕ → NodeRuntimeObservation → ℕ → Call A
  desiring : ℕ → NodeState → Option NodeCommandFence → Call A
  administering : ℕ → NodeState → Option NodeCommandFence → Call A
  beginning_port_change : PortChangeRequest → Call A
  completing_port_change aborting_port_change : ℕ → NodeRuntimeObservation → ℕ → Call A
  deleting_node stopping restarting : ℕ → Option NodeCommandFence → Call A
  finalizing_delete : ℕ → Call A
  reconfiguring : ℕ → ℕ → ℕ → String → Option String → Option String → Call A
  releasing : ℕ → String → String → Option NodeCommandFence → Call A
  reserving : RegistrationIdempotency → Call A
  placing_automatically : Placement A → ℕ → Call A
  placing_manually : Placement A → ℕ → ℕ → Call A
  placing_once : Placement A → Option ℕ → RegistrationIdempotency → ℕ → Call A
  updating : ℕ → String → String → Option ℕ → Option A → Call A
  enabling : ℕ → Bool → Option ℕ → Call A
  deleting_camera : ℕ → Option ℕ → Call A
  marking_applied : ℕ → ℕ → ℕ → ℕ → Call A
  creating_move : MoveRequest → ℕ → Call A
  switching : ℕ → Bool → ℕ → ℕ → Call A
  marking_cleaned aborting_move completing_move : ℕ → Call A
  requesting_abort : ℕ → String → Bool → Call A

-- What is stored after a method that returns or raises.
abbrev stored : {A : Type 0} → Store → Result (A × Store) → Store
stored s (ok r) = r.1
stored s (err e) = s

module _ {A : Type 0} (means : Means A) where
  unfoldable pub after : Call A → Store → Store
  unfolding register_automatically register_idempotently apply_runtime_observation
      request_desired_state request_administrative_state request_node_delete finalize_node_delete
      request_stop request_restart request_release request_reconfigure begin_port_change
      complete_port_change abort_port_change reserve_camera_registration place_camera_automatically
      place_camera_manually place_camera_idempotently update_camera set_camera_enabled
      request_camera_delete mark_camera_applied create_camera_move switch_camera_move
      mark_camera_move_source_cleaned request_camera_move_abort abort_camera_move
      complete_camera_move
  after (registering r) s = stored s (register_automatically r s)
  after (registering_once r i) s = stored s (register_idempotently r i s)
  after (observing id o now) s = stored s (apply_runtime_observation id o now s)
  after (desiring id state fence) s = stored s (request_desired_state id state fence s)
  after (administering id state fence) s = stored s (request_administrative_state id state fence s)
  after (beginning_port_change q) s = stored s (begin_port_change means q s)
  after (completing_port_change id o now) s = stored s (complete_port_change id o now s)
  after (aborting_port_change id o now) s = stored s (abort_port_change id o now s)
  after (deleting_node id fence) s = stored s (request_node_delete id fence s)
  after (stopping id fence) s = stored s (request_stop id fence s)
  after (restarting id fence) s = stored s (request_restart id fence s)
  after (finalizing_delete id) s = stored s (finalize_node_delete id s)
  after (reconfiguring id revision cameras sha256 release_id digest) s =
      stored s (request_reconfigure means id revision cameras sha256 release_id digest s)
  after (releasing id release_id digest fence) s =
      stored s (request_release id release_id digest fence s)
  after (reserving i) s = stored s (reserve_camera_registration i s)
  after (placing_automatically q now) s = stored s (place_camera_automatically means q now s)
  after (placing_manually q node_id now) s = stored s (place_camera_manually means q node_id now s)
  after (placing_once q node_id i now) s =
      stored s (place_camera_idempotently means q node_id i now s)
  after (updating id name source_url expected endpoint) s =
      stored s (update_camera means id name source_url expected endpoint s)
  after (enabling id enabled expected) s = stored s (set_camera_enabled id enabled expected s)
  after (deleting_camera id expected) s = stored s (request_camera_delete id expected s)
  after (marking_applied id node_id generation revision) s =
      stored s (mark_camera_applied id node_id generation revision s)
  after (creating_move q now) s = stored s (create_camera_move means q now s)
  after (switching id cancelled clock now) s =
      stored s (switch_camera_move id cancelled clock now s)
  after (marking_cleaned id) s = stored s (mark_camera_move_source_cleaned id s)
  after (aborting_move id) s = stored s (abort_camera_move id s)
  after (completing_move id) s = stored s (complete_camera_move id s)
  after (requesting_abort id reason cancelled) s =
      stored s (request_camera_move_abort id reason cancelled s)

  unfoldable pub run : List (Call A) → Store → Store
  unfolding after
  run [] s = s
  run (c ∷ rest) s = run rest (after c s)

  -- A new node has a new id: `new_node_id` draws a random UUID.
  abbrev pub DrawsFresh : Call A → Store → Type 0
  DrawsFresh (registering r) s = IsFresh r.new_node_id s
  DrawsFresh (registering_once r i) s = IsFresh r.new_node_id s
  DrawsFresh _ s = Unit

  abbrev pub IsFreshRun : List (Call A) → Store → Type 0
  IsFreshRun [] s = Unit
  IsFreshRun (c ∷ rest) s = DrawsFresh c s × IsFreshRun rest (after c s)

  stored-Step : {B : Type 0} (s : Store) (r : Result (B × Store)) → Steps s r → Step s (stored s r)
  stored-Step s (ok r) h = h.taken
  stored-Step s (err e) h = stays s

  -- Each call of a method is a step of the registry, whatever its arguments and whether it returns
  -- or raises, if ids are of one node each and a new id is new.
  pub after-Step :
      (c : Call A) (s : Store) → IsKeyed node_key s.nodes → DrawsFresh c s → Step s (after c s)
  unfolding after
  after-Step (registering r) s keyed fresh =
      stored-Step s _ (register_automatically-Steps s r fresh)
  after-Step (registering_once r i) s keyed fresh =
      stored-Step s _ (register_idempotently-Steps s r i fresh)
  after-Step (observing id o now) s keyed fresh =
      stored-Step s _ (apply_runtime_observation-Steps id o now s)
  after-Step (desiring id state fence) s keyed fresh =
      stored-Step s _ (request_desired_state-Steps id state fence s)
  after-Step (administering id state fence) s keyed fresh =
      stored-Step s _ (request_administrative_state-Steps id state fence s)
  after-Step (beginning_port_change q) s keyed fresh =
      stored-Step s _ (begin_port_change-Steps s means q)
  after-Step (completing_port_change id o now) s keyed fresh =
      stored-Step s _ (complete_port_change-Steps s id o now)
  after-Step (aborting_port_change id o now) s keyed fresh =
      stored-Step s _ (abort_port_change-Steps s id o now)
  after-Step (deleting_node id fence) s keyed fresh =
      stored-Step s _ (request_node_delete-Steps id fence s)
  after-Step (stopping id fence) s keyed fresh = stored-Step s _ (request_stop-Steps id fence s)
  after-Step (restarting id fence) s keyed fresh =
      stored-Step s _ (request_restart-Steps id fence s)
  after-Step (finalizing_delete id) s keyed fresh =
      stored-Step s _ (finalize_node_delete-Steps id s)
  after-Step (reconfiguring id revision cameras sha256 release_id digest) s keyed fresh =
      stored-Step s _
        (request_reconfigure-Steps means id revision cameras sha256 release_id digest s)
  after-Step (releasing id release_id digest fence) s keyed fresh =
      stored-Step s _ (request_release-Steps id release_id digest fence s)
  after-Step (reserving i) s keyed fresh = stored-Step s _ (reserve_camera_registration-Steps i s)
  after-Step (placing_automatically q now) s keyed fresh =
      stored-Step s _ (place_camera_automatically-Steps s means q now keyed)
  after-Step (placing_manually q node_id now) s keyed fresh =
      stored-Step s _ (place_camera_manually-Steps s means q node_id now)
  after-Step (placing_once q node_id i now) s keyed fresh =
      stored-Step s _ (place_camera_idempotently-Steps s means q node_id i now keyed)
  after-Step (updating id name source_url expected endpoint) s keyed fresh =
      stored-Step s _ (update_camera-Steps s means id name source_url expected endpoint)
  after-Step (enabling id enabled expected) s keyed fresh =
      stored-Step s _ (set_camera_enabled-Steps s id enabled expected)
  after-Step (deleting_camera id expected) s keyed fresh =
      stored-Step s _ (request_camera_delete-Steps s id expected)
  after-Step (marking_applied id node_id generation revision) s keyed fresh =
      stored-Step s _ (mark_camera_applied-Steps s id node_id generation revision)
  after-Step (creating_move q now) s keyed fresh =
      stored-Step s _ (create_camera_move-Steps s means q now)
  after-Step (switching id cancelled clock now) s keyed fresh =
      stored-Step s _ (switch_camera_move-Steps s id cancelled clock now)
  after-Step (marking_cleaned id) s keyed fresh =
      stored-Step s _ (mark_camera_move_source_cleaned-Steps s id)
  after-Step (aborting_move id) s keyed fresh = stored-Step s _ (abort_camera_move-Steps s id)
  after-Step (completing_move id) s keyed fresh = stored-Step s _ (complete_camera_move-Steps s id)
  after-Step (requesting_abort id reason cancelled) s keyed fresh =
      stored-Step s _ (request_camera_move_abort-Steps s id reason cancelled)
