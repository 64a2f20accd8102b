-- ===== src/Lib.antt =====
-- The control plane of the RTSP proxy (src/rtsp_proxy): a model of its core and the theorems that
-- make it correct.
--
-- The program keeps a catalogue of cameras and of the nodes that serve them, gives clients access
-- to streams, and probes the cameras in the background. This library models these parts:
--
--   Probe (src/rtsp_proxy/probes.py): how a camera is probed. A target is the server's view of one
--   camera; a request for a probe is submitted to `BoundedProbeScheduler`, waits in the queue of its
--   priority, is leased to a worker by `claim_available`, and ends by `complete` or `cancel` or by
--   expiry. A completed probe is an observation; `ProbeHealthRecord` folds observations into the
--   health of the camera, and `InMemoryProbeObservationStore` keeps the latest for each camera and
--   method.
--     Probe/Text         the regular expressions and the UUID test
--     Probe/Kinds        the enums, the weights and ranks of the priorities, the failure classes
--     Probe/Data         the dataclasses; `checked_x` is `__post_init__` of `X`
--     Probe/Identity     `_probe_generation_key`, `_same_probe_generation`,
--                        `_same_health_generation`, `_observation_target_is_current`
--     Probe/Eligibility  `_require_probe_eligible`
--     Probe/Health       `ProbeHealthRecord`; its children are on its bounds, its age and the
--                        two-in-a-row rule
--     Probe/Scheduler    `BoundedProbeScheduler`: State is `__init__`, Reservations is
--                        `_priority_reservations`, Expiry is `_expire_active` and
--                        `_drop_expired_pending`, Submit is `submit`, Select is
--                        `_next_eligible_request`, Claim is `claim_available` and
--                        `_refresh_pending_targets`, Finish is `complete`, `cancel` and
--                        `diagnostics`; Runs are any calls in any order
--     Probe/Store        `InMemoryProbeObservationStore`
--
--   Access (src/rtsp_proxy/access.py): who may read a stream. `AccessAuthorizer.authorize` asks a
--   limiter whether the address may try, asks the store for the camera and the grant, asks the
--   verifier for the password, and hands its decision to the telemetry.
--     Access/Grants      the grants, policies, targets and requests
--     Access/Floats      the arithmetic of floats, a parameter, and what is promised of it
--     Access/Limiter     `AccessAttemptLimiter`; its children are on the bounds of its tables and
--                        on its bursts
--     Access/Telemetry   the decisions and `AccessDecisionTelemetry`
--     Access/Authorizer  `AccessAuthorizer`, for any store of its protocol and any verifier; its
--                        children are on what is let in and on the attempts in flight
--     Access/Control     `AccessGrantControl`: what it issues, and its calls of the store
--   The stores, the HMAC of the verifier, SHA-256, `ip_network`, `isalnum`, new ids and new secrets
--   are parameters, and the clocks are readings. The limiter computes with floats: a float of the
--   model is the number of its bits, and what the arithmetic answers is a parameter, of which the
--   theorems on bursts suppose what IEEE 754 promises near whole numbers; how many attempts the rate
--   lets through while the clock goes on depends on the rounding and is not stated. An address is
--   the number of what `_peer_address` returns, 2 ^ 32 more for IPv6, so that its text is parsed
--   before.
--
--   Nodes (src/rtsp_proxy/nodes.py): which nodes there are and which cameras they serve. Clients of
--   `InMemoryNodeStore` register nodes, command them and report what their runtime does, place
--   cameras on them, change a node's port in two steps, and move a camera to another node in
--   several. A method finds its records, tests its guards and writes only after the last test that
--   may fail, so that a call that raises leaves the store as it was: a method of the model is a
--   function from the store to a result with the next store, or an exception.
--     Nodes/Kinds, Data      the enums and the dataclasses
--     Nodes/Table            a list of records with ids: `next(…)`, `xs[xs.index(x)] = y`, `remove`
--     Nodes/Checks           `is_node_eligible`, the fence, the validations, the fingerprint
--     Nodes/Ports            `select_port_with_bounded_recheck`
--     Nodes/Store            the state and its queries
--     Nodes/Register, Lifecycle, Reconfigure, PortChange, Place, Camera, Move
--                            the methods; a child is on what a method of its parent does
--     Nodes/Steps            the abstract registry: the steps that a method may take
--     Nodes/Methods          that the methods take such steps
--     Nodes/Counts, Apart    that the steps keep the counts of cameras and the ports apart
--     Nodes/Runs             any calls in any order; its children are on the cameras, the moves and
--                            the ports after them
--   `select_port_with_bounded_recheck` makes one round for each candidate, which is its fuel. The
--   readings of a clock within one call are one instant, and `is_port_bindable` answers by the port.
--   The locks, the arguments `mutation_context`, and the tests for a revision or a port below zero
--   are left out; `registered_cameras - 1` stops at 0 in the model. The record that `index` or
--   `remove` finds is taken to be the first with its id; that a new node's id is of no node and of
--   no waiting change of port is a hypothesis. The validation of names and sources, the identity of
--   a probe endpoint, the SHA-256 of placements and the text of an endpoint are parameters.
--
-- How the code is read. A method takes the object's state and returns it beside a result or an
-- exception, so what was written before an exception stays written. A section under a lock is one
-- step. A time is the instant of an aware `datetime` in microseconds, a `timedelta` and a setting in
-- seconds are numbers of microseconds; the tests for a missing time zone and for Python types hold
-- by typing. A `UUID` is its 128-bit number. A `dict` is an association list in the order of
-- insertion, and the `Counter`-like tallies are counts over it. The callables `new_request_id`,
-- `new_lease_token` and `new_observation_id` are functions of how often they were called, and are
-- arbitrary; that no two lease tokens are equal is a hypothesis where it is needed.
--
-- The loop of `claim_available` is recursion on fuel, one more than the pending requests: each
-- round takes one request from its queue. The loop of `_priority_reservations` has the server's
-- limit as its fuel: each round adds one lease to what starts at three or more.
--
-- Not modelled: what stores, fetches or shows data and decides nothing of this (the web
-- application and its templates, PostgreSQL and its migrations, systemd, nftables, D-Bus and process
-- control, the load generator), the PostgreSQL twin of the registry and what calls the registry
-- (`NodeControl` and `CameraControl` of nodes.py, and reconcile.py), the operators' login, and the
-- parts of the files above that hash, encrypt, read URLs or talk to a database.
pub mod Prelude
pub mod Access
pub mod Nodes
pub mod Probe
