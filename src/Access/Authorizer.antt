-- ===== src/Access/Authorizer.antt =====
-- `AccessAuthorizer` of access.py, for any store and any verifier of secrets.
pub mod Opens
pub mod Granted
pub mod InFlight
use rtsp_proxy.Prelude.{
  ℕ, ◌^◌, String, Bool, true, false, not, ◌||◌, Option, none, some, ltb, if◌then◌else◌,
}
use rtsp_proxy.Prelude.Errors.{Error, Result, ok, err}
use rtsp_proxy.Access.Grants.{
  AccessGrant, active_at, text_is, permits, AccessTarget, AuthorizeRequest,
}
use rtsp_proxy.Access.Floats.{Float, Floats}
use rtsp_proxy.Access.Limiter.{Limiter, begin_peer, end_peer, allow_peer, allow_grant}
use rtsp_proxy.Access.Telemetry.{
  AccessDecisionReason, AccessDecision, checked_decision, AccessDecisionEvent, Telemetry,
  record_event,
}

-- `AccessAuthorizerStore`, a protocol: each method may raise, and may change the store.
pub record AccessAuthorizerStore (S : Type 0) : Type 0 where
  pub get_access_target : ℕ → String → S → Result (Option AccessTarget) × S
  pub get_access_grant : ℕ → String → S → Result (Option AccessGrant) × S
  pub rehash_access_grant : ℕ → String → String → ℕ → S → Result Bool × S
  pub mark_access_grant_used : ℕ → S → Result Bool × S

-- What the authorizer uses of a `PepperVerifier`, which computes an HMAC, and of `ip_network`.
pub record Verifier : Type 0 where
  pub primary_key_id : String
  pub digest : String → String
  pub verify : String → String → String → Bool
  pub contains : String → ℕ → Bool

-- What the clocks show when each is read.
pub record Clocks : Type 0 where
  pub floats : Floats
  pub at_peer : Float
  pub at_grant : Float
  pub now : ℕ

pub record World (S : Type 0) : Type 0 where
  pub store : S
  pub attempts : Option Limiter
  pub sink : Option Telemetry

abbrev pub Act : Type 0 → Type 0 → Type 0
Act S A = World S → Result A × World S

module _ {S : Type 0} where
  abbrev pub then_do : {A B : Type 0} → Result A → (A → Act S B) → Act S B
  then_do (ok a) f w = f a w
  then_do (err e) f w = (err e, w)

  infixl 5 ◌>>=◌
  abbrev pub ◌>>=◌ : {A B : Type 0} → Act S A → (A → Act S B) → Act S B
  ◌>>=◌ m f w = let (r, w') = m w in then_do r f w'

  -- A call of the store.
  abbrev pub ask : {A : Type 0} → (S → Result A × S) → Act S A
  ask call w = let (r, s) = call w.store in (r, record w { store = s })

  abbrev with_attempts : Option Limiter → (Limiter → Bool × Limiter) → Act S Bool
  with_attempts none attempt w = (ok true, w)
  with_attempts (some l) attempt w =
      let (allowed, l') = attempt l in (ok allowed, record w { attempts = some l' })

  -- `self._attempts is None or …`
  abbrev pub limited : (Limiter → Bool × Limiter) → Act S Bool
  limited attempt w = with_attempts w.attempts attempt w

  abbrev pub decide : AccessDecision → Act S AccessDecision
  decide d w = (checked_decision d, w)

  abbrev pub deny : AccessDecisionReason → Act S AccessDecision
  deny reason = decide (record {
    allowed = false;
    reason = reason;
    camera_id = none;
    grant_id = none;
    last_use_persisted = none;
  })

  abbrev pub when : Bool → Act S AccessDecision → Act S AccessDecision → Act S AccessDecision
  when true m k = m
  when false m k = k

module _ {S : Type 0} (api : AccessAuthorizerStore S) (verifier : Verifier) (clocks : Clocks) where
  abbrev or_false : Result Bool → Bool
  or_false (ok b) = b
  or_false (err e) = false

  -- The last use is marked if it can be, and the access is granted either way.
  grant_access : AccessTarget → AccessGrant → Act S AccessDecision
  grant_access t g w =
      let (marked, s) = api.mark_access_grant_used g.id w.store in
      decide
        (record {
          allowed = true;
          reason = AccessDecisionReason.allowed;
          camera_id = some t.camera_id;
          grant_id = some g.id;
          last_use_persisted = some (or_false marked);
        })
        (record w { store = s })

  rehash : AuthorizeRequest → AccessGrant → Act S Bool
  rehash r g w =
      if text_is g.pepper_key_id verifier.primary_key_id
      then (ok true, w)
      else ask
          (api.rehash_access_grant g.id (verifier.digest r.password) verifier.primary_key_id
            g.revision)
          w

  after_rehash : AccessTarget → AccessGrant → Bool → Act S AccessDecision
  unfolding grant_access
  after_rehash t g rehashed =
      when (not rehashed) (deny AccessDecisionReason.credential_denied) (grant_access t g)

  check_grant : AuthorizeRequest → AccessTarget → AccessGrant → Act S AccessDecision
  unfolding rehash after_rehash
  check_grant r t g =
      when (not (active_at g clocks.now)) (deny AccessDecisionReason.grant_inactive) (
        when (not (verifier.verify r.password g.token_verifier g.pepper_key_id))
          (deny AccessDecisionReason.credential_denied) (rehash r g >>= after_rehash t g))

  if_allowed : AuthorizeRequest → AccessTarget → AccessGrant → Bool → Act S AccessDecision
  unfolding check_grant
  if_allowed r t g allowed =
      when (not allowed) (deny AccessDecisionReason.request_denied) (check_grant r t g)

  with_grant : AuthorizeRequest → AccessTarget → Option AccessGrant → Act S AccessDecision
  unfolding if_allowed
  with_grant r t none = deny AccessDecisionReason.credential_denied
  with_grant r t (some g) =
      limited (allow_grant clocks.floats t.camera_id g.id clocks.at_grant) >>= if_allowed r t g

  with_target : AuthorizeRequest → Option AccessTarget → Act S AccessDecision
  unfolding with_grant
  with_target r none = deny AccessDecisionReason.target_denied
  with_target r (some t) = when (not t.enabled) (deny AccessDecisionReason.target_denied) (
      when (not (permits verifier.contains t.policy r.peer)) (deny AccessDecisionReason.ip_denied)
        (ask (api.get_access_grant t.camera_id r.username) >>= with_grant r t))

  if_admitted : AuthorizeRequest → Bool → Act S AccessDecision
  unfolding with_target
  if_admitted r admitted =
      when (not admitted) (deny AccessDecisionReason.request_denied)
        (ask (api.get_access_target r.node_id r.public_id) >>= with_target r)

  -- `_authorize_started`
  pub authorize_started : AuthorizeRequest → Act S AccessDecision
  unfolding if_admitted
  authorize_started r =
      when (not (text_is r.action "read") || not (text_is r.protocol "rtsp"))
        (deny AccessDecisionReason.request_denied)
        (limited (allow_peer clocks.floats r.peer clocks.at_peer) >>= if_admitted r)

  event_of : AuthorizeRequest → AccessDecision → AccessDecisionEvent
  event_of r d = record {
    reason = d.reason;
    allowed = d.allowed;
    node_id = r.node_id;
    action = if text_is r.action "read" then r.action else "other";
    protocol = if text_is r.protocol "rtsp" then r.protocol else "other";
    peer_family = if ltb r.peer (2 ^ 32) then "ipv4" else "ipv6";
    peer_ip = r.peer;
    public_id = r.public_id;
    camera_id = d.camera_id;
    grant_id = d.grant_id;
    last_use_persisted = d.last_use_persisted;
  }

  -- `_record_decision`, with an `AccessDecisionTelemetry` for a sink.
  pub record_decision : AuthorizeRequest → AccessDecision → World S → World S
  unfolding event_of
  record_decision r d w = elim w.sink [
    | none ↦ w
    | some t ↦ record w { sink = some (record_event (event_of r d) t) }
  ]

  -- The decision, if there is one, is recorded.
  abbrev recorded :
      AuthorizeRequest → Result AccessDecision × World S → Result AccessDecision × World S
  recorded r (ok d, w) = (ok d, record_decision r d w)
  recorded r (err e, w) = (err e, w)

  abbrev ended : Result (Unit {0}) → Result AccessDecision → Result AccessDecision
  ended (ok _) r = r
  ended (err e) r = err e

  -- The `finally` block: what it raises takes the place of what was returned or raised.
  abbrev finally_end :
      Option Limiter → ℕ → Result AccessDecision × World S → Result AccessDecision × World S
  finally_end none peer (r, w) = (r, w)
  finally_end (some l) peer (r, w) =
      let (end, l') = end_peer peer l in (ended end r, record w { attempts = some l' })

  abbrev finish : ℕ → Result AccessDecision × World S → Result AccessDecision × World S
  finish peer (r, w) = finally_end w.attempts peer (r, w)

  -- The attempt once it was let in.
  started : AuthorizeRequest → Act S AccessDecision
  unfolding authorize_started record_decision
  started r w = finish r.peer (recorded r (authorize_started r w))

  -- The answer to an attempt that was not let in.
  turned_away : AuthorizeRequest → Act S AccessDecision
  unfolding record_decision
  turned_away r w = recorded r (deny AccessDecisionReason.request_denied w)

  if_begun : AuthorizeRequest → Bool → Act S AccessDecision
  unfolding started turned_away
  if_begun r begun = when (not begun) (turned_away r) (started r)

  unfoldable pub authorize : AuthorizeRequest → Act S AccessDecision
  unfolding if_begun
  authorize r = limited (begin_peer r.peer) >>= if_begun r
