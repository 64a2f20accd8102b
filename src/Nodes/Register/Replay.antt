-- ===== src/Nodes/Register/Replay.antt =====
-- That `register_idempotently` (nodes.py) makes one node for one request.
use rtsp_proxy.Prelude.{
  ℕ, ◌≡◌, refl, sym, ap, subst, String, Bool, true, false, not, ◌||◌, Option, none, some, List, [],
  ◌∷◌, ◌++◌, arith, Bool-cases, inl, inr, ◌==◌, ==_iff, eqb_refl, String-discrete,
}
use rtsp_proxy.Prelude.Errors.{
  Error, Result, ok, err, refuse, found_or, ◌>>=◌, ◌>>◌, Gives, Gives-ok, Result-cases,
}
use rtsp_proxy.Access.Grants.{text_is}
use rtsp_proxy.Nodes.Data.{RegistrationIdempotency, MediaNode}
use rtsp_proxy.Nodes.Table.{find, find-append}
use rtsp_proxy.Nodes.Store.{Store, Requests, get_node, node_key, request_of, put_request}
use rtsp_proxy.Nodes.Register.{
  Registration, NodeRegistrationResult, register_automatically, new_node, replayed_registration,
  registered, register_idempotently,
}

request_of-put_request :
    {V : Type 0} (k : ℕ × ℕ) (v : V) (d : Requests V) → request_of k (put_request k v d) ≡ some v
unfolding request_of put_request
request_of-put_request k v [] = ground (arith, ==_iff k.0 k.0, ==_iff k.1 k.1)
request_of-put_request k v ((j, w) ∷ rest) =
    ground (arith, ==_iff k.0 k.0, request_of-put_request k v rest)

-- What a registration leaves: one more node, with the new id.
record IsMade (r : Registration) (s : Store) (made : MediaNode × Store) : Type 0 where
  id : made.0.id ≡ r.new_node_id
  nodes : made.1.nodes ≡ s.nodes ++ made.0 ∷ []

record Makes (r : Registration) (s : Store) (q : Result (MediaNode × Store)) : Type 0 where
  made : Gives (IsMade r s) q

module _ (r : Registration) (s : Store) where
  Makes-required :
      (wrong : Bool) (e : Error) (rest : Result (MediaNode × Store))
      → Makes r s rest
      → Makes r s (refuse wrong e >> rest)
  Makes-required true e rest h = record { made = tt }
  Makes-required false e rest h = h

  Makes-after :
      {B : Type 0} (q : Result B) (next : B → Result (MediaNode × Store))
      → ((b : B) → Makes r s (next b))
      → Makes r s (q >>= next)
  Makes-after (ok b) next h = h b
  Makes-after (err e) next h = record { made = tt }

  Makes-node :
      (external api metrics : ℕ)
      → Makes r s (
          ok (
            new_node r external api metrics,
            record s { nodes = s.nodes ++ new_node r external api metrics ∷ [] },
          ))
  unfolding new_node
  Makes-node external api metrics = record { made = record { id = refl; nodes = refl } }

  register_automatically-Makes : Makes r s (register_automatically r s)
  unfolding register_automatically
  register_automatically-Makes =
      search (Makes-required, Makes-after, Makes-node) depth 20 fits 10000

same_text : (t : String) → text_is t t ≡ true
same_text t = eqb_refl String-discrete t

-- A request that is recorded for a node that is there is answered by the node.
replayed_of :
    (i : RegistrationIdempotency) (n : MediaNode) (s : Store)
    → get_node n.id s ≡ some n
    → replayed_registration i (i.actor_account_id, i.request_sha256, n.id) s
      ≡ ok (record { node = n; replayed = true })
unfolding replayed_registration
replayed_of i n s found =
    rw ((==_iff i.actor_account_id i.actor_account_id).1 refl, same_text i.request_sha256, found)
      refl

IsReplay : NodeRegistrationResult → Type 0
IsReplay q = q ≡ record { node = q.node; replayed = true }

found-IsReplay :
    (e : Error) (o : Option MediaNode)
    → Gives IsReplay (found_or e o >>= λ node. ok (record { node = node; replayed = true }))
unfolding IsReplay
found-IsReplay e none = tt
found-IsReplay e (some n) = refl

replayed-IsReplay :
    (i : RegistrationIdempotency) (s : Store) (previous : ℕ × String × ℕ)
    → Gives IsReplay (replayed_registration i previous s)
unfolding replayed_registration
replayed-IsReplay i s previous =
    elim (Bool-cases
      (not (previous.0 == i.actor_account_id) || not (text_is previous.1 i.request_sha256))) [
        | inl other ↦ rw other tt
        | inr same ↦ rw same (found-IsReplay _ (get_node previous.2 s))
      ]

-- The second of two registrations of one key, after a first that answered.
IsReplayed : RegistrationIdempotency → NodeRegistrationResult × Store → Type 0
IsReplayed i q =
    (again : Registration)
    → register_idempotently again i q.1 ≡ ok (record { node = q.0.node; replayed = true }, q.1)

replay-IsReplayed :
    (i : RegistrationIdempotency) (s : Store) (previous : ℕ × String × ℕ)
    → request_of (i.actor_session_id, i.key) s.registration_requests ≡ some previous
    → Gives (IsReplayed i) (replayed_registration i previous s >>= λ replay. ok (replay, s))
unfolding IsReplayed register_idempotently registered IsReplay
replay-IsReplayed i s previous known = elim (Result-cases (replayed_registration i previous s)) [
  | inr (e, refused) ↦ rw refused tt
  | inl (q, same) ↦
      let flag =
        Gives-ok IsReplay (replayed_registration i previous s) q (replayed-IsReplay i s previous)
          same in
      rw same (λ again. rw (known, same) (ap (λ (x : NodeRegistrationResult). ok (x, s)) flag))
]

find_last :
    (n : MediaNode) (ns : List MediaNode)
    → find node_key n.id ns ≡ none
    → find node_key n.id (ns ++ n ∷ []) ≡ some n
find_last n ns absent = rw (find-append node_key n.id n ns, absent, (==_iff n.id n.id).1 refl) refl

new-IsReplayed :
    (r : Registration) (i : RegistrationIdempotency) (s : Store)
    → get_node r.new_node_id s ≡ none
    → Gives (IsReplayed i) (registered r i none s)
unfolding IsReplayed register_idempotently registered get_node
new-IsReplayed r i s new = elim (Result-cases (register_automatically r s)) [
  | inr (e, refused) ↦ rw refused tt
  | inl (q, same) ↦
      let made =
        Gives-ok (IsMade r s) (register_automatically r s) q (register_automatically-Makes r s).made
          same in
      let new_id = subst (λ k. find node_key k s.nodes ≡ none) (sym made.id) new in
      let there : find node_key q.0.id q.1.nodes ≡ some q.0 =
        subst (λ ns. find node_key q.0.id ns ≡ some q.0) (sym made.nodes)
          (find_last q.0 s.nodes new_id) in
      let known =
        request_of-put_request (i.actor_session_id, i.key)
          (i.actor_account_id, i.request_sha256, q.0.id) q.1.registration_requests in
      let requests =
        put_request (i.actor_session_id, i.key) (i.actor_account_id, i.request_sha256, q.0.id)
          q.1.registration_requests in
      let answer = replayed_of i q.0 (record (q.1) { registration_requests = requests }) there in
      rw same (λ again. rw (known, answer) refl)
]

answered-IsReplayed :
    (r : Registration) (i : RegistrationIdempotency) (s : Store) (o : Option (ℕ × String × ℕ))
    → get_node r.new_node_id s ≡ none
    → request_of (i.actor_session_id, i.key) s.registration_requests ≡ o
    → Gives (IsReplayed i) (registered r i o s)
unfolding registered
answered-IsReplayed r i s none new known = new-IsReplayed r i s new
answered-IsReplayed r i s (some previous) new known = replay-IsReplayed i s previous known

-- A registration that answered, whether it made a node or not, is answered the same way in the store
-- it leaves: the same key with the same request yields the same node and changes nothing, whatever
-- the other arguments. The id drawn for a new node is that of no node.
pub register_idempotently_replays :
    (r again : Registration) (i : RegistrationIdempotency) (s t : Store)
    (q : NodeRegistrationResult)
    → get_node r.new_node_id s ≡ none
    → register_idempotently r i s ≡ ok (q, t)
    → register_idempotently again i t ≡ ok (record { node = q.node; replayed = true }, t)
unfolding IsReplayed register_idempotently
register_idempotently_replays r again i s t q new h =
    Gives-ok (IsReplayed i) _ (q, t) (answered-IsReplayed r i s _ new refl) h again
