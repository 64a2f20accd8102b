-- ===== src/Nodes/Methods/Rules.antt =====
-- How a method that raises, or returns a value and the store, takes a step.
use rtsp_proxy.Prelude.{
  ℕ, ◌≡◌, refl, Bool, true, false, Option, none, some, subst, sym, if◌then◌else◌,
}
use rtsp_proxy.Prelude.Errors.{Error, Result, ok, err, refuse, found_or, ◌>>=◌, ◌>>◌, Gives}
use rtsp_proxy.Nodes.Data.{MediaNode}
use rtsp_proxy.Nodes.Table.{find, find-key}
use rtsp_proxy.Nodes.Store.{Store, get_node, node_key}
use rtsp_proxy.Nodes.Lifecycle.{require_node, saved}
use rtsp_proxy.Nodes.Steps.{Step, KeepsHolding, stays, node_revised}

pub record Steps {A : Type 0} (s : Store) (r : Result (A × Store)) : Type 0 where
  pub taken : Gives (λ q. Step s q.1) r

module _ {A : Type 0} (s : Store) where
  pub steps_required :
      (wrong : Bool) (e : Error) (rest : Result (A × Store))
      → (wrong ≡ false → Steps s rest)
      → Steps s (refuse wrong e >> rest)
  steps_required true e rest h = record { taken = tt }
  steps_required false e rest h = h refl

  pub steps_then :
      (r : Result (Unit {0})) (rest : Result (A × Store)) → Steps s rest → Steps s (r >> rest)
  steps_then (ok a) rest h = h
  steps_then (err e) rest h = record { taken = tt }

  pub steps_either :
      (b : Bool) (r q : Result (A × Store))
      → (b ≡ true → Steps s r)
      → (b ≡ false → Steps s q)
      → Steps s (if b then r else q)
  steps_either true r q h k = h refl
  steps_either false r q h k = k refl

  pub steps_after :
      {B : Type 0} (r : Result B) (next : B → Result (A × Store))
      → ((b : B) → r ≡ ok b → Steps s (next b))
      → Steps s (r >>= next)
  steps_after (ok b) next h = h b refl
  steps_after (err e) next h = record { taken = tt }

  pub steps_found :
      {B : Type 0} (e : Error) (o : Option B) (next : B → Result (A × Store))
      → ((b : B) → o ≡ some b → Steps s (next b))
      → Steps s (found_or e o >>= next)
  steps_found e none next h = record { taken = tt }
  steps_found e (some b) next h = h b refl

  -- A node that is found is found by its own id.
  pub steps_on :
      (id : ℕ) (next : MediaNode → Result (A × Store))
      → ((n : MediaNode) → n.id ≡ id → get_node n.id s ≡ some n → Steps s (next n))
      → Steps s (require_node id s >>= next)
  unfolding get_node
  steps_on id next h = steps_found _ _ _ (λ n e.
      let same = find-key node_key id s.nodes n e in
      h n same (subst (λ k. find node_key k s.nodes ≡ some n) (sym same) e))

  pub steps_not : (a : A) → Steps s (ok (a, s))
  steps_not a = record { taken = stays s }

pub keeps_holding :
    (n m : MediaNode)
    → m.id ≡ n.id
    → m.external_port ≡ n.external_port
    → m.api_port ≡ n.api_port
    → m.metrics_port ≡ n.metrics_port
    → m.registered_cameras ≡ n.registered_cameras
    → m.camera_capacity ≡ n.camera_capacity
    → KeepsHolding n m
keeps_holding n m a b c d e f = record {
  id = a;
  external_port = b;
  api_port = c;
  metrics_port = d;
  registered_cameras = e;
  camera_capacity = f;
}

pub steps_saved :
    (s : Store) (n m : MediaNode)
    → get_node n.id s ≡ some n
    → KeepsHolding n m
    → Steps s (saved m s)
steps_saved s n m found keeps = record { taken = node_revised s n m found keeps }

pub ruleset step_rules =
    (steps_required, steps_then, steps_either, steps_on, steps_not, steps_saved, keeps_holding)
