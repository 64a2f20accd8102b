-- ===== src/Nodes/Runs/Ports.antt =====
-- The external ports of the nodes after any calls.
use rtsp_proxy.Prelude.{ℕ, ◌≡◌, ◌≢◌, some, List, [], ◌∷◌, arith, In, In-filter}
use rtsp_proxy.Nodes.Kinds.{is_prepared}
use rtsp_proxy.Nodes.Data.{MediaNode, NodePortChange}
use rtsp_proxy.Nodes.Table.{find}
use rtsp_proxy.Nodes.Store.{Store, Means, create_store, get_node, list_incomplete_port_changes}
use rtsp_proxy.Nodes.Counts.{IsConsistent}
use rtsp_proxy.Nodes.Counts.Kept.{Step-IsConsistent}
use rtsp_proxy.Nodes.Apart.Kept.{IsApart, Step-IsApart}
use rtsp_proxy.Nodes.Runs.{Call, after, run, IsFreshRun, after-Step}
use rtsp_proxy.Nodes.Runs.Placements.{empty-IsConsistent}

empty-IsApart : IsApart (create_store [])
unfolding create_store find
empty-IsApart = record {
  distinct = λ k j n m at there e. absurd (ground arith);
  reserved = λ c k n inside ready at. absurd inside;
  origin = λ c n inside ready at. absurd inside;
  one_per_port = λ port. omega arith;
  one_per_node = λ id. omega arith;
}

module _ {A : Type 0} (means : Means A) where
  run-IsApart :
      (calls : List (Call A)) (s : Store)
      → IsFreshRun means calls s
      → IsConsistent s
      → IsApart s
      → IsApart (run means calls s)
  unfolding run
  run-IsApart [] s fresh h a = a
  run-IsApart (c ∷ rest) s fresh h a =
      let step = after-Step means c s h.keyed fresh.0 in
      run-IsApart rest (after means c s) fresh.1 (Step-IsConsistent s _ step h)
        (Step-IsApart s _ step h a)

  module _ (calls : List (Call A)) (fresh : IsFreshRun means calls (create_store [])) where
    apart : IsApart (run means calls (create_store []))
    apart = run-IsApart calls (create_store []) fresh empty-IsConsistent empty-IsApart

    -- After any calls, two nodes have two external ports, if each new node has a new id.
    pub run_ports_distinct :
        (id other : ℕ) (n m : MediaNode)
        → id ≢ other
        → get_node id (run means calls (create_store [])) ≡ some n
        → get_node other (run means calls (create_store [])) ≡ some m
        → n.external_port ≢ m.external_port
    unfolding get_node
    run_ports_distinct id other n m two at there same =
        two (apart.distinct id other n m at there same)

    -- After any calls, the port that an incomplete change of port will take is that of no node, if
    -- each new node has a new id.
    pub run_ports_reserved :
        (c : NodePortChange) (id : ℕ) (n : MediaNode)
        → In c (list_incomplete_port_changes (run means calls (create_store [])))
        → get_node id (run means calls (create_store [])) ≡ some n
        → n.external_port ≢ c.new_port
    unfolding get_node list_incomplete_port_changes
    run_ports_reserved c id n inside at =
        let (recorded, ready) =
          In-filter (λ x. is_prepared x.state) (run means calls (create_store [])).port_changes c
            inside in
        apart.reserved c id n recorded ready at
