-- ===== src/Nodes/Apart/Changes.antt =====
-- How the ports stay apart when a node is added, and when a change of port begins or ends.
use rtsp_proxy.Prelude.{
  ℕ, ◌≤◌, ◌≡◌, ◌≢◌, refl, sym, ap, ◌∙◌, subst, true, false, not, ◌&&◌, ◌||◌, none, some, List, [],
  ◌∷◌, ◌++◌, ◌==◌, ==_iff, arith, inl, inr, Bool-cases, count, count-append, In, any, any-none,
  none-count, In-snoc, count-In,
}
use mathlib.Core.Option.{some-injective}
use rtsp_proxy.Nodes.Kinds.{is_prepared}
use rtsp_proxy.Nodes.Data.{MediaNode, NodePortChange}
use rtsp_proxy.Nodes.Table.{
  find, put_at, append-found, put-found, find-key, find-In, count-put_at, In-put_at,
}
use rtsp_proxy.Nodes.Store.{node_key, change_key, is_prepared_on}
use rtsp_proxy.Nodes.Apart.{claims, IsPortsApart}

-- A change that is prepared no more frees its ports.
module _ (c d : NodePortChange) (changes : List NodePortChange)
    (found : find change_key d.id changes ≡ some c) (ended : is_prepared d.state ≡ false) where
  pub ended-In :
      (x : NodePortChange)
      → In x (put_at change_key d changes)
      → is_prepared x.state ≡ true
      → In x changes
  ended-In x inside ready = elim (In-put_at change_key d x changes inside) [
    | inr old ↦ old
    | inl e ↦
        let no_more = ap (λ (y : NodePortChange). is_prepared y.state) e in
        absurd (ground (arith, no_more))
  ]

  pub ended-one_per_port :
      ((port : ℕ) → count (claims port) changes ≤ 1)
      → (port : ℕ) → count (claims port) (put_at change_key d changes) ≤ 1
  ended-one_per_port one port =
      ground (arith, one port, count-put_at change_key (claims port) d c changes found)

  pub ended-one_per_node :
      ((id : ℕ) → count (is_prepared_on id) changes ≤ 1)
      → (id : ℕ) → count (is_prepared_on id) (put_at change_key d changes) ≤ 1
  ended-one_per_node one id =
      ground (arith, one id, count-put_at change_key (is_prepared_on id) d c changes found)

module _ (nodes : List MediaNode) (changes : List NodePortChange)
    (h : IsPortsApart nodes changes) where
  pub added-IsPortsApart :
      (n : MediaNode)
      → find node_key n.id nodes ≡ none
      → any (is_prepared_on n.id) changes ≡ false
      → (any (λ m. m.external_port == n.external_port) nodes
          || any (claims n.external_port) changes)
        ≡ false
      → IsPortsApart (nodes ++ n ∷ []) changes
  added-IsPortsApart n new settled free =
      let unlike : (k : ℕ) (x : MediaNode)
          → find node_key k nodes ≡ some x
          → x.external_port ≢ n.external_port =
        λ k x at e. absurd (
          ground (
            arith,
            any-none (λ (m : MediaNode). m.external_port == n.external_port) nodes x (ground arith)
                (find-In node_key k nodes x at),
            ==_iff x.external_port n.external_port,
          )) in
      record {
        distinct = λ i j x m at there same. elim (append-found node_key i n x nodes at) [
          | inl a ↦ elim (append-found node_key j n m nodes there) [
            | inl b ↦ h.distinct i j x m a b same
            | inr (e, b) ↦
                absurd (unlike i x a (same ∙ ap (λ (y : MediaNode). y.external_port) (sym e)))
          ]
          | inr (e, a) ↦ elim (append-found node_key j n m nodes there) [
            | inl b ↦
                absurd (unlike j m b (sym same ∙ ap (λ (y : MediaNode). y.external_port) (sym e)))
            | inr (d, b) ↦ sym a ∙ b
          ]
        ];
        reserved = λ c k x inside ready at taken. elim (append-found node_key k n x nodes at) [
          | inl a ↦ h.reserved c k x inside ready a taken
          | inr (e, a) ↦ ground (
            arith,
            any-none (claims n.external_port) changes c (ground arith) inside,
            ap (λ (y : MediaNode). y.external_port) e,
            ==_iff c.new_port n.external_port,
          )
        ];
        origin = λ c x inside ready at. elim (append-found node_key c.node_id n x nodes at) [
          | inl a ↦ h.origin c x inside ready a
          | inr (e, a) ↦ absurd (
              ground (
                arith,
                any-none (is_prepared_on n.id) changes c settled inside,
                ==_iff c.node_id n.id,
              ))
        ];
        one_per_port = h.one_per_port;
        one_per_node = h.one_per_node;
      }

  pub begun-IsPortsApart :
      (n : MediaNode) (c : NodePortChange)
      → find node_key c.node_id nodes ≡ some n
      → c.old_port ≡ n.external_port
      → (n.external_port == c.new_port) ≡ false
      → (any (λ m. m.external_port == c.new_port && not (m.id == c.node_id)) nodes
          || any (claims c.new_port) changes)
        ≡ false
      → any (is_prepared_on c.node_id) changes ≡ false
      → IsPortsApart nodes (changes ++ c ∷ [])
  begun-IsPortsApart n c at old other free single = record {
    distinct = h.distinct;
    reserved = λ d k x inside ready there taken. elim (In-snoc changes c d inside) [
      | inr before ↦ h.reserved d k x before ready there taken
      | inl e ↦
          let port : x.external_port ≡ c.new_port =
            taken ∙ ap (λ (y : NodePortChange). y.new_port) e in
          let mine : (x.external_port == c.new_port && not (x.id == c.node_id)) ≡ false =
            any-none (λ (m : MediaNode). m.external_port == c.new_port && not (m.id == c.node_id))
              nodes x (ground arith) (find-In node_key k nodes x there) in
          let here : x.id ≡ c.node_id =
            ground (arith, ==_iff x.id c.node_id, ==_iff x.external_port c.new_port) in
          let it : x ≡ n = some-injective _ _ (
            sym there
            ∙ subst (λ j. find node_key j nodes ≡ some n)
                (sym here ∙ find-key node_key k nodes x there) at) in
          ground
            (arith, ap (λ (y : MediaNode). y.external_port) it, ==_iff n.external_port c.new_port)
    ];
    origin = λ d x inside ready there. elim (In-snoc changes c d inside) [
      | inr before ↦ h.origin d x before ready there
      | inl e ↦
          let it : x ≡ n = some-injective _ _ (
            sym there
            ∙ subst (λ (y : NodePortChange). find node_key y.node_id nodes ≡ some n) (sym e) at) in
          ap (λ (y : MediaNode). y.external_port) it
          ∙ sym old
          ∙ ap (λ (y : NodePortChange). y.old_port) (sym e)
    ];
    one_per_port = λ port. elim (Bool-cases (c.new_port == port)) [
      | inl same ↦
          let free_port : any (claims port) changes ≡ false =
            subst (λ p. any (claims p) changes ≡ false) ((==_iff c.new_port port).0 same)
              (ground arith) in
          ground (
            arith,
            count-append (claims port) changes (c ∷ []),
            none-count (claims port) changes free_port,
          )
      | inr apart ↦ ground (arith, count-append (claims port) changes (c ∷ []), h.one_per_port port)
    ];
    one_per_node = λ id. elim (Bool-cases (c.node_id == id)) [
      | inl same ↦
          let free_node : any (is_prepared_on id) changes ≡ false =
            subst (λ p. any (is_prepared_on p) changes ≡ false) ((==_iff c.node_id id).0 same)
              single in
          ground (
            arith,
            count-append (is_prepared_on id) changes (c ∷ []),
            none-count (is_prepared_on id) changes free_node,
          )
      | inr apart ↦
          ground (arith, count-append (is_prepared_on id) changes (c ∷ []), h.one_per_node id)
    ];
  }

  module _ (c d : NodePortChange) (found : find change_key d.id changes ≡ some c)
      (ready : is_prepared c.state ≡ true) (ended : is_prepared d.state ≡ false) where
    pub ended-IsPortsApart : IsPortsApart nodes (put_at change_key d changes)
    ended-IsPortsApart = record {
      distinct = h.distinct;
      reserved =
          λ x k n inside on. h.reserved x k n (ended-In c d changes found ended x inside on) on;
      origin = λ x n inside on. h.origin x n (ended-In c d changes found ended x inside on) on;
      one_per_port = ended-one_per_port c d changes found ended h.one_per_port;
      one_per_node = ended-one_per_node c d changes found ended h.one_per_node;
    }

    -- No change that is still prepared is of the same port or the same node.
    unclaimed :
        (x : NodePortChange)
        → In x (put_at change_key d changes)
        → is_prepared x.state ≡ true
        → x.new_port ≢ c.new_port
    unclaimed x inside on e = ground (
      arith,
      count-In (claims c.new_port) (put_at change_key d changes) x inside
          (rw (e, on, (==_iff c.new_port c.new_port).1 refl) refl),
      count-put_at change_key (claims c.new_port) d c changes found,
      h.one_per_port c.new_port,
      ==_iff c.new_port c.new_port,
    )

    unfollowed :
        (x : NodePortChange)
        → In x (put_at change_key d changes)
        → is_prepared x.state ≡ true
        → x.node_id ≢ c.node_id
    unfollowed x inside on e = ground (
      arith,
      count-In (is_prepared_on c.node_id) (put_at change_key d changes) x inside
          (rw (e, on, (==_iff c.node_id c.node_id).1 refl) refl),
      count-put_at change_key (is_prepared_on c.node_id) d c changes found,
      h.one_per_node c.node_id,
      ==_iff c.node_id c.node_id,
    )

    pub completed-IsPortsApart :
        (n m : MediaNode)
        → find node_key m.id nodes ≡ some n
        → m.id ≡ c.node_id
        → m.external_port ≡ c.new_port
        → IsPortsApart (put_at node_key m nodes) (put_at change_key d changes)
    completed-IsPortsApart n m at id port =
        let first = find-In change_key d.id changes c found in
        record {
          distinct = λ i j x y there here same. elim (put-found node_key i m n x nodes at there) [
            | inl a ↦ elim (put-found node_key j m n y nodes at here) [
              | inl b ↦ h.distinct i j x y a b same
              | inr (e, b) ↦ absurd (
                  h.reserved c i x first ready a
                    (same ∙ ap (λ (z : MediaNode). z.external_port) (sym e) ∙ port))
            ]
            | inr (e, a) ↦ elim (put-found node_key j m n y nodes at here) [
              | inl b ↦ absurd (
                  h.reserved c j y first ready b
                    (sym same ∙ ap (λ (z : MediaNode). z.external_port) (sym e) ∙ port))
              | inr (_, b) ↦ sym a ∙ b
            ]
          ];
          reserved = λ x k y inside on there taken.
              elim (put-found node_key k m n y nodes at there) [
                | inl a ↦ h.reserved x k y (ended-In c d changes found ended x inside on) on a taken
                | inr (e, a) ↦ absurd (
                    unclaimed x inside on
                      (sym taken ∙ ap (λ (z : MediaNode). z.external_port) (sym e) ∙ port))
              ];
          origin = λ x y inside on there. elim (put-found node_key x.node_id m n y nodes at there) [
            | inl a ↦ h.origin x y (ended-In c d changes found ended x inside on) on a
            | inr (e, a) ↦ absurd (unfollowed x inside on (sym a ∙ id))
          ];
          one_per_port = ended-one_per_port c d changes found ended h.one_per_port;
          one_per_node = ended-one_per_node c d changes found ended h.one_per_node;
        }
