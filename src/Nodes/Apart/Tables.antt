-- ===== src/Nodes/Apart/Tables.antt =====
-- How the ports stay apart with one record of a list.
use rtsp_proxy.Prelude.{
  ℕ, ◌≡◌, refl, sym, ap, ◌∙◌, subst, none, some, List, ◌==◌, ==_iff, arith, inl, inr, Bool-cases,
}
use mathlib.Core.Option.{some-injective}
use rtsp_proxy.Nodes.Data.{MediaNode, NodePortChange}
use rtsp_proxy.Nodes.Table.{find, put_at, remove_at, find-put_at, find-remove_at, IsKeyed}
use rtsp_proxy.Nodes.Store.{node_key}
use rtsp_proxy.Nodes.Apart.{IsPortsApart}

-- The nodes of a list have the ports they had in another.
pub record KeepsPorts (nodes others : List MediaNode) : Type 0 where
  pub old :
      (k : ℕ) (n : MediaNode)
      → find node_key k others ≡ some n
      → (m : MediaNode) × (find node_key k nodes ≡ some m) × (m.external_port ≡ n.external_port)

pub KeepsPorts-trans : (a b c : List MediaNode) → KeepsPorts a b → KeepsPorts b c → KeepsPorts a c
KeepsPorts-trans a b c h k = record {
  old = λ j n found.
      let (m, at, e) = k.old j n found in let (o, there, d) = h.old j m at in (o, there, d ∙ e);
}

pub put-KeepsPorts :
    (nodes : List MediaNode) (n m : MediaNode)
    → find node_key m.id nodes ≡ some n
    → m.external_port ≡ n.external_port
    → KeepsPorts nodes (put_at node_key m nodes)
put-KeepsPorts nodes n m here e = record {
  old = λ k x found. elim (Bool-cases (m.id == k)) [
    | inr other ↦ (x, rw (find-put_at node_key k m n nodes here, other) at found, refl)
    | inl same ↦
        let it : m ≡ x =
          some-injective _ _ (rw (find-put_at node_key k m n nodes here, same) at found) in
        (
          n,
          subst (λ j. find node_key j nodes ≡ some n) ((==_iff m.id k).0 same) here,
          sym e ∙ ap (λ (y : MediaNode). y.external_port) it,
        )
  ];
}

pub remove-KeepsPorts :
    (nodes : List MediaNode) (id : ℕ)
    → IsKeyed node_key nodes
    → KeepsPorts nodes (remove_at node_key id nodes)
remove-KeepsPorts nodes id keyed = record {
  old = λ k x found. elim (Bool-cases (id == k)) [
    | inr other ↦ (x, rw (find-remove_at node_key id k nodes (keyed id), other) at found, refl)
    | inl same ↦
        let no_node : none ≡ some x =
          rw (find-remove_at node_key id k nodes (keyed id), same) at found in
        absurd (ground arith)
  ];
}

pub kept-IsPortsApart :
    (nodes others : List MediaNode) (changes : List NodePortChange)
    → KeepsPorts nodes others
    → IsPortsApart nodes changes
    → IsPortsApart others changes
kept-IsPortsApart nodes others changes k h = record {
  distinct = λ i j n m at there same.
      let (a, at_old, e) = k.old i n at in
      let (b, there_old, d) = k.old j m there in
      h.distinct i j a b at_old there_old (e ∙ same ∙ sym d);
  reserved = λ c i n inside ready at taken.
      let (a, at_old, e) = k.old i n at in h.reserved c i a inside ready at_old (e ∙ taken);
  origin = λ c n inside ready at.
      let (a, at_old, e) = k.old c.node_id n at in sym e ∙ h.origin c a inside ready at_old;
  one_per_port = h.one_per_port;
  one_per_node = h.one_per_node;
}
