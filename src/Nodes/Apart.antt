-- ===== src/Nodes/Apart.antt =====
-- That the external ports of the nodes (nodes.py) stay apart, those that are changing included.
mod Tables
mod Changes
pub mod Kept
use rtsp_proxy.Prelude.{ℕ, ◌≤◌, ◌≡◌, ◌≢◌, Bool, true, ◌&&◌, Option, some, List, ◌==◌, count, In}
use rtsp_proxy.Nodes.Kinds.{is_prepared}
use rtsp_proxy.Nodes.Data.{MediaNode, NodePortChange}
use rtsp_proxy.Nodes.Table.{find}
use rtsp_proxy.Nodes.Store.{node_key, is_prepared_on}

-- A prepared change that will take a port.
abbrev pub claims : ℕ → NodePortChange → Bool
claims port c = c.new_port == port && is_prepared c.state

pub record IsPortsApart (nodes : List MediaNode) (changes : List NodePortChange) : Type 0 where
  -- two nodes have two ports
  pub distinct :
      (k j : ℕ) (n m : MediaNode)
      → find node_key k nodes ≡ some n
      → find node_key j nodes ≡ some m
      → n.external_port ≡ m.external_port
      → k ≡ j
  -- no node has the port that a prepared change will take
  pub reserved :
      (c : NodePortChange) (k : ℕ) (n : MediaNode)
      → In c changes
      → is_prepared c.state ≡ true
      → find node_key k nodes ≡ some n
      → n.external_port ≢ c.new_port
  -- the node of a prepared change still has its old port
  pub origin :
      (c : NodePortChange) (n : MediaNode)
      → In c changes
      → is_prepared c.state ≡ true
      → find node_key c.node_id nodes ≡ some n
      → n.external_port ≡ c.old_port
  pub one_per_port : (port : ℕ) → count (claims port) changes ≤ 1
  pub one_per_node : (id : ℕ) → count (is_prepared_on id) changes ≤ 1
