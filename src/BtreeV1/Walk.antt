-- ===== src/BtreeV1/Walk.antt =====
-- The walk from a group's B-tree to its symbol table nodes: what it returns on a tree, and that
-- it does not end on a cycle.
use rustyhdf.Prelude.{ℕ, zero, suc, ◌<◌, ◌≡◌, ◌≢◌, refl, arith, List, [], ◌∷◌, ◌++◌}
use rustyhdf.Prelude.{◌==◌, false}
use rustyhdf.Outcome.{ok, stuck}
use rustyhdf.BtreeV1.{BTreeV1Node, parse, extend_each, collect_symbol_table_nodes}

-- The file holds a B-tree of a group at `address`, of `height` levels below its root's, whose
-- leaves list these symbol table nodes from left to right.
mutual
  pub data IsTree (d : List ℕ) (size : ℕ) : (height address : ℕ) → List ℕ → Type 0 where
    leaf :
        {height address : ℕ} (node : BTreeV1Node)
        → parse d address size ≡ ok node
        → node.node_type ≡ 0
        → node.node_level ≡ 0
        → IsTree d size height address node.children
    inner :
        {height address : ℕ} {found : List ℕ} (node : BTreeV1Node)
        → parse d address size ≡ ok node
        → node.node_type ≡ 0
        → (node.node_level == 0) ≡ false
        → AreTrees d size height node.children found
        → IsTree d size (suc height) address found

  pub data AreTrees (d : List ℕ) (size : ℕ) : (height : ℕ) → List ℕ → List ℕ → Type 0 where
    no_trees : {height : ℕ} → AreTrees d size height [] []
    more_trees :
        {height child : ℕ} {children nodes found : List ℕ}
        → IsTree d size height child nodes
        → AreTrees d size height children found
        → AreTrees d size height (child ∷ children) (nodes ++ found)

mutual
  unfolding collect_symbol_table_nodes extend_each

  walk_tree :
      {d : List ℕ} {size height address : ℕ} {found : List ℕ} (fuel : ℕ)
      → IsTree d size height address found
      → height < fuel
      → collect_symbol_table_nodes fuel d size address ≡ ok found
  walk_tree zero t h = absurd (omega arith)
  walk_tree (suc fuel) (leaf node e k l) h = rw (e, k, l) refl
  walk_tree (suc fuel) (inner node e k l ts) h = rw (e, k, l) (walk_trees fuel ts (omega arith))

  walk_trees :
      {d : List ℕ} {size height : ℕ} {children found : List ℕ} (fuel : ℕ)
      → AreTrees d size height children found
      → height < fuel
      → extend_each (collect_symbol_table_nodes fuel d size) children ≡ ok found
  walk_trees fuel no_trees h = refl
  walk_trees fuel (more_trees t ts) h = rw (walk_tree fuel t h, walk_trees fuel ts h) refl

-- On a B-tree of any height the walk returns exactly the addresses in its leaves, from left to
-- right, when the recursion may go deeper than the tree is high.
pub collect_symbol_table_nodes-IsTree :
    {d : List ℕ} {size height address : ℕ} {found : List ℕ} (fuel : ℕ)
    → IsTree d size height address found
    → height < fuel
    → collect_symbol_table_nodes fuel d size address ≡ ok found
collect_symbol_table_nodes-IsTree fuel t h = walk_tree fuel t h

-- An inner node that is its own first child makes the walk recurse without end: no depth of
-- recursion is enough.
pub cycle_never_ends :
    (d : List ℕ) (size address : ℕ) (node : BTreeV1Node) (rest : List ℕ)
    → parse d address size ≡ ok node
    → node.node_type ≡ 0
    → node.node_level ≢ 0
    → node.children ≡ address ∷ rest
    → (fuel : ℕ) → collect_symbol_table_nodes fuel d size address ≡ stuck
unfolding collect_symbol_table_nodes extend_each
cycle_never_ends d size address node rest e k l c zero = refl
cycle_never_ends d size address node rest e k l c (suc fuel) =
    let inner_level : (node.node_level == 0) ≡ false = ground arith in
    rw (e, k, inner_level, c, cycle_never_ends d size address node rest e k l c fuel) refl
