-- ===== src/Registry/Tree/Shape.antt =====
-- The shape of the tree: every stored path has the same number of labels, `length` counts the
-- services below a node, and no inner node is empty.
pub mod Grow
pub mod Shrink
pub mod Remove
use skydns.Shared.{
  ℕ, zero, suc, ◌+◌, ◌<◌, ℤ, pos, incr, decr, Text, List, [], ◌∷◌, Option, none, some,
  text_Comparable, All, ◌≡◌, refl, ap, arith,
}
use skydns.Shared.GoMap
use skydns.Registry.Tree.{
  Node, leaves, size, with_leaves, leaves-with_leaves, size-with_leaves, new_node, Cells,
}

-- The nodes that lie `d` levels below a node.
unfoldable pub count : ℕ → Node → ℕ
unfolding GoMap.sum_by
count zero n = 1
count (suc d) n = GoMap.sum_by (count d) (leaves n)

abbrev pub Inhabited : (Node → Type 0) → ℕ → Node → Type 0
Inhabited P d c = P c × (0 < count d c)

-- All services lie `d` levels below the node.
abbrev pub Balanced : ℕ → Node → Type 0
Balanced zero n = (leaves n ≡ []) × (size n ≡ pos 0)
Balanced (suc d) n =
    GoMap.Distinct (leaves n)
    × (size n ≡ pos (count (suc d) n))
    × All (λ x. Inhabited (Balanced d) d x.1) (leaves n)

pub new_node-Balanced : (d e : ℕ) (h : Cells) → Balanced d (new_node e h)
unfolding count
new_node-Balanced zero e h = (refl, refl)
new_node-Balanced (suc d) e h = (tt, refl, tt)

-- The count of a child that may be missing.
abbrev pub count_of : ℕ → Option Node → ℕ
count_of d none = 0
count_of d (some c) = count d c

pub count-with_leaves :
    (d : ℕ) (n : Node) (ls : List (Text × Node)) (l : ℤ)
    → count (suc d) (with_leaves n ls l) ≡ GoMap.sum_by (count d) ls
unfolding count
count-with_leaves d n ls l = ap (GoMap.sum_by (count d)) (leaves-with_leaves n ls l)

pub count-eq-sum_by : (d : ℕ) (n : Node) → count (suc d) n ≡ GoMap.sum_by (count d) (leaves n)
unfolding count
count-eq-sum_by d n = refl

-- What has to be shown of a node whose leaves and length are written anew.
pub with_leaves-Balanced :
    (d : ℕ) (n : Node) (ls : List (Text × Node)) (l : ℤ)
    → GoMap.Distinct ls
    → l ≡ pos (GoMap.sum_by (count d) ls)
    → All (λ x. Inhabited (Balanced d) d x.1) ls
    → Balanced (suc d) (with_leaves n ls l)
with_leaves-Balanced d n ls l distinct sized all = (
  rw (leaves-with_leaves n ls l) distinct,
  rw (size-with_leaves n ls l, count-with_leaves d n ls l) sized,
  rw (leaves-with_leaves n ls l) all,
)

pub child-Inhabited :
    (d : ℕ) (n c : Node) (k : Text)
    → Balanced (suc d) n
    → GoMap.lookup (leaves n) k ≡ some c
    → Inhabited (Balanced d) d c
child-Inhabited d n c k (_, _, all) old =
    GoMap.All-lookup (Inhabited (Balanced d) d) (leaves n) k c all old
