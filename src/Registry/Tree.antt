-- ===== src/Registry/Tree.antt =====
-- The tree of nodes of registry/registry.go. A `*node` is an address; the `value` field, which the
-- tree and the map `nodes` share, lies in a cell at that address, and the other fields, which are
-- reached along the tree alone, lie in the tree. A path is walked from its last label, so the
-- operations take it reversed; an empty path is the index panic of `tree[len(tree)-1]`.
pub mod Find
pub mod Add
pub mod Shape
use skydns.Shared.{
  ℕ, suc, ℤ, pos, incr, decr, is_zero, Text, List, [], ◌∷◌, ◌++◌, Option, none, some, length,
  if◌then◌else◌, text_Comparable, ◌≡◌, refl, ap,
}
use skydns.Shared.GoMap
use skydns.Msg.{Service, zero_service}

-- `err panic` is a run-time panic, which is no value of type `error`.
pub data Error : Type 0 where
  exists not_exists panic : Error

pub data Result {ℓ} (A : Type ℓ) : Type ℓ where
  ok : A → Result A
  err : Error → Result A

mutual
  -- `leaves`, `depth`, `length`, and the address.
  pub data Node : Type 0 where
    node : Leaves → ℕ → ℤ → ℕ → Node

  pub data Leaves : Type 0 where
    nil : Leaves
    leaf : Text → Node → Leaves → Leaves

abbrev pub Children : Type 0
Children = List (Text × Node)

abbrev to_list : Leaves → Children
to_list nil = []
to_list (leaf k n ls) = (k, n) ∷ to_list ls

abbrev of_list : Children → Leaves
of_list [] = nil
of_list ((k, n) ∷ ls) = leaf k n (of_list ls)

to_list-of_list : (ls : Children) → to_list (of_list ls) ≡ ls
to_list-of_list [] = refl
to_list-of_list ((k, n) ∷ ls) = ap (◌∷◌ (k, n)) (to_list-of_list ls)

abbrev pub leaves : Node → Children
leaves (node ls d l a) = to_list ls

abbrev pub depth : Node → ℕ
depth (node ls d l a) = d

-- `n.size()`
abbrev pub size : Node → ℤ
size (node ls d l a) = l

abbrev pub addr : Node → ℕ
addr (node ls d l a) = a

-- `n` with other leaves and another length.
abbrev pub with_leaves : Node → Children → ℤ → Node
with_leaves (node ls d l a) ls' l' = node (of_list ls') d l' a

pub leaves-with_leaves : (n : Node) (ls : Children) (l : ℤ) → leaves (with_leaves n ls l) ≡ ls
leaves-with_leaves (node ls d l a) ls' l' = to_list-of_list ls'

pub size-with_leaves : (n : Node) (ls : Children) (l : ℤ) → size (with_leaves n ls l) ≡ l
size-with_leaves (node ls d l a) ls' l' = refl

pub addr-with_leaves : (n : Node) (ls : Children) (l : ℤ) → addr (with_leaves n ls l) ≡ addr n
addr-with_leaves (node ls d l a) ls' l' = refl

pub depth-with_leaves : (n : Node) (ls : Children) (l : ℤ) → depth (with_leaves n ls l) ≡ depth n
depth-with_leaves (node ls d l a) ls' l' = refl

of_list-to_list : (ls : Leaves) → of_list (to_list ls) ≡ ls
of_list-to_list nil = refl
of_list-to_list (leaf k n ls) = ap (leaf k n) (of_list-to_list ls)

pub with_leaves_same : (n : Node) → with_leaves n (leaves n) (size n) ≡ n
with_leaves_same (node ls d l a) = ap (λ (m : Leaves). node m d l a) (of_list-to_list ls)

abbrev pub Cells : Type 0
Cells = List Service

-- A new node of the given depth lies at the first free address.
abbrev pub new_node : ℕ → Cells → Node
new_node d h = node nil d (pos 0) (length h)

-- `n.leaves[k]`, and a new node there if it is missing.
abbrev pub child_or_new : Option Node → ℕ → Cells → Node × Cells
child_or_new (some c) d h = (c, h)
child_or_new none d h = (new_node d h, h ++ zero_service ∷ [])

abbrev pub grown : Node → Text → Result ℕ × Node × Cells → Result ℕ × Node × Cells
grown n k (ok r, c, h) = (ok r, with_leaves n (GoMap.insert (leaves n) k c) (incr (size n)), h)
grown n k (err e, c, h) = (err e, with_leaves n (GoMap.insert (leaves n) k c) (size n), h)

abbrev pub attach : Option Node → Node → Text → Service → Cells → Result ℕ × Node × Cells
attach (some _) n k s h = (err exists, n, h)
attach none n k s h = grown n k (ok (length h), new_node (suc (depth n)) h, h ++ s ∷ [])

-- `n.add(tree, s)`: the address of the new node, the tree and the cells.
unfoldable pub add : List Text → Node → Service → Cells → Result ℕ × Node × Cells
add [] n s h = (err panic, n, h)
add (k ∷ []) n s h = attach (GoMap.lookup (leaves n) k) n k s h
add (k ∷ j ∷ rest) n s h =
    let (c, h1) = child_or_new (GoMap.lookup (leaves n) k) (suc (depth n)) h in
    grown n k (add (j ∷ rest) c s h1)

abbrev pub detach : Option Node → Node → Text → Result (Unit {0}) × Node
detach none n k = (err not_exists, n)
detach (some _) n k = (ok tt, with_leaves n (GoMap.delete (leaves n) k) (decr (size n)))

-- The child's path is removed when it is empty.
abbrev pub shrunk : Node → Text → Result (Unit {0}) × Node → Result (Unit {0}) × Node
shrunk n k (ok u, c) =
    let ls = GoMap.insert (leaves n) k c in
    (ok u, with_leaves n (if is_zero (size c) then GoMap.delete ls k else ls) (decr (size n)))
shrunk n k (err e, c) = (err e, with_leaves n (GoMap.insert (leaves n) k c) (size n))

abbrev pub forward :
    Option Node → Node → Text → (Node → Result (Unit {0}) × Node) → Result (Unit {0}) × Node
forward none n k remove_below = (err not_exists, n)
forward (some c) n k remove_below = shrunk n k (remove_below c)

-- `n.remove(tree)`
unfoldable pub remove : List Text → Node → Result (Unit {0}) × Node
remove [] n = (err panic, n)
remove (k ∷ []) n = detach (GoMap.lookup (leaves n) k) n k
remove (k ∷ j ∷ rest) n = forward (GoMap.lookup (leaves n) k) n k (remove (j ∷ rest))
