-- ===== src/Registry/Tree/Find.antt =====
-- What a path leads to in the tree, after `add` and after `remove`.
use skydns.Shared.{ℕ, ℤ, Text, List, [], ◌∷◌, Option, none, some, text_Comparable, ◌≡◌, ◌≢◌, refl}
use skydns.Shared.GoMap
use skydns.Registry.Tree.{Node, leaves, addr, Cells, with_leaves, new_node, leaves-with_leaves}

abbrev pub follow {ℓ} : {A : Type ℓ} → Option Node → (Node → Option A) → Option A
follow none f = none
follow (some c) f = f c

-- The address of the node at the end of a path.
unfoldable pub find : List Text → Node → Option ℕ
find [] n = some (addr n)
find (k ∷ rest) n = follow (GoMap.lookup (leaves n) k) (find rest)

pub find-nil : (n : Node) → find [] n ≡ some (addr n)
unfolding find
find-nil n = refl

module _ (n : Node) (k : Text) where
  pub find-cons_none :
      (rest : List Text) → GoMap.lookup (leaves n) k ≡ none → find (k ∷ rest) n ≡ none
  unfolding find
  find-cons_none rest h = rw h

  pub find-cons_some :
      (rest : List Text) (c : Node)
      → GoMap.lookup (leaves n) k ≡ some c
      → find (k ∷ rest) n ≡ find rest c
  unfolding find
  find-cons_some rest c h = rw h

  -- A node with one child written anew.
  pub find-with_leaves_self :
      (rest : List Text) (c : Node) (l : ℤ)
      → find (k ∷ rest) (with_leaves n (GoMap.insert (leaves n) k c) l) ≡ find rest c
  unfolding find
  find-with_leaves_self rest c l = rw (
    leaves-with_leaves n (GoMap.insert (leaves n) k c) l,
    GoMap.lookup-insert_self (leaves n) k c,
  )

  pub find-with_leaves_ne :
      (j : Text) (rest : List Text) (c : Node) (l : ℤ)
      → k ≢ j
      → find (j ∷ rest) (with_leaves n (GoMap.insert (leaves n) k c) l) ≡ find (j ∷ rest) n
  unfolding find
  find-with_leaves_ne j rest c l h = rw (
    leaves-with_leaves n (GoMap.insert (leaves n) k c) l,
    GoMap.lookup-insert_ne (leaves n) k j c h,
  )

  pub find-detached_self :
      (rest : List Text) (l : ℤ)
      → find (k ∷ rest) (with_leaves n (GoMap.delete (leaves n) k) l) ≡ none
  unfolding find
  find-detached_self rest l =
      rw (leaves-with_leaves n (GoMap.delete (leaves n) k) l, GoMap.lookup-delete_self (leaves n) k)

  pub find-detached_ne :
      (j : Text) (rest : List Text) (l : ℤ)
      → k ≢ j
      → find (j ∷ rest) (with_leaves n (GoMap.delete (leaves n) k) l) ≡ find (j ∷ rest) n
  unfolding find
  find-detached_ne j rest l h =
      rw (
        leaves-with_leaves n (GoMap.delete (leaves n) k) l,
        GoMap.lookup-delete_ne (leaves n) k j h,
      )

-- A new node has no path in it.
pub find-new_node :
    (d : ℕ) (h : Cells) (j : Text) (rest : List Text) → find (j ∷ rest) (new_node d h) ≡ none
unfolding find GoMap.lookup
find-new_node d h j rest = refl
