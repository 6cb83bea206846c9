-- ===== src/Registry/Consistency.antt =====
-- The invariant that ties the map of nodes to the tree, and the tree lemmas at paths of six labels.
pub mod Add
pub mod Remove
pub mod Updates
use mathlib.Core.Path.{subst}
use skydns.Shared.{
  ℕ, zero, suc, ◌+◌, ◌<◌, ℤ, pos, Text, text_Comparable, text_eq, List, [], ◌∷◌, ◌++◌, Option, none,
  some, length, get_elem?, set, get_elem?-append_left, get_elem?-append_length,
  lt-length_of_get_elem?, length-append, ◌≡◌, ◌≢◌, ◌⊎◌, refl, ap, sym, ◌∙◌, arith, inl, inr,
  Option-cases, append_assoc,
}
use skydns.Shared.GoMap
use skydns.Msg.{Service}
use skydns.Registry.Tree.{Node, Cells}
use skydns.Registry.Tree
use skydns.Registry.Tree.Find.{find}
use skydns.Registry.Tree.Add.{IsAdded, add-IsAdded, find-add_ne, text_cases}
use skydns.Registry.Tree.Shape.{Balanced, count}
use skydns.Registry.Query.{cell}
use skydns.Registry.{Registry, path_of}

-- The node of a UUID holds a service of that UUID, to which the service's own path leads.
pub record IsRegistered (r : Registry) (uuid : Text) (a : ℕ) : Type 0 where
  pub service : Service
  pub held : cell r.cells a ≡ some service
  pub named : service.uuid ≡ uuid
  pub six : length (path_of service) ≡ 6
  pub stored : find (path_of service) r.tree ≡ some a

-- A node of the tree holds a service whose path is the node's, and whose UUID leads to it.
pub record IsOwned (r : Registry) (p : List Text) (a : ℕ) : Type 0 where
  pub service : Service
  pub held : cell r.cells a ≡ some service
  pub path : path_of service ≡ p
  pub listed : GoMap.lookup r.nodes service.uuid ≡ some a

-- The map of nodes and the tree hold the same services.
pub record IsConsistent (r : Registry) : Type 0 where
  pub shape : Balanced 6 r.tree
  pub distinct : GoMap.Distinct r.nodes
  pub counted : count 6 r.tree ≡ length r.nodes
  pub registered :
      (uuid : Text) (a : ℕ) → GoMap.lookup r.nodes uuid ≡ some a → IsRegistered r uuid a
  pub owned : (p : List Text) (a : ℕ) → length p ≡ 6 → find p r.tree ≡ some a → IsOwned r p a

pub path_cases : (p q : List Text) → (p ≡ q) ⊎ (p ≢ q)
path_cases [] [] = inl refl
path_cases [] (j ∷ q) = inr (λ e. cc)
path_cases (k ∷ p) [] = inr (λ e. cc)
path_cases (k ∷ p) (j ∷ q) = elim (text_cases k j) [
  | inr apart ↦ inr (λ e. apart (cc))
  | inl same ↦ elim (path_cases p q) [ inl e ↦ inl (cc) | inr ne ↦ inr (λ e. ne (cc)) ]
]

-- The tree lemmas at a path of known length.
pub add_at_path :
    (p : List Text) (n : Node) (s : Service) (h : Cells)
    → length p ≡ 6
    → find p n ≡ none
    → IsAdded p n s h
add_at_path [] n s h e free = absurd (omega arith)
add_at_path (k ∷ p) n s h e free = add-IsAdded k p n s h free

pub find-add :
    (p q : List Text) (n : Node) (s : Service) (h : Cells)
    → length p ≡ 6
    → length q ≡ 6
    → p ≢ q
    → find q (Tree.add p n s h).1 ≡ find q n
find-add [] q n s h e f other = absurd (omega arith)
find-add (k ∷ p) [] n s h e f other = absurd (omega arith)
find-add (k ∷ p) (j ∷ q) n s h e f other = find-add_ne k j p q n s h (omega arith) other
