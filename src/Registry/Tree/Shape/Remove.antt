-- ===== src/Registry/Tree/Shape/Remove.antt =====
-- `remove` succeeds on a stored path, keeps the shape, and leaves the other paths as they are.
use skydns.Shared.{
  ℕ, suc, ◌<◌, decr, Text, List, [], ◌∷◌, none, some, length, text_Comparable, ◌≡◌, ◌≢◌, refl, ap,
  sym, ◌∙◌, arith, Option-cases, inl, inr,
}
use skydns.Shared.GoMap
use skydns.Registry.Tree.{Node, leaves, size, with_leaves, remove, forward, ok}
use skydns.Registry.Tree.Find.{
  find, find-cons_none, find-cons_some, find-with_leaves_self, find-with_leaves_ne,
  find-detached_self, find-detached_ne,
}
use skydns.Registry.Tree.Add.{text_cases}
use skydns.Registry.Tree.Shape.{count, Balanced, count-eq-sum_by, child-Inhabited}
use skydns.Registry.Tree.Shape.Shrink.{
  delete-Shrunk, replace-Shrunk, shrunk-ok, left_cases, IsRemoved,
}

-- An empty node has no path below it.
find_of_count-zero :
    (d : ℕ) (c : Node) (i : Text) (q : List Text)
    → Balanced (suc d) c
    → count (suc d) c ≡ 0
    → find (i ∷ q) c ≡ none
find_of_count-zero d c i q b e = elim (Option-cases (GoMap.lookup (leaves c) i)) [
  | inl new ↦ find-cons_none c i q new
  | inr (u, old) ↦
      let inhabited = child-Inhabited d c u i b old in
      absurd (omega (arith, GoMap.le-sum_by (count d) (leaves c) i u old, count-eq-sum_by d c))
]

module _ (k : Text) (rest : List Text) (n : Node) (ls : List (Text × Node)) where
  -- The result of `remove` is the node with other leaves.
  abbrev LeavesAre : Type 0
  LeavesAre = remove (k ∷ rest) n ≡ (ok tt, with_leaves n ls (decr (size n)))

module _ (k : Text) (rest : List Text) (n c : Node) (old : GoMap.lookup (leaves n) k ≡ some c)
    (b : Balanced (suc (length rest)) n) where
  -- The child goes, its last service with it.
  deleted-IsRemoved :
      LeavesAre k rest n (GoMap.delete (leaves n) k)
      → count (length rest) c ≡ 1
      → ((q : List Text) → length rest ≡ length q → rest ≢ q → find q c ≡ none)
      → IsRemoved (k ∷ rest) n
  deleted-IsRemoved e one empty = record {
    result = rw e;
    shape = rw e (delete-Shrunk (length rest) n c k b old one);
    gone = rw e (find-detached_self n k rest (decr (size n)));
    others = λ j q same other. rw e (elim (text_cases k j) [
      | inr apart ↦ find-detached_ne n k j q (decr (size n)) apart
      | inl eq ↦ rw (← eq) (
          find-detached_self n k q (decr (size n))
          ∙ sym (find-cons_some n k q c old ∙ empty q (omega arith) (λ t. other (cc))))
    ]);
  }

  -- The child stays, with a service less.
  replaced-IsRemoved :
      (c' : Node)
      → LeavesAre k rest n (GoMap.insert (leaves n) k c')
      → Balanced (length rest) c'
      → 0 < count (length rest) c'
      → suc (count (length rest) c') ≡ count (length rest) c
      → find rest c' ≡ none
      → ((q : List Text) → length rest ≡ length q → rest ≢ q → find q c' ≡ find q c)
      → IsRemoved (k ∷ rest) n
  replaced-IsRemoved c' e balanced left less gone same_paths = record {
    result = rw e;
    shape = rw e (replace-Shrunk (length rest) n c k b old c' balanced left less);
    gone = rw e (find-with_leaves_self n k rest c' (decr (size n)) ∙ gone);
    others = λ j q same other. rw e (elim (text_cases k j) [
      | inr apart ↦ find-with_leaves_ne n k j q c' (decr (size n)) apart
      | inl eq ↦ rw (← eq) (
          find-with_leaves_self n k q c' (decr (size n))
          ∙ same_paths q (omega arith) (λ t. other (cc))
          ∙ sym (find-cons_some n k q c old))
    ]);
  }

-- At the same length, an empty path is the empty path.
no_other_nil :
    (q : List Text) (c : Node) → 0 ≡ length q → ◌≢◌ {A = List Text} [] q → find q c ≡ none
no_other_nil [] c same other = absurd (other refl)
no_other_nil (i ∷ q) c same other = absurd (omega arith)

others_below :
    (j : Text) (rest : List Text) (c c' : Node)
    → ((i : Text) (q : List Text)
        → length (j ∷ rest) ≡ suc (length q)
        → j ∷ rest ≢ i ∷ q
        → find (i ∷ q) c' ≡ find (i ∷ q) c)
    → (q : List Text) → length (j ∷ rest) ≡ length q
    → j ∷ rest ≢ q
    → find q c' ≡ find q c
others_below j rest c c' others [] same other = absurd (omega arith)
others_below j rest c c' others (i ∷ q) same other = others i q same other

empty_below :
    (j : Text) (rest : List Text) (c' : Node)
    → Balanced (length (j ∷ rest)) c'
    → count (length (j ∷ rest)) c' ≡ 0
    → (q : List Text) → length (j ∷ rest) ≡ length q
    → find q c' ≡ none
empty_below j rest c' b e [] same = absurd (omega arith)
empty_below j rest c' b e (i ∷ q) same = find_of_count-zero (length rest) c' i q b e

pub remove-IsRemoved :
    (k : Text) (rest : List Text) (n : Node) (a : ℕ)
    → Balanced (length (k ∷ rest)) n
    → find (k ∷ rest) n ≡ some a
    → IsRemoved (k ∷ rest) n
unfolding remove
remove-IsRemoved k [] n a b stored = elim (Option-cases (GoMap.lookup (leaves n) k)) [
  | inl new ↦ absurd (cc (find-cons_none n k [] new))
  | inr (c, old) ↦
      deleted-IsRemoved k [] n c old b (rw old) (unfold count in refl) (λ q. no_other_nil q c)
]
remove-IsRemoved k (j ∷ rest) n a b stored = elim (Option-cases (GoMap.lookup (leaves n) k)) [
  | inl new ↦ absurd (cc (find-cons_none n k (j ∷ rest) new))
  | inr (c, old) ↦
      let inhabited = child-Inhabited (length (j ∷ rest)) n c k b old in
      let r =
        remove-IsRemoved j rest c a inhabited.0
          (sym (find-cons_some n k (j ∷ rest) c old) ∙ stored) in
      let below = remove (j ∷ rest) c in
      let step = ap (λ x. forward x n k (remove (j ∷ rest))) old ∙ shrunk-ok n k below r.result in
      let same = others_below j rest c below.1 r.others in
      elim (left_cases (length rest) below.1 r.shape.0) [
        | inl (is_empty, e) ↦
            deleted-IsRemoved k (j ∷ rest) n c old b (rw is_empty at step)
              (sym r.shape.1 ∙ ap suc e)
              (λ q len other. sym (same q len other) ∙ empty_below j rest below.1 r.shape.0 e q len)
        | inr (not_empty, left) ↦
            replaced-IsRemoved k (j ∷ rest) n c old b below.1 (rw not_empty at step) r.shape.0 left
              r.shape.1 r.gone same
      ]
]
