-- ===== src/Registry/Tree/Add.antt =====
-- What `add` does to the paths of the tree and to the cells.
use skydns.Shared.{
  ℕ, suc, incr, Text, List, [], ◌∷◌, ◌++◌, append_assoc, append-nil, none, some, length,
  text_Comparable, text_eq, text_eq_iff, ◌≡◌, ◌≢◌, refl, ap, sym, ◌∙◌, ◌⊎◌, arith, inl, inr,
  Option-cases, Bool-cases,
}
use skydns.Shared.GoMap
use skydns.Msg.{Service, zero_service}
use skydns.Registry.Tree.{
  Error, exists, Result, ok, err, Node, leaves, size, depth, Cells, with_leaves, new_node, grown,
  child_or_new, add, with_leaves_same,
}
use skydns.Registry.Tree.Find.{
  find, find-nil, find-cons_none, find-cons_some, find-with_leaves_self, find-with_leaves_ne,
  find-new_node,
}

abbrev pub Outcome : Type 0
Outcome = Result ℕ × Node × Cells

pub grown-ok :
    (n : Node) (k : Text) (x : Outcome) (r : ℕ)
    → x.0 ≡ ok r
    → grown n k x ≡ (ok r, with_leaves n (GoMap.insert (leaves n) k x.1) (incr (size n)), x.2)
grown-ok n k (ok q, c, h) r e = ground arith
grown-ok n k (err q, c, h) r e = cc

pub grown-err :
    (n : Node) (k : Text) (x : Outcome) (q : Error)
    → x.0 ≡ err q
    → grown n k x ≡ (err q, with_leaves n (GoMap.insert (leaves n) k x.1) (size n), x.2)
grown-err n k (ok r, c, h) q e = cc
grown-err n k (err r, c, h) q e = ground arith

-- A successful `add`: cells for new inner nodes, then one for the service, at which the path leads
-- to the new node.
pub record IsAdded (p : List Text) (n : Node) (s : Service) (h : Cells) : Type 0 where
  pub inner : Cells
  pub result : (add p n s h).0 ≡ ok (length (h ++ inner))
  pub cells : (add p n s h).2 ≡ (h ++ inner) ++ s ∷ []
  pub found : find p (add p n s h).1 ≡ some (length (h ++ inner))

grown-IsAdded :
    (k j : Text) (rest : List Text) (n c : Node) (s : Service) (h h1 new : Cells)
    → add (k ∷ j ∷ rest) n s h ≡ grown n k (add (j ∷ rest) c s h1)
    → h1 ≡ h ++ new
    → IsAdded (j ∷ rest) c s h1
    → IsAdded (k ∷ j ∷ rest) n s h
grown-IsAdded k j rest n c s h h1 new e fits a =
    let below = add (j ∷ rest) c s h1 in
    let same : h1 ++ a.inner ≡ h ++ (new ++ a.inner) = rw fits (append_assoc h new a.inner) in
    let step = e ∙ grown-ok n k below (length (h1 ++ a.inner)) a.result in
    record {
      inner = new ++ a.inner;
      result = rw (step, ← same);
      cells = rw (step, ← same) a.cells;
      found =
          rw (step, ← same)
            (find-with_leaves_self n k (j ∷ rest) below.1 (incr (size n)) ∙ a.found);
    }

-- A path that leads to no node is added.
pub add-IsAdded :
    (k : Text) (rest : List Text) (n : Node) (s : Service) (h : Cells)
    → find (k ∷ rest) n ≡ none
    → IsAdded (k ∷ rest) n s h
unfolding add
add-IsAdded k [] n s h free = elim (Option-cases (GoMap.lookup (leaves n) k)) [
  | inr (c, old) ↦ absurd (cc (find-cons_some n k [] c old, find-nil c))
  | inl new ↦ record {
    inner = [];
    result = rw (new, append-nil);
    cells = rw (new, append-nil);
    found =
        rw (new, append-nil)
          (find-with_leaves_self n k [] (new_node (suc (depth n)) h) (incr (size n))
            ∙ find-nil (new_node (suc (depth n)) h));
  }
]
add-IsAdded k (j ∷ rest) n s h free = elim (Option-cases (GoMap.lookup (leaves n) k)) [
  | inl new ↦
      let h1 = h ++ zero_service ∷ [] in
      let c = new_node (suc (depth n)) h in
      grown-IsAdded k j rest n c s h h1 (zero_service ∷ []) (rw new) refl
        (add-IsAdded j rest c s h1 (find-new_node (suc (depth n)) h j rest))
  | inr (c, old) ↦
      grown-IsAdded k j rest n c s h h [] (rw old) (sym (append-nil h))
        (add-IsAdded j rest c s h (sym (find-cons_some n k (j ∷ rest) c old) ∙ free))
]

-- A path that leads to a node is refused, and nothing changes.
pub add_exists :
    (k : Text) (rest : List Text) (n : Node) (s : Service) (h : Cells) (a : ℕ)
    → find (k ∷ rest) n ≡ some a
    → add (k ∷ rest) n s h ≡ (err exists, n, h)
unfolding add
add_exists k [] n s h a taken = elim (Option-cases (GoMap.lookup (leaves n) k)) [
  | inr (c, old) ↦ rw old
  | inl new ↦ absurd (cc (find-cons_none n k [] new))
]
add_exists k (j ∷ rest) n s h a taken = elim (Option-cases (GoMap.lookup (leaves n) k)) [
  | inl new ↦ absurd (cc (find-cons_none n k (j ∷ rest) new))
  | inr (c, old) ↦
      let below = add_exists j rest c s h a (sym (find-cons_some n k (j ∷ rest) c old) ∙ taken) in
      rw (old, below)
        (rw (GoMap.insert_same (leaves n) k c old)
          (ap (λ (m : Node). (err exists, m, h)) (with_leaves_same n)))
]

find-grown_self :
    (n : Node) (k : Text) (q : List Text) (x : Outcome) → find (k ∷ q) (grown n k x).1 ≡ find q x.1
find-grown_self n k q (ok r, c, h) = find-with_leaves_self n k q c (incr (size n))
find-grown_self n k q (err e, c, h) = find-with_leaves_self n k q c (size n)

find-grown_ne :
    (n : Node) (k j : Text) (q : List Text) (x : Outcome)
    → k ≢ j
    → find (j ∷ q) (grown n k x).1 ≡ find (j ∷ q) n
find-grown_ne n k j q (ok r, c, h) = find-with_leaves_ne n k j q c (incr (size n))
find-grown_ne n k j q (err e, c, h) = find-with_leaves_ne n k j q c (size n)

-- The child that `add` goes down to has the paths that the node had below it.
pub find-child_or_new :
    (n : Node) (k i : Text) (q : List Text) (d : ℕ) (h : Cells)
    → find (i ∷ q) (child_or_new (GoMap.lookup (leaves n) k) d h).0 ≡ find (k ∷ i ∷ q) n
find-child_or_new n k i q d h = elim (Option-cases (GoMap.lookup (leaves n) k)) [
  | inl new ↦ rw new (find-new_node d h i q ∙ sym (find-cons_none n k (i ∷ q) new))
  | inr (c, old) ↦ rw old (sym (find-cons_some n k (i ∷ q) c old))
]

pub text_cases : (k j : Text) → (k ≡ j) ⊎ (k ≢ j)
text_cases k j = elim (Bool-cases (text_eq k j)) [
  | inl same ↦ inl ((text_eq_iff k j).0 same)
  | inr other ↦ inr (λ e. cc ((text_eq_iff k j).1 e))
]

-- Other paths of the same length lead where they led.
pub find-add_ne :
    (k j : Text) (p q : List Text) (n : Node) (s : Service) (h : Cells)
    → length p ≡ length q
    → k ∷ p ≢ j ∷ q
    → find (j ∷ q) (add (k ∷ p) n s h).1 ≡ find (j ∷ q) n
unfolding add
find-add_ne k j [] [] n s h same other =
    let apart : k ≢ j = λ e. other (ap (λ (t : Text). t ∷ []) e) in
    elim (Option-cases (GoMap.lookup (leaves n) k)) [
      | inl new ↦
          rw new (find-with_leaves_ne n k j [] (new_node (suc (depth n)) h) (incr (size n)) apart)
      | inr (c, old) ↦ rw old
    ]
find-add_ne k j (i ∷ p) (o ∷ q) n s h same other =
    let (c, h1) = child_or_new (GoMap.lookup (leaves n) k) (suc (depth n)) h in
    let below = add (i ∷ p) c s h1 in
    elim (text_cases k j) [
      | inr apart ↦ find-grown_ne n k j (o ∷ q) below apart
      | inl e ↦ rw (← e) (
          find-grown_self n k (o ∷ q) below
          ∙ find-add_ne i o p q c s h1 (omega arith) (λ t. other (cc))
          ∙ find-child_or_new n k o q (suc (depth n)) h)
    ]
find-add_ne k j [] (o ∷ q) n s h same other = absurd (omega arith)
find-add_ne k j (i ∷ p) [] n s h same other = absurd (omega arith)
