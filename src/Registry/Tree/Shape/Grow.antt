-- ===== src/Registry/Tree/Shape/Grow.antt =====
-- `add` keeps the shape and adds one service.
use skydns.Shared.{
  ℕ, suc, pos, incr, Text, List, [], ◌∷◌, ◌++◌, none, length, text_Comparable, ◌≡◌, refl, ap, sym,
  ◌∙◌, arith, Option-cases, inl, inr,
}
use skydns.Shared.GoMap
use skydns.Msg.{Service}
use skydns.Registry.Tree.{
  Node, leaves, size, depth, with_leaves, new_node, Cells, add, child_or_new,
}
use skydns.Registry.Tree.Find.{find, find-cons_some, find-nil}
use skydns.Registry.Tree.Add.{add-IsAdded, grown-ok, find-child_or_new}
use skydns.Registry.Tree.Shape.{
  count, Inhabited, Balanced, new_node-Balanced, count_of, count-with_leaves, count-eq-sum_by,
  with_leaves-Balanced, child-Inhabited,
}

abbrev pub Grown : ℕ → Node → Node → Type 0
Grown d n n' = Balanced d n' × (count d n' ≡ suc (count d n))

sum_by-insert :
    (d : ℕ) (ls : List (Text × Node)) (k : Text) (c : Node)
    → count d c ≡ suc (count_of d (GoMap.lookup ls k))
    → GoMap.sum_by (count d) (GoMap.insert ls k c) ≡ suc (GoMap.sum_by (count d) ls)
sum_by-insert d ls k c e = elim (Option-cases (GoMap.lookup ls k)) [
  | inl new ↦ omega (arith, GoMap.sum_by-insert_new (count d) ls k c new, rw new at e)
  | inr (u, old) ↦ omega (arith, GoMap.sum_by-insert_old (count d) ls k u c old, rw old at e)
]

-- One child more, or a child with one service more.
insert-Grown :
    (d : ℕ) (n : Node) (k : Text) (c : Node)
    → Balanced (suc d) n
    → Balanced d c
    → count d c ≡ suc (count_of d (GoMap.lookup (leaves n) k))
    → Grown (suc d) n (with_leaves n (GoMap.insert (leaves n) k c) (incr (size n)))
insert-Grown d n k c (distinct, sized, all) b e =
    let ls = GoMap.insert (leaves n) k c in
    let more = sum_by-insert d (leaves n) k c e in
    (
      with_leaves-Balanced d n ls (incr (size n)) (GoMap.insert-Distinct (leaves n) k c distinct)
          (ap incr sized ∙ ap pos (ap suc (count-eq-sum_by d n) ∙ sym more))
          (GoMap.All-insert (Inhabited (Balanced d) d) (leaves n) k c all (b, omega arith)),
      count-with_leaves d n ls (incr (size n)) ∙ more ∙ ap suc (sym (count-eq-sum_by d n)),
    )

-- The child that `add` goes down to is balanced, and a new one is empty.
child_or_new-Balanced :
    (d : ℕ) (n : Node) (k : Text) (e : ℕ) (h : Cells)
    → Balanced (suc (suc d)) n
    → Balanced (suc d) (child_or_new (GoMap.lookup (leaves n) k) e h).0
      × (count (suc d) (child_or_new (GoMap.lookup (leaves n) k) e h).0
          ≡ count_of (suc d) (GoMap.lookup (leaves n) k))
unfolding count
child_or_new-Balanced d n k e h b = elim (Option-cases (GoMap.lookup (leaves n) k)) [
  | inl new ↦ rw new (new_node-Balanced (suc d) e h, refl)
  | inr (c, old) ↦ rw old ((child-Inhabited (suc d) n c k b old).0, refl)
]

pub add-Grown :
    (k : Text) (rest : List Text) (n : Node) (s : Service) (h : Cells)
    → Balanced (length (k ∷ rest)) n
    → find (k ∷ rest) n ≡ none
    → Grown (length (k ∷ rest)) n (add (k ∷ rest) n s h).1
unfolding add
add-Grown k [] n s h b free = elim (Option-cases (GoMap.lookup (leaves n) k)) [
  | inr (c, old) ↦ absurd (cc (find-cons_some n k [] c old, find-nil c))
  | inl new ↦
      let c = new_node (suc (depth n)) h in
      rw new (
        insert-Grown 0 n k c b (new_node-Balanced 0 (suc (depth n)) h)
          (rw new (unfold count in refl)))
]
add-Grown k (j ∷ rest) n s h b free =
    let (c, h1) = child_or_new (GoMap.lookup (leaves n) k) (suc (depth n)) h in
    let (balanced, counted) = child_or_new-Balanced (length rest) n k (suc (depth n)) h b in
    let free' = find-child_or_new n k j rest (suc (depth n)) h ∙ free in
    let below = add (j ∷ rest) c s h1 in
    let a = add-IsAdded j rest c s h1 free' in
    let (balanced', counted') = add-Grown j rest c s h1 balanced free' in
    rw (grown-ok n k below (length (h1 ++ a.inner)) a.result)
      (insert-Grown (length (j ∷ rest)) n k below.1 b balanced' (counted' ∙ ap suc counted))
