-- ===== src/Registry/Query/Enumerate.antt =====
-- `get` against a filter: of all stored paths, those that match the pattern, label by label.
use mathlib.Core.Path.{subst}
use skydns.Shared.{
  ℕ, zero, suc, Text, Bool, false, true, ◌&&◌, ◌||◌, text_eq, text_eq_iff, text_Comparable, List,
  [], ◌∷◌, ◌++◌, append-nil, All, none, length, if◌then◌else◌, ◌≡◌, refl, sym, arith, Bool-cases,
  Option-cases, inl, inr,
}
use skydns.Shared.GoMap
use skydns.Registry.Tree.{Node, leaves, addr, Children}
use skydns.Registry.Tree.Shape.{Inhabited, Balanced, child-Inhabited}
use skydns.Registry.Query.{star}
use skydns.Registry.Query.Spec.{over, under, reached}

-- A stored path, from its last label, and the address that it leads to.
abbrev pub Entry : Type 0
Entry = List Text × ℕ

unfoldable pub extended : Text → List Entry → List Entry
extended k [] = []
extended k ((p, a) ∷ l) = (k ∷ p, a) ∷ extended k l

abbrev pub each_extended : (Node → List Entry) → Children → List Entry
each_extended f [] = []
each_extended f ((k, c) ∷ ls) = extended k (f c) ++ each_extended f ls

-- All that is stored `d` levels below a node.
unfoldable pub entries : ℕ → Node → List Entry
unfolding extended
entries zero n = ([], addr n) ∷ []
entries (suc d) n = each_extended (entries d) (leaves n)

-- A pattern matches a path: each label is `*` or the path's own.
unfoldable pub matches : List Text → List Text → Bool
matches [] [] = true
matches (k ∷ p) (j ∷ q) = (text_eq k star || text_eq k j) && matches p q
matches [] (_ ∷ _) = false
matches (_ ∷ _) [] = false

-- The addresses of the entries that match.
unfoldable pub matching : List Text → List Entry → List ℕ
unfolding matches
matching p [] = []
matching p ((q, a) ∷ l) = if matches p q then a ∷ matching p l else matching p l

matching-append :
    (p : List Text) (l m : List Entry) → matching p (l ++ m) ≡ matching p l ++ matching p m
unfolding matching
matching-append p [] m = refl
matching-append p ((q, a) ∷ l) m = ground (arith, matching-append p l m)

matching-extended :
    (k j : Text) (p : List Text) (l : List Entry)
    → matching (k ∷ p) (extended j l) ≡ (if text_eq k star || text_eq k j then matching p l else [])
unfolding matching extended
matching-extended k j p [] = ground arith
matching-extended k j p ((q, a) ∷ l) = ground (arith, matching-extended k j p l)

module _ (f : Node → List Entry) (k : Text) (p : List Text) where
  star-each :
      (ls : Children)
      → text_eq k star ≡ true
      → matching (k ∷ p) (each_extended f ls) ≡ over (λ c. matching p (f c)) ls
  unfolding over
  star-each [] e = unfold matching in refl
  star-each ((j, c) ∷ ls) e = rw (
    matching-append (k ∷ p) (extended j (f c)) (each_extended f ls),
    matching-extended k j p (f c),
    star-each ls e,
    e,
  )

  none-each :
      (ls : Children)
      → text_eq k star ≡ false
      → GoMap.lookup ls k ≡ none
      → matching (k ∷ p) (each_extended f ls) ≡ []
  unfolding GoMap.lookup
  none-each [] e h = unfold matching in refl
  none-each ((j, c) ∷ ls) e h =
      rw
        (
          matching-append (k ∷ p) (extended j (f c)) (each_extended f ls),
          matching-extended k j p (f c),
          e,
        )
        (ground (arith, none-each ls e, text_eq_iff k j, text_eq_iff j k))

  label-each :
      (ls : Children)
      → text_eq k star ≡ false
      → GoMap.Distinct ls
      → matching (k ∷ p) (each_extended f ls) ≡ under (GoMap.lookup ls k) (λ c. matching p (f c))
  unfolding GoMap.lookup
  label-each [] e d = unfold matching in refl
  label-each ((j, c) ∷ ls) e (new, d) =
      rw
        (
          matching-append (k ∷ p) (extended j (f c)) (each_extended f ls),
          matching-extended k j p (f c),
          e,
        )
        (elim (Bool-cases (text_eq j k)) [
          | inr other ↦ ground (arith, label-each ls e d, text_eq_iff k j, text_eq_iff j k)
          | inl same ↦
              let eq = (text_eq_iff j k).0 same in
              let absent = none-each ls e (subst (λ t. GoMap.lookup ls t ≡ none) eq new) in
              rw (same, absent, (text_eq_iff k j).1 (sym eq)) (append-nil (matching p (f c)))
        ])

over-cong :
    (f g : Node → List ℕ) (P : Node → Type 0) (ls : Children)
    → ((c : Node) → P c → f c ≡ g c)
    → All (λ x. P x.1) ls
    → over f ls ≡ over g ls
unfolding over
over-cong f g P [] same all = refl
over-cong f g P ((k, c) ∷ ls) same (h, all) = rw (same c h, over-cong f g P ls same all)

-- In a tree whose paths have the pattern's length, a pattern reaches what it matches.
pub reached-eq-matching :
    (p : List Text) (n : Node)
    → Balanced (length p) n
    → reached p n ≡ matching p (entries (length p) n)
unfolding reached matching entries
reached-eq-matching [] n b = refl
reached-eq-matching (k ∷ rest) n b =
    let d = length rest in
    elim (Bool-cases (text_eq k star)) [
      | inl all ↦
          rw (all, star-each (entries d) k rest (leaves n) all)
            (over-cong (reached rest) (λ c. matching rest (entries d c)) (Inhabited (Balanced d) d)
              (leaves n) (λ c h. reached-eq-matching rest c h.0) b.2)
      | inr one ↦
          rw (one, label-each (entries d) k rest (leaves n) one b.0)
            (elim (Option-cases (GoMap.lookup (leaves n) k)) [
              | inl new ↦ rw new
              | inr (c, old) ↦ rw old (reached-eq-matching rest c (child-Inhabited d n c k b old).0)
            ])
    ]
