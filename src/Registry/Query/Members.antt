-- ===== src/Registry/Query/Members.antt =====
-- Membership in the lists that `get` goes through: the stored paths, those that match, and the
-- services that are listed.
use mathlib.Core.Option
use mathlib.Core.Path.{subst}
use skydns.Shared.{
  ℕ, zero, suc, ℤ, Text, text_Comparable, text_eq, text_eq_iff, Bool, false, true, ltb, List, [],
  ◌∷◌, Option, none, some, length, if◌then◌else◌, In, In-append, In-append_left, In-append_right,
  ◌≡◌, ◌⊎◌, refl, ap, sym, ◌∙◌, arith, Bool-cases, Option-cases, inl, inr,
}
use skydns.Shared.GoMap
use skydns.Msg.{Service, update_ttl}
use skydns.Registry.Tree.{Node, leaves, addr, Cells, Children}
use skydns.Registry.Tree.Find.{find, find-nil, find-cons_none, find-cons_some}
use skydns.Registry.Tree.Shape.{Balanced, child-Inhabited}
use skydns.Registry.Query.{cell, listed}
use skydns.Registry.Query.Results.{refreshed, alive}
use skydns.Registry.Query.Enumerate.{Entry, extended, each_extended, entries, matches, matching}

-- An address matches if some entry with it does.
pub matching_sound :
    (p : List Text) (l : List Entry) (a : ℕ)
    → In a (matching p l)
    → (q : List Text) × In (q, a) l × (matches p q ≡ true)
unfolding matching
matching_sound p [] a m = absurd m
matching_sound p ((q, b) ∷ l) a m = elim (Bool-cases (matches p q)) [
  | inr other ↦ let (q', later, hit) = matching_sound p l a (rw other at m) in (q', inr later, hit)
  | inl hit ↦ elim (first (rw hit at m)) [
    | inl e ↦ (q, inl (ap (λ (x : ℕ). (q, x)) e), hit)
    | inr m' ↦ let (q', later, hit') = matching_sound p l a m' in (q', inr later, hit')
  ]
]
  where
    first : In a (b ∷ matching p l) → (b ≡ a) ⊎ In a (matching p l)
    first x = x

pub matching_complete :
    (p q : List Text) (l : List Entry) (a : ℕ)
    → In (q, a) l
    → matches p q ≡ true
    → In a (matching p l)
unfolding matching
matching_complete p q [] a m hit = absurd m
matching_complete p q ((j, b) ∷ l) a (inl e) hit =
    rw (ap (λ (x : Entry). matches p x.0) e ∙ hit) (inl (ap (λ (x : Entry). x.1) e))
matching_complete p q ((j, b) ∷ l) a (inr m) hit = elim (Bool-cases (matches p j)) [
  | inl too ↦ rw too (inr (matching_complete p q l a m hit))
  | inr other ↦ rw other (matching_complete p q l a m hit)
]

In-extended :
    (k : Text) (q : List Text) (a : ℕ) (l : List Entry)
    → In (q, a) (extended k l)
    → (t : List Text) × (q ≡ k ∷ t) × In (t, a) l
unfolding extended
In-extended k q a [] m = absurd m
In-extended k q a ((t, b) ∷ l) (inl e) =
    (t, sym (ap (λ (x : Entry). x.0) e), inl (ap (λ (x : Entry). (t, x.1)) e))
In-extended k q a ((t, b) ∷ l) (inr m) = let (t', e, m') = In-extended k q a l m in (t', e, inr m')

extended-In :
    (k : Text) (q : List Text) (a : ℕ) (l : List Entry) → In (q, a) l → In (k ∷ q, a) (extended k l)
unfolding extended
extended-In k q a [] m = absurd m
extended-In k q a ((t, b) ∷ l) (inl e) = inl (ap (λ (x : Entry). (k ∷ x.0, x.1)) e)
extended-In k q a ((t, b) ∷ l) (inr m) = inr (extended-In k q a l m)

module _ (f : Node → List Entry) where
  each_sound :
      (ls : Children) (q : List Text) (a : ℕ)
      → GoMap.Distinct ls
      → In (q, a) (each_extended f ls)
      → (k : Text) × (t : List Text) × (c : Node) × (q ≡ k ∷ t)
        × (GoMap.lookup ls k ≡ some c)
        × In (t, a) (f c)
  unfolding GoMap.lookup
  each_sound [] q a d m = absurd m
  each_sound ((k, c) ∷ ls) q a (new, d) m =
      elim (In-append (q, a) (extended k (f c)) (each_extended f ls) m) [
        | inl here ↦
            let (t, e, m') = In-extended k q a (f c) here in
            (k, t, c, e, rw ((text_eq_iff k k).1 refl), m')
        | inr later ↦
            let (j, t, u, e, old, m') = each_sound ls q a d later in
            (j, t, u, e, ground (arith, text_eq_iff k j), m')
      ]

  each_complete :
      (ls : Children) (k : Text) (q : List Text) (a : ℕ) (c : Node)
      → GoMap.lookup ls k ≡ some c
      → In (q, a) (f c)
      → In (k ∷ q, a) (each_extended f ls)
  unfolding GoMap.lookup
  each_complete [] k q a c old m = cc
  each_complete ((j, u) ∷ ls) k q a c old m = elim (Bool-cases (text_eq j k)) [
    | inl same ↦
        let eq : u ≡ c = ground arith in
        In-append_left (k ∷ q, a) (extended j (f u)) (each_extended f ls)
          (subst (λ i. In (k ∷ q, a) (extended i (f u))) (sym ((text_eq_iff j k).0 same))
            (extended-In k q a (f u) (subst (λ x. In (q, a) (f x)) (sym eq) m)))
    | inr other ↦
        In-append_right (k ∷ q, a) (extended j (f u)) (each_extended f ls)
          (each_complete ls k q a c (ground arith) m)
  ]

-- The entries are the paths that `find` knows.
pub entries_sound :
    (d : ℕ) (n : Node) (q : List Text) (a : ℕ)
    → Balanced d n
    → In (q, a) (entries d n)
    → (length q ≡ d) × (find q n ≡ some a)
unfolding entries
entries_sound zero n q a b (inl e) =
    let nil : [] ≡ q = ap (λ (x : Entry). x.0) e in
    let same : addr n ≡ a = ap (λ (x : Entry). x.1) e in
    (rw (← nil), subst (λ t. find t n ≡ some a) nil (find-nil n ∙ ap some same))
entries_sound zero n q a b (inr m) = absurd m
entries_sound (suc d) n q a b m =
    let (k, t, c, e, old, m') = each_sound (entries d) (leaves n) q a b.0 m in
    let (len, found) = entries_sound d c t a (child-Inhabited d n c k b old).0 m' in
    (rw e (ap suc len), rw e (find-cons_some n k t c old ∙ found))

pub entries_complete :
    (d : ℕ) (n : Node) (q : List Text) (a : ℕ)
    → length q ≡ d
    → find q n ≡ some a
    → In (q, a) (entries d n)
unfolding entries
entries_complete zero n [] a len e =
    let same : addr n ≡ a = cc (find-nil n) in inl (ap (λ (x : ℕ). ([], x)) same)
entries_complete zero n (k ∷ q) a len e = absurd (omega arith)
entries_complete (suc d) n [] a len e = absurd (omega arith)
entries_complete (suc d) n (k ∷ q) a len e = elim (Option-cases (GoMap.lookup (leaves n) k)) [
  | inl new ↦ absurd (cc (find-cons_none n k q new))
  | inr (c, old) ↦
      each_complete (entries d) (leaves n) k q a c old
        (entries_complete d c q a (omega arith) (sym (find-cons_some n k q c old) ∙ e))
]

listed_sound :
    (o : Option Service) (t : Service) → In t (listed o) → (o ≡ some t) × (ltb 1 t.ttl ≡ true)
listed_sound none t m = absurd m
listed_sound (some s) t m = split_if (ltb 1 s.ttl) refl m
  where
    split_if :
        (b : Bool)
        → ltb 1 s.ttl ≡ b
        → In t (if b then s ∷ [] else [])
        → (some s ≡ some t) × (ltb 1 t.ttl ≡ true)
    split_if true e (inl same) = (ap some same, subst (λ (x : Service). ltb 1 x.ttl ≡ true) same e)
    split_if true e (inr none_left) = absurd none_left
    split_if false e none_left = absurd none_left

pub listed_complete : (t : Service) → ltb 1 t.ttl ≡ true → In t (listed (some t))
listed_complete t e = rw e (inl refl)

map-some :
    (f : Service → Service) (o : Option Service) (t : Service)
    → Option.map f o ≡ some t
    → (s : Service) × (o ≡ some s) × (t ≡ f s)
map-some f none t e = cc
map-some f (some s) t e = (s, refl, cc)

-- What is listed: the refreshed services with a TTL above 1.
module _ (seconds : ℤ → ℕ) (now : ℕ) (h : Cells) where
  pub alive_sound :
      (xs : List ℕ) (t : Service)
      → In t (alive seconds now h xs)
      → (a : ℕ) × In a xs × (refreshed seconds now h a ≡ some t) × (ltb 1 t.ttl ≡ true)
  alive_sound [] t m = absurd m
  alive_sound (a ∷ xs) t m =
      elim (In-append t (listed (refreshed seconds now h a)) (alive seconds now h xs) m) [
        | inr later ↦ let (b, i, e, left) = alive_sound xs t later in (b, inr i, e, left)
        | inl here ↦
            let (e, left) = listed_sound (refreshed seconds now h a) t here in
            (a, inl refl, e, left)
      ]

  pub alive_complete :
      (xs : List ℕ) (a : ℕ) (t : Service)
      → In a xs
      → refreshed seconds now h a ≡ some t
      → ltb 1 t.ttl ≡ true
      → In t (alive seconds now h xs)
  alive_complete [] a t m e left = absurd m
  alive_complete (b ∷ xs) a t (inl same) e left =
      In-append_left t (listed (refreshed seconds now h b)) (alive seconds now h xs)
        (rw (same, e) (listed_complete t left))
  alive_complete (b ∷ xs) a t (inr m) e left =
      In-append_right t (listed (refreshed seconds now h b)) (alive seconds now h xs)
        (alive_complete xs a t m e left)

  pub refreshed_of :
      (a : ℕ) (t : Service)
      → refreshed seconds now h a ≡ some t
      → (s : Service) × (cell h a ≡ some s) × (t ≡ update_ttl seconds now s)
  refreshed_of a t e = map-some (update_ttl seconds now) (cell h a) t e
