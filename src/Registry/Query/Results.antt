-- ===== src/Registry/Query/Results.antt =====
-- What `get` returns and what it does to the cells.
use mathlib.Core.Option
use skydns.Shared.{
  ℕ, ℤ, Text, Bool, false, ◌||◌, nat_eq, nat_eq_iff, List, [], ◌∷◌, ◌++◌, Option, none, some,
  length, get_elem?-set_self, get_elem?-set_ne, lt-length_of_get_elem?, if◌then◌else◌, ◌≡◌, refl,
  ap, Bool-cases, Option-cases, inl, inr,
}
use skydns.Msg.{Service, update_ttl}
use skydns.Msg.Ttl.{update_ttl_idem}
use skydns.Registry.Tree.{Node, Cells, ok}
use skydns.Registry.Tree.Shape.{Balanced}
use skydns.Registry.Query.{cell, write, listed, visit, get}
use skydns.Registry.Query.Spec.{outcome, visits, get_lem}
use skydns.Registry.Query.Enumerate.{entries, matching, reached-eq-matching}

abbrev pub member : List ℕ → ℕ → Bool
member [] b = false
member (a ∷ xs) b = nat_eq a b || member xs b

module _ (seconds : ℤ → ℕ) (now : ℕ) where
  -- A cell with its TTL brought up to date.
  abbrev pub refreshed : Cells → ℕ → Option Service
  refreshed h a = Option.map (update_ttl seconds now) (cell h a)

  -- The services at the addresses that have a TTL above 1.
  abbrev pub alive : Cells → List ℕ → List Service
  alive h [] = []
  alive h (a ∷ xs) = listed (refreshed h a) ++ alive h xs

  write_lem :
      (h : Cells) (a b : ℕ)
      → cell (write (update_ttl seconds now) (cell h a) h a) b
        ≡ (if nat_eq a b then refreshed h b else cell h b)
  write_lem h a b = elim (Option-cases (cell h a)) [
    | inl out ↦ elim (Bool-cases (nat_eq a b)) [
      | inl same ↦ rw (out, same, ← (nat_eq_iff a b).0 same, out)
      | inr other ↦ rw (out, other)
    ]
    | inr (s, at) ↦ elim (Bool-cases (nat_eq a b)) [
      | inl same ↦ rw (
        at,
        same,
        ← (nat_eq_iff a b).0 same,
        get_elem?-set_self h a (update_ttl seconds now s) (lt-length_of_get_elem? h a s at),
        at,
      )
      | inr other ↦
          rw (at, other)
            (get_elem?-set_ne h a b (update_ttl seconds now s) (λ e. cc ((nat_eq_iff a b).1 e)))
    ]
  ]

  refreshed-write :
      (h : Cells) (a b : ℕ)
      → refreshed (write (update_ttl seconds now) (cell h a) h a) b ≡ refreshed h b
  refreshed-write h a b = rw (write_lem h a b) (elim (Bool-cases (nat_eq a b)) [
    | inr other ↦ rw other
    | inl same ↦ rw same (twice (cell h b))
  ])
    where
      twice :
          (o : Option Service)
          → Option.map (update_ttl seconds now) (Option.map (update_ttl seconds now) o)
            ≡ Option.map (update_ttl seconds now) o
      twice none = refl
      twice (some s) = ap some (update_ttl_idem seconds now s)

  alive-write :
      (h : Cells) (a : ℕ) (xs : List ℕ)
      → alive (write (update_ttl seconds now) (cell h a) h a) xs ≡ alive h xs
  alive-write h a [] = refl
  alive-write h a (b ∷ xs) = rw (refreshed-write h a b, alive-write h a xs)

  pub visits_found : (xs : List ℕ) (h : Cells) → (visits seconds now xs h).0 ≡ alive h xs
  unfolding visits visit
  visits_found [] h = refl
  visits_found (a ∷ xs) h =
      let h1 = write (update_ttl seconds now) (cell h a) h a in
      rw (visits_found xs h1, alive-write h a xs, write_lem h a a, (nat_eq_iff a a).1 refl)

  pub visits_cells :
      (xs : List ℕ) (h : Cells) (b : ℕ)
      → cell (visits seconds now xs h).1 b ≡ (if member xs b then refreshed h b else cell h b)
  unfolding visits visit
  visits_cells [] h b = refl
  visits_cells (a ∷ xs) h b =
      let h1 = write (update_ttl seconds now) (cell h a) h a in
      rw (visits_cells xs h1 b, refreshed-write h a b, write_lem h a b)
        (elim (Bool-cases (nat_eq a b)) [
          | inl same ↦ elim (Bool-cases (member xs b)) [
            | inl later ↦ rw (same, later)
            | inr once ↦ rw (same, once)
          ]
          | inr other ↦ rw other
        ])

  -- In a tree whose paths have the pattern's length, `get` fails if no stored path matches the
  -- pattern; otherwise it returns the matching services with a TTL above 1.
  pub get_result :
      (k : Text) (rest : List Text) (n : Node) (h : Cells)
      → Balanced (length (k ∷ rest)) n
      → let xs = matching (k ∷ rest) (entries (length (k ∷ rest)) n) in
        (get seconds now (k ∷ rest) n h).0 ≡ (outcome xs (alive h xs, h)).0
  get_result k rest n h b =
      rw (get_lem seconds now k rest n h, reached-eq-matching (k ∷ rest) n b)
        (results (matching (k ∷ rest) (entries (length (k ∷ rest)) n)))
    where
      results :
          (xs : List ℕ) → (outcome xs (visits seconds now xs h)).0 ≡ (outcome xs (alive h xs, h)).0
      results [] = refl
      results (x ∷ xs) = ap ok (visits_found (x ∷ xs) h)

  -- `get` brings the TTL of the matching services up to date and changes nothing else.
  pub get_cells :
      (k : Text) (rest : List Text) (n : Node) (h : Cells) (b : ℕ)
      → Balanced (length (k ∷ rest)) n
      → let xs = matching (k ∷ rest) (entries (length (k ∷ rest)) n) in
        cell (get seconds now (k ∷ rest) n h).1 b
        ≡ (if member xs b then refreshed h b else cell h b)
  get_cells k rest n h b balanced =
      rw (get_lem seconds now k rest n h, reached-eq-matching (k ∷ rest) n balanced)
        (cells (matching (k ∷ rest) (entries (length (k ∷ rest)) n)))
    where
      cells :
          (xs : List ℕ)
          → cell (outcome xs (visits seconds now xs h)).1 b
            ≡ (if member xs b then refreshed h b else cell h b)
      cells [] = unfold visits in refl
      cells (x ∷ xs) = visits_cells (x ∷ xs) h b
