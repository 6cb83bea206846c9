-- ===== src/Registry/Query/Spec.antt =====
-- `get` as a walk: it visits the nodes that the pattern reaches, in order, and fails exactly when
-- there is none.
use skydns.Shared.{
  ℕ, ℤ, Text, Bool, false, true, text_eq, text_Comparable, List, [], ◌∷◌, ◌++◌, append-nil,
  append_assoc, Option, none, some, if◌then◌else◌, ◌≡◌, refl, ap, sym, Bool-cases, inl, inr,
}
use skydns.Shared.GoMap
use skydns.Msg.{Service}
use skydns.Registry.Tree.{not_exists, ok, err, Node, leaves, addr, Cells, Children}
use skydns.Registry.Query.{
  star, Found, collect, get_each, found_any, descend, star_at_bottom, visit, visit_each, visit_one,
  get,
}

module _ {ℓ} {A : Type ℓ} where
  -- A function with a list of results at every child.
  unfoldable pub over : (Node → List A) → Children → List A
  over f [] = []
  over f ((k, c) ∷ ls) = f c ++ over f ls

  abbrev pub under : Option Node → (Node → List A) → List A
  under none f = []
  under (some c) f = f c

-- The addresses of the nodes that a pattern reaches.
unfoldable pub reached : List Text → Node → List ℕ
unfolding over
reached [] n = addr n ∷ []
reached (k ∷ rest) n =
    let each = over (reached rest) (leaves n) in
    let one = under (GoMap.lookup (leaves n) k) (reached rest) in
    if text_eq k star then each else one

abbrev pub outcome : List ℕ → List Service × Cells → Found
outcome [] (services, h) = (err not_exists, h)
outcome (_ ∷ _) (services, h) = (ok services, h)

abbrev inhabited : List ℕ → Bool
inhabited [] = false
inhabited (_ ∷ _) = true

module _ (seconds : ℤ → ℕ) (now : ℕ) where
  -- Visits in a row.
  unfoldable pub visits : List ℕ → Cells → List Service × Cells
  visits [] h = ([], h)
  visits (a ∷ xs) h =
      let (found, h1) = visit seconds now a h in
      let (more, h2) = visits xs h1 in (found ++ more, h2)

  visits-append :
      (xs ys : List ℕ) (h : Cells)
      → visits (xs ++ ys) h
        ≡ ((visits xs h).0 ++ (visits ys (visits xs h).1).0, (visits ys (visits xs h).1).1)
  unfolding visits
  visits-append [] ys h = refl
  visits-append (a ∷ xs) ys h =
      let (found, h1) = visit seconds now a h in rw (visits-append xs ys h1, append_assoc)

  visit_each_lem :
      (ls : Children) (h : Cells) → visit_each seconds now ls h ≡ visits (over (reached []) ls) h
  unfolding visit_each visits over reached
  visit_each_lem [] h = refl
  visit_each_lem ((k, s) ∷ ls) h =
      let (found, h1) = visit seconds now (addr s) h in rw (visit_each_lem ls h1)

  bottom_lem :
      (ls : Children) (h : Cells)
      → star_at_bottom ls (visit_each seconds now ls h) h
        ≡ outcome (over (reached []) ls) (visits (over (reached []) ls) h)
  unfolding over reached visits
  bottom_lem [] h = refl
  bottom_lem (x ∷ ls) h = rw (visit_each_lem (x ∷ ls) h)

  one_lem :
      (o : Option Node) (h : Cells)
      → visit_one seconds now o h ≡ outcome (under o (reached [])) (visits (under o (reached [])) h)
  unfolding visit_one visits reached
  one_lem none h = refl
  one_lem (some s) h = rw append-nil

  module _ (below : Node → Cells → Found) (rs : Node → List ℕ)
      (agree : (c : Node) (h : Cells) → below c h ≡ outcome (rs c) (visits (rs c) h)) where
    each_step :
        (xs ys : List ℕ) (h : Cells) (rest : (List Service × Bool) × Cells)
        → rest ≡ (((visits ys (visits xs h).1).0, inhabited ys), (visits ys (visits xs h).1).1)
        → ◌≡◌ {A = (List Service × Bool) × Cells}
            (collect (outcome xs (visits xs h)).0 rest.0, rest.1)
            (((visits (xs ++ ys) h).0, inhabited (xs ++ ys)), (visits (xs ++ ys) h).1)
    each_step [] ys h rest e = unfold visits in rw e
    each_step (x ∷ xs) ys h rest e =
        rw e (
          ap (λ (v : List Service × Cells). ((v.0, true), v.1)) (sym (visits-append (x ∷ xs) ys h)))

    heap_lem : (xs : List ℕ) (h : Cells) → (outcome xs (visits xs h)).1 ≡ (visits xs h).1
    heap_lem [] h = refl
    heap_lem (x ∷ xs) h = refl

    each_lem :
        (ls : Children) (h : Cells)
        → get_each below ls h
          ≡ (((visits (over rs ls) h).0, inhabited (over rs ls)), (visits (over rs ls) h).1)
    unfolding get_each over
    each_lem [] h = unfold visits in refl
    each_lem ((k, c) ∷ ls) h =
        rw (agree c h, heap_lem (rs c) h)
          (each_step (rs c) (over rs ls) h (get_each below ls (visits (rs c) h).1)
            (each_lem ls (visits (rs c) h).1))

    found_any_lem :
        (xs : List ℕ) (h : Cells)
        → found_any (((visits xs h).0, inhabited xs), (visits xs h).1) ≡ outcome xs (visits xs h)
    found_any_lem [] h = refl
    found_any_lem (x ∷ xs) h = refl

    descend_lem :
        (o : Option Node) (h : Cells)
        → descend o below h ≡ outcome (under o rs) (visits (under o rs) h)
    descend_lem none h = unfold visits in refl
    descend_lem (some c) h = agree c h

  -- `get` visits what the pattern reaches, and fails when that is nothing.
  pub get_lem :
      (k : Text) (rest : List Text) (n : Node) (h : Cells)
      → get seconds now (k ∷ rest) n h
        ≡ outcome (reached (k ∷ rest) n) (visits (reached (k ∷ rest) n) h)
  unfolding get reached
  get_lem k [] n h = elim (Bool-cases (text_eq k star)) [
    | inl all ↦ rw all (bottom_lem (leaves n) h)
    | inr one ↦ rw one (one_lem (GoMap.lookup (leaves n) k) h)
  ]
  get_lem k (j ∷ rest) n h =
      let below = get seconds now (j ∷ rest) in
      let rs = reached (j ∷ rest) in
      elim (Bool-cases (text_eq k star)) [
        | inl all ↦
            rw (all, each_lem below rs (get_lem j rest) (leaves n) h)
              (found_any_lem below rs (get_lem j rest) (over rs (leaves n)) h)
        | inr one ↦ rw one (descend_lem below rs (get_lem j rest) (GoMap.lookup (leaves n) k) h)
      ]
