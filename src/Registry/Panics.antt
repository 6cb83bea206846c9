-- ===== src/Registry/Panics.antt =====
-- The registry does not panic: `Get` never does, and `GetUUID` does not in a consistent registry.
use skydns.Shared.{
  ℕ, ℤ, zero, suc, ltb→lt, to_lower, trim_suffix, dot, ◌-◌, ◌<◌, ◌++◌, Text, text_eq,
  text_Comparable, ltb, Bool, true, false, List, [], ◌∷◌, Option, none, some, reverse, length,
  length-reverse, length-append, replicate, if◌then◌else◌, leb, ◌≡◌, ◌≢◌, refl, sym, ◌∙◌, ap, arith,
  Bool-cases, inl, inr,
}
use skydns.Shared.GoMap
use skydns.Msg.{Service, remaining_ttl}
use skydns.Registry.Tree.{not_exists, panic, Result, ok, err, Node, leaves, Cells, Children}
use skydns.Registry.Query.{star, Found, found_any, descend, star_at_bottom, visit_one}
use skydns.Registry.Query
use skydns.Registry.{Registry, pattern_of, get, get_uuid}
use skydns.Registry.Consistency.{IsConsistent}
use skydns.Registry.View.{get_uuid-view}

ok-panic {ℓ} : {A : Type ℓ} {x : A} → ok x ≢ err panic
ok-panic e = cc

not_exists-panic {ℓ} : {A : Type ℓ} → ◌≢◌ {A = Result A} (err not_exists) (err panic)
not_exists-panic e = cc

found_any-panic : (x : (List Service × Bool) × Cells) → (found_any x).0 ≢ err panic
found_any-panic ((services, true), h) e = ok-panic e
found_any-panic ((services, false), h) e = not_exists-panic e

star_at_bottom-panic :
    (ls : Children) (x : List Service × Cells) (h : Cells) → (star_at_bottom ls x h).0 ≢ err panic
star_at_bottom-panic [] x h e = not_exists-panic e
star_at_bottom-panic (l ∷ ls) x h e = ok-panic e

module _ (seconds : ℤ → ℕ) (now : ℕ) where
  visit_one-panic : (o : Option Node) (h : Cells) → (visit_one seconds now o h).0 ≢ err panic
  unfolding visit_one
  visit_one-panic none h e = not_exists-panic e
  visit_one-panic (some n) h e = ok-panic e

  query-panic :
      (k : Text) (rest : List Text) (n : Node) (h : Cells)
      → (Query.get seconds now (k ∷ rest) n h).0 ≢ err panic
  unfolding Query.get
  query-panic k [] n h = elim (Bool-cases (text_eq k star)) [
    | inl all ↦ rw all (star_at_bottom-panic (leaves n) _ h)
    | inr one ↦ rw one (visit_one-panic (GoMap.lookup (leaves n) k) h)
  ]
  query-panic k (j ∷ rest) n h = elim (Bool-cases (text_eq k star)) [
    | inl all ↦ rw (Query.get, all) (found_any-panic _)
    | inr one ↦
        rw (Query.get, one) (below (λ c. query-panic j rest c h) (GoMap.lookup (leaves n) k))
  ]
    where
      below :
          ((c : Node) → (Query.get seconds now (j ∷ rest) c h).0 ≢ err panic)
          → (o : Option Node) → (descend o (Query.get seconds now (j ∷ rest)) h).0 ≢ err panic
      below rec none e = not_exists-panic e
      below rec (some c) e = rec c e

  pattern-panic :
      (p : List Text) (n : Node) (h : Cells)
      → 0 < length p
      → (Query.get seconds now p n h).0 ≢ err panic
  pattern-panic [] n h some_label = absurd (omega arith)
  pattern-panic (k ∷ p) n h some_label = query-panic k p n h

  length-replicate {ℓ} : {A : Type ℓ} (n : ℕ) (x : A) → length (replicate n x) ≡ n
  length-replicate zero x = refl
  length-replicate (suc n) x = ap suc (length-replicate n x)

  filled_up :
      (tree : List Text)
      → 0 < length (if ltb (length tree) 6 then replicate (6 - length tree) star ++ tree else tree)
  filled_up tree = elim (Bool-cases (ltb (length tree) 6)) [
    | inl few ↦ rw few (
        omega (
          arith,
          ltb→lt (length tree) 6 few,
          length-append (replicate (6 - length tree) star) tree,
          length-replicate (6 - length tree) star,
        ))
    | inr many ↦ rw many (ground arith)
  ]

  some_label :
      (split_domain_name : Text → List Text) (domain : Text)
      → 0 < length (pattern_of split_domain_name domain)
  unfolding pattern_of
  some_label split_domain_name domain =
      filled_up (split_domain_name (trim_suffix (to_lower domain) (dot ∷ [])))

  pub get-panic :
      (split_domain_name : Text → List Text) (r : Registry) (domain : Text)
      → (get seconds now split_domain_name r domain).0 ≢ err panic
  unfolding get
  get-panic split_domain_name r domain =
      pattern-panic (reverse (pattern_of split_domain_name domain)) r.tree r.cells (
        omega (
          arith,
          length-reverse (pattern_of split_domain_name domain),
          some_label split_domain_name domain,
        ))

  pub get_uuid-panic :
      (r : Registry) → IsConsistent r → (uuid : Text) → (get_uuid seconds now r uuid).0 ≢ err panic
  get_uuid-panic r consistent uuid e = elim (get_uuid-view r consistent seconds now uuid) [
    | inr (unknown, same) ↦ not_exists-panic (sym (ap (λ x. x.0) same) ∙ e)
    | inl (t, known, result, after) ↦ elim (Bool-cases (leb 1 (remaining_ttl seconds now t))) [
      | inl alive ↦ ok-panic (sym (rw alive at result) ∙ e)
      | inr gone ↦ not_exists-panic (sym (rw gone at result) ∙ e)
    ]
  ]
