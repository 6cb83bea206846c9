-- ===== src/Server/Dns/Existence.antt =====
-- Which names of services exist: the error of `getSRVRecords`.
use mathlib.Core.Path.{subst}
use skydns.Shared.{
  ℕ, zero, suc, length-append, length-reverse, ◌-◌, ◌≤◌, ℤ, true, ◌++◌, Text, dot, text_eq, leb,
  ltb, List, [], ◌∷◌, Option, none, some, reverse, length, In, set, replicate, get_elem?,
  if◌then◌else◌, to_lower, trim_suffix, join, ◌≡◌, ◌≢◌, ◌⊎◌, refl, ap, sym, ◌∙◌, arith, leb→le,
  Bool-cases, inl, inr,
}
use skydns.Msg.{Service}
use skydns.Registry.Tree.{Cells, Error, ok, err}
use skydns.Registry.{Registry, pattern_of, get}
use skydns.Registry.Query.{star}
use skydns.Registry.Query.Spec.{outcome}
use skydns.Registry.Query.Enumerate.{matches, entries}
use skydns.Registry.Query.Members.{matching_sound, matching_complete}
use skydns.Registry.Consistency.{IsConsistent}
use skydns.Registry.Consistency.Updates.{get-IsConsistent}
use skydns.Registry.Lookup.{get-outcome}
use skydns.Server.Dns.{Ip, starred, region_of}

err_ok {ℓ} : {A : Type ℓ} {e : Error} {x : A} → err e ≢ ok x
err_ok e = cc

abbrev padded : List Text → List Text
padded tree = if ltb (length tree) 6 then replicate (6 - length tree) star ++ tree else tree

length-padded : (l : List Text) → length l ≤ length (padded l)
length-padded l = elim (Bool-cases (ltb (length l) 6)) [
  | inl short ↦ rw short (omega (arith, length-append (replicate (6 - length l) star) l))
  | inr long ↦ rw long (omega arith)
]

too_long : (l : List Text) → 7 ≤ length l → length (reverse (padded l)) ≢ 6
too_long l long six = omega (arith, length-reverse (padded l), length-padded l)

matches-set : (p q : List Text) (i : ℕ) → matches p q ≡ true → matches (set p i star) q ≡ true
unfolding matches
matches-set [] q i e = e
matches-set (k ∷ p) [] i e = cc
matches-set (k ∷ p) (j ∷ q) zero e = ground arith
matches-set (k ∷ p) (j ∷ q) (suc i) e = ground (arith, matches-set p q i)

-- With a star for the region a pattern matches what it matched.
starred-matches :
    (l q : List Text)
    → 4 ≤ length l
    → length (reverse (padded l)) ≡ 6
    → matches (reverse (padded l)) q ≡ true
    → matches (reverse (padded (set l (length l - 4) star))) q ≡ true
starred-matches (a ∷ b ∷ c ∷ d ∷ []) q four six e =
    matches-set (d ∷ c ∷ b ∷ a ∷ star ∷ star ∷ []) q 3 e
starred-matches (a ∷ b ∷ c ∷ d ∷ f ∷ []) q four six e =
    matches-set (f ∷ d ∷ c ∷ b ∷ a ∷ star ∷ []) q 3 e
starred-matches (a ∷ b ∷ c ∷ d ∷ f ∷ g ∷ []) q four six e =
    matches-set (g ∷ f ∷ d ∷ c ∷ b ∷ a ∷ []) q 3 e
starred-matches (a ∷ b ∷ c ∷ d ∷ f ∷ g ∷ h ∷ l) q four six e =
    absurd (too_long (a ∷ b ∷ c ∷ d ∷ f ∷ g ∷ h ∷ l) (omega arith) six)
starred-matches [] q four six e = absurd (omega arith)
starred-matches (a ∷ []) q four six e = absurd (omega arith)
starred-matches (a ∷ b ∷ []) q four six e = absurd (omega arith)
starred-matches (a ∷ b ∷ c ∷ []) q four six e = absurd (omega arith)

starred-length :
    (l : List Text)
    → 4 ≤ length l
    → length (reverse (padded l)) ≡ 6
    → length (reverse (padded (set l (length l - 4) star))) ≡ 6
starred-length (a ∷ b ∷ c ∷ d ∷ []) four six = refl
starred-length (a ∷ b ∷ c ∷ d ∷ f ∷ []) four six = refl
starred-length (a ∷ b ∷ c ∷ d ∷ f ∷ g ∷ []) four six = refl
starred-length (a ∷ b ∷ c ∷ d ∷ f ∷ g ∷ h ∷ l) four six =
    absurd (too_long (a ∷ b ∷ c ∷ d ∷ f ∷ g ∷ h ∷ l) (omega arith) six)
starred-length [] four six = absurd (omega arith)
starred-length (a ∷ []) four six = absurd (omega arith)
starred-length (a ∷ b ∷ []) four six = absurd (omega arith)
starred-length (a ∷ b ∷ c ∷ []) four six = absurd (omega arith)

-- The name's region is starred, or not looked at.
pub region_of-cases :
    (parse_ip : Text → Ip) (l : List Text)
    → (region_of parse_ip l ≡ none)
      ⊎ ((region : Text) × (region_of parse_ip l ≡ some (region, set l (length l - 4) star))
          × (4 ≤ length l))
region_of-cases parse_ip l = elim (Bool-cases (leb 4 (length l))) [
  | inr short ↦ inl (rw short refl)
  | inl long ↦ rw long (at long (get_elem? l (length l - 4)))
]
  where
    at :
        leb 4 (length l) ≡ true
        → (o : Option Text)
        → (starred parse_ip l (length l - 4) o ≡ none)
          ⊎ ((region : Text) × (starred parse_ip l (length l - 4) o
                ≡ some (region, set l (length l - 4) star))
              × (4 ≤ length l))
    at long none = inl refl
    at long (some region) = elim (Bool-cases (text_eq region star)) [
      | inl all ↦ inl (rw all refl)
      | inr one ↦ inr (region, rw one refl, leb→le 4 (length l) long)
    ]

-- The outcome of a walk is a list exactly if it has a hit.
outcome_found :
    (xs : List ℕ) (walk : List Service × Cells) (services : List Service)
    → (outcome xs walk).0 ≡ ok services
    → (a : ℕ) × In a xs
outcome_found [] walk services e = absurd (err_ok e)
outcome_found (a ∷ xs) walk services e = (a, inl refl)

outcome_hit :
    (xs : List ℕ) (walk : List Service × Cells) (a : ℕ) → In a xs → (outcome xs walk).0 ≡ ok walk.0
outcome_hit [] walk a i = absurd i
outcome_hit (b ∷ xs) walk a i = refl

module _ (split_domain_name : Text → List Text) (key : Text) where
  -- The labels of the name, and those with a star for the region.
  abbrev pub labels : List Text
  labels = split_domain_name key

  abbrev pub all_regions : List Text
  all_regions = set labels (length labels - 4) star

  -- The library reads a name as its labels, be it written with or without the dot at its end.
  abbrev pub Reads : Type 0
  Reads =
      (split_domain_name (trim_suffix (to_lower key) (dot ∷ [])) ≡ labels)
      × (split_domain_name (trim_suffix (to_lower (join all_regions)) (dot ∷ [])) ≡ all_regions)

module _ (split_domain_name : Text → List Text) (seconds : ℤ → ℕ) (now : ℕ) (r : Registry)
    (consistent : IsConsistent r) (key : Text)
    (six : length (reverse (pattern_of split_domain_name key)) ≡ 6) where
  -- A second `Get`, for all regions, finds something if the first one does.
  pub get_again :
      Reads split_domain_name key
      → 4 ≤ length (labels split_domain_name key)
      → (services : List Service) → (get seconds now split_domain_name r key).0 ≡ ok services
      → (more : List Service) × ((get seconds now split_domain_name
            (get seconds now split_domain_name r key).1
            (join (all_regions split_domain_name key))).0
          ≡ ok more)
  get_again (reads, reads_all) four services e =
      let after = (get seconds now split_domain_name r key).1 in
      let first : pattern_of split_domain_name key ≡ padded (labels split_domain_name key) =
        unfold pattern_of in rw reads refl in
      let then_all : pattern_of split_domain_name (join (all_regions split_domain_name key))
          ≡ padded (all_regions split_domain_name key) =
        unfold pattern_of in rw reads_all refl in
      let six_all : length
            (reverse (pattern_of split_domain_name (join (all_regions split_domain_name key))))
          ≡ 6 =
        ap (λ p. length (reverse p)) then_all
        ∙ starred-length (labels split_domain_name key) four
            (sym (ap (λ p. length (reverse p)) first) ∙ six) in
      let (a, i) =
        outcome_found _ _ services
          (sym (get-outcome seconds now r consistent split_domain_name key six) ∙ e) in
      let (q, m, hit) =
        matching_sound (reverse (pattern_of split_domain_name key)) (entries 6 r.tree) a i in
      let starred_hit : matches
            (reverse (pattern_of split_domain_name (join (all_regions split_domain_name key)))) q
          ≡ true =
        ap (λ p. matches (reverse p) q) then_all
        ∙ starred-matches (labels split_domain_name key) q four
            (sym (ap (λ p. length (reverse p)) first) ∙ six)
            (sym (ap (λ p. matches (reverse p) q) first) ∙ hit) in
      let same_tree : after.tree ≡ r.tree = unfold get in refl in
      let again =
        matching_complete
          (reverse (pattern_of split_domain_name (join (all_regions split_domain_name key)))) q
          (entries 6 after.tree) a (subst (λ t. In (q, a) (entries 6 t)) (sym same_tree) m)
          starred_hit in
      (
        _,
        get-outcome seconds now after
              (get-IsConsistent r consistent seconds now split_domain_name key) split_domain_name
              (join (all_regions split_domain_name key)) six_all
            ∙ outcome_hit _ _ a again,
      )
