-- ===== src/Registry/Nsec/Gaps.antt =====
-- The names that `GetNSEC` returns: the neighbours of the key in the zone.
use mathlib.Core.Path.{subst}
use skydns.Shared.{
  ℕ, zero, suc, ◌+◌, ◌≤◌, Text, Bool, false, true, text_eq, text_eq_iff, text_le, text_le_refl,
  text_le_total, List, [], ◌∷◌, ◌++◌, Option, none, some, length, get_elem?, All, ◌≡◌, ◌≢◌, refl,
  ap, sym, ◌∙◌, arith, Bool-cases, inl, inr, append-nil, if◌then◌else◌,
}
use skydns.Registry.Nsec.{DenialReference, hit, names_at, between, dotted, position, get_nsec}
use skydns.Registry.Nsec.Position.{Before, Sorted, Fits, position_of_Fits}

-- The name before the gap, with its dot: the zone's apex, "", before the first name.
abbrev pub previous : List DenialReference → Text
previous [] = []
previous (d ∷ []) = dotted d.name
previous (d ∷ e ∷ l) = previous (e ∷ l)

ne_of_Before : (key a : Text) → Before key a → text_eq a key ≡ false
ne_of_Before key a h = elim (Bool-cases (text_eq a key)) [
  | inr e ↦ e
  | inl e ↦ absurd (cc (text_le_refl key, (rw ((text_eq_iff a key).0 e) at h)))
]

get_elem?-past : (b : List DenialReference) → get_elem? b (length b) ≡ none
get_elem?-past [] = refl
get_elem?-past (d ∷ b) = get_elem?-past b

get_elem?-next :
    (b a : List DenialReference) (d : DenialReference)
    → get_elem? (b ++ d ∷ a) (suc (length b)) ≡ get_elem? a 0
get_elem?-next [] a d = refl
get_elem?-next (e ∷ b) a d = get_elem?-next b a d

get_elem?-at :
    (b a : List DenialReference) (d : DenialReference) → get_elem? (b ++ d ∷ a) (length b) ≡ some d
get_elem?-at [] a d = refl
get_elem?-at (e ∷ b) a d = get_elem?-at b a d

-- Of the entry before index `length b`.
names_at_miss :
    (b a : List DenialReference) (d : DenialReference)
    → names_at none (length b) (b ++ d ∷ a) ≡ some (previous b, dotted d.name)
names_at_miss [] a d = refl
names_at_miss (e ∷ []) a d = refl
names_at_miss (e ∷ f ∷ b) a d = names_at_miss (f ∷ b) a d

get_nsec_step :
    (nsec : List DenialReference) (key : Text)
    → nsec ≢ []
    → get_nsec nsec key
      ≡ names_at (hit (get_elem? nsec (position nsec key)) key) (position nsec key) nsec
unfolding get_nsec
get_nsec_step [] key h = absurd (h refl)
get_nsec_step (d ∷ l) key h = refl

append-ne-nil : (b a : List DenialReference) (d : DenialReference) → b ++ d ∷ a ≢ []
append-ne-nil [] a d h = cc
append-ne-nil (e ∷ b) a d h = cc

le_of_Before : (key a : Text) → Before key a → text_le key a ≡ true
le_of_Before key a h = text_le_total a key h

All-le :
    (key : Text) (d : DenialReference) (l : List DenialReference)
    → text_le key d.name ≡ true
    → All (λ e. Before d.name e.name) l
    → All (λ e. text_le key e.name ≡ true) l
All-le key d [] h all = tt
All-le key d (e ∷ l) h (b, all) = (le_through key d.name e.name h b, All-le key d l h all)
  where
    le_through : (x y z : Text) → text_le x y ≡ true → Before y z → text_le x z ≡ true
    le_through x y z p q = skydns.Shared.text_le_trans x y z p (text_le_total z y q)

Sorted-after :
    (b a : List DenialReference) (d : DenialReference)
    → Sorted (b ++ d ∷ a)
    → All (λ e. Before d.name e.name) a
Sorted-after [] a d s = s.0
Sorted-after (e ∷ b) a d s = Sorted-after b a d s.1

Fits-Before :
    (b a : List DenialReference) (d : DenialReference) (key : Text)
    → Sorted (b ++ d ∷ a)
    → All (λ e. Before e.name key) b
    → text_le key d.name ≡ true
    → Fits key b (d ∷ a)
Fits-Before b a d key s lo h = (lo, (h, All-le key d a h (Sorted-after b a d s)))

-- A key in a gap of a sorted zone: the name before it, or the apex "", and the name after it.
pub get_nsec_gap :
    (b a : List DenialReference) (d : DenialReference) (key : Text)
    → Sorted (b ++ d ∷ a)
    → All (λ e. Before e.name key) b
    → Before key d.name
    → get_nsec (b ++ d ∷ a) key ≡ some (previous b, dotted d.name)
get_nsec_gap b a d key s lo h =
    get_nsec_step (b ++ d ∷ a) key (append-ne-nil b a d)
    ∙ rw
        (
          position_of_Fits b (d ∷ a) key s (Fits-Before b a d key s lo (le_of_Before key d.name h)),
          get_elem?-at b a d,
          ne_of_Before key d.name h,
        )
        (names_at_miss b a d)

-- A name of a sorted zone that is not its last: the name itself has no dot after it, though every
-- other name that is returned has one.
pub get_nsec_exact :
    (b a : List DenialReference) (d e : DenialReference)
    → Sorted (b ++ d ∷ e ∷ a)
    → All (λ x. Before x.name d.name) b
    → get_nsec (b ++ d ∷ e ∷ a) d.name ≡ some (d.name, dotted e.name)
get_nsec_exact b a d e s lo =
    get_nsec_step (b ++ d ∷ e ∷ a) d.name (append-ne-nil b (e ∷ a) d)
    ∙ rw (
      position_of_Fits b (d ∷ e ∷ a) d.name s
          (Fits-Before b (e ∷ a) d d.name s lo (text_le_refl d.name)),
      get_elem?-at b (e ∷ a) d,
      (text_eq_iff d.name d.name).1 refl,
      get_elem?-next b (e ∷ a) d,
    )

-- The last name of a sorted zone: its name with the dot, and the apex "".
pub get_nsec_last :
    (b : List DenialReference) (d : DenialReference)
    → Sorted (b ++ d ∷ [])
    → All (λ x. Before x.name d.name) b
    → get_nsec (b ++ d ∷ []) d.name ≡ some (dotted d.name, [])
get_nsec_last b d s lo =
    get_nsec_step (b ++ d ∷ []) d.name (append-ne-nil b [] d)
    ∙ rw (
      position_of_Fits b (d ∷ []) d.name s (Fits-Before b [] d d.name s lo (text_le_refl d.name)),
      get_elem?-at b [] d,
      (text_eq_iff d.name d.name).1 refl,
      get_elem?-next b [] d,
    )

between-none : (o : Option DenialReference) → between o none ≡ none
between-none none = refl
between-none (some d) = refl

past_end :
    (d : DenialReference) (l : List DenialReference) → names_at none (suc (length l)) (d ∷ l) ≡ none
past_end d l = rw (get_elem?-past l) (between-none (get_elem? (d ∷ l) (length l)))

-- A key after every name of a sorted zone that is not empty is an index panic in `GetNSEC`.
pub get_nsec_panics :
    (d : DenialReference) (l : List DenialReference) (key : Text)
    → Sorted (d ∷ l)
    → All (λ e. Before e.name key) (d ∷ l)
    → get_nsec (d ∷ l) key ≡ none
get_nsec_panics d l key s lo =
    let m = d ∷ l in
    let e = append-nil m in
    let at_end = position_of_Fits m [] key (subst Sorted (sym e) s) (lo, tt) in
    let at_end' = subst (λ x. position x key ≡ length m) e at_end in
    get_nsec_step m key (λ x. cc) ∙ rw (at_end', get_elem?-past l) (past_end d l)
