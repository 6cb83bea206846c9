-- ===== src/Registry/Consistency/Updates.antt =====
-- The methods that only write to cells keep the registry consistent: `UpdateTTL`, `AddCallback`,
-- `GetUUID` and `Get` leave what makes up a service's UUID and key as it is.
use mathlib.Core.Path.{subst}
use skydns.Shared.{
  ℕ, ℤ, Text, text_Comparable, nat_eq, nat_eq_iff, List, [], ◌∷◌, reverse, Option, some, length,
  set, get_elem?-set_self, get_elem?-set_ne, lt-length_of_get_elem?, ◌≡◌, refl, ap, sym, ◌∙◌, inl,
  inr, Option-cases, Bool-cases,
}
use skydns.Shared.GoMap
use skydns.Msg.{Service, Callback, remaining_ttl}
use skydns.Registry.Tree.{Node, Cells}
use skydns.Registry.Tree.Find.{find}
use skydns.Registry.Query.{cell}
use skydns.Registry.Query
use skydns.Registry.Query.Spec.{reached, outcome, visits, get_lem}
use skydns.Registry.Query.Results.{visits_cells, member}
use skydns.Registry.{
  Registry, path_of, update_ttl, add_callback, get_uuid, get, pattern_of, callbacks,
}
use skydns.Registry.Consistency.{IsConsistent}

-- The same UUID and the same path.
pub record IsKept (s : Service) (o : Option Service) : Type 0 where
  pub service : Service
  pub held : o ≡ some service
  pub uuid : service.uuid ≡ s.uuid
  pub path : path_of service ≡ path_of s

abbrev pub Similar : Cells → Cells → Type 0
Similar h h' = (a : ℕ) (s : Service) → cell h a ≡ some s → IsKept s (cell h' a)

pub IsConsistent-Similar :
    (r : Registry) (h : Cells)
    → IsConsistent r
    → Similar r.cells h
    → IsConsistent (record r { cells = h })
IsConsistent-Similar r h c similar = record {
  shape = c.shape;
  distinct = c.distinct;
  counted = c.counted;
  registered = λ uuid a e.
      let old = c.registered uuid a e in
      let k = similar a old.service old.held in
      record {
        service = k.service;
        held = k.held;
        named = k.uuid ∙ old.named;
        six = ap length k.path ∙ old.six;
        stored = subst (λ p. find p r.tree ≡ some a) (sym k.path) old.stored;
      };
  owned = λ p a len e.
      let old = c.owned p a len e in
      let k = similar a old.service old.held in
      record {
        service = k.service;
        held = k.held;
        path = k.path ∙ old.path;
        listed = subst (λ u. GoMap.lookup r.nodes u ≡ some a) (sym k.uuid) old.listed;
      };
}

IsKept-same : (s : Service) (o : Option Service) → o ≡ some s → IsKept s o
IsKept-same s o e = record { service = s; held = e; uuid = refl; path = refl }

Similar-set :
    (h : Cells) (a : ℕ) (s s' : Service)
    → cell h a ≡ some s
    → s'.uuid ≡ s.uuid
    → path_of s' ≡ path_of s
    → Similar h (set h a s')
Similar-set h a s s' at u p b t e = elim (Bool-cases (nat_eq a b)) [
  | inr other ↦
      IsKept-same t (cell (set h a s') b)
        (get_elem?-set_ne h a b s' (λ x. cc ((nat_eq_iff a b).1 x)) ∙ e)
  | inl same ↦
      let eq = (nat_eq_iff a b).0 same in
      let s_eq : s ≡ t = cc (subst (λ x. cell h x ≡ some s) eq at) in
      record {
        service = s';
        held =
            subst (λ x. cell (set h a s') x ≡ some s') eq
              (get_elem?-set_self h a s' (lt-length_of_get_elem? h a s at));
        uuid = u ∙ ap (λ (x : Service). x.uuid) s_eq;
        path = p ∙ ap path_of s_eq;
      }
]

module _ (r : Registry) (c : IsConsistent r) where
  pub update_ttl-IsConsistent :
      (uuid : Text) (ttl expires : ℕ) → IsConsistent (update_ttl r uuid ttl expires).1
  unfolding update_ttl
  update_ttl-IsConsistent uuid ttl expires = elim (Option-cases (GoMap.lookup r.nodes uuid)) [
    | inl unknown ↦ rw unknown c
    | inr (a, known) ↦
        let old = c.registered uuid a known in
        rw (known, old.held)
          (IsConsistent-Similar r
            (set r.cells a (record old.service { ttl = ttl; expires = expires })) c
            (Similar-set r.cells a old.service (record old.service { ttl = ttl; expires = expires })
              old.held refl (unfold path_of in refl)))
  ]

  pub add_callback-IsConsistent :
      (s : Service) (cb : Callback) → IsConsistent (add_callback r s cb).1
  unfolding add_callback
  add_callback-IsConsistent s cb = elim (Option-cases (GoMap.lookup r.nodes s.uuid)) [
    | inl unknown ↦ rw unknown c
    | inr (a, known) ↦
        let old = c.registered s.uuid a known in
        let m = some (GoMap.insert (callbacks old.service.callback) cb.uuid cb) in
        rw (known, old.held)
          (IsConsistent-Similar r (set r.cells a (record old.service { callback = m })) c (
            Similar-set r.cells a old.service (record old.service { callback = m }) old.held refl
              (unfold path_of in refl)))
  ]

  module _ (seconds : ℤ → ℕ) (now : ℕ) where
    pub get_uuid-IsConsistent : (uuid : Text) → IsConsistent (get_uuid seconds now r uuid).1
    unfolding get_uuid
    get_uuid-IsConsistent uuid = elim (Option-cases (GoMap.lookup r.nodes uuid)) [
      | inl unknown ↦ rw unknown c
      | inr (a, known) ↦
          let old = c.registered uuid a known in
          let s' = record old.service { ttl = remaining_ttl seconds now old.service } in
          rw (known, old.held)
            (IsConsistent-Similar r (set r.cells a s') c
              (Similar-set r.cells a old.service s' old.held refl (unfold path_of in refl)))
    ]

    visits-Similar : (xs : List ℕ) (h : Cells) → Similar h (visits seconds now xs h).1
    visits-Similar xs h a s e =
        subst (IsKept s) (sym (visits_cells seconds now xs h a)) (elim (Bool-cases (member xs a)) [
          | inl hit ↦
              rw (hit, e)
                (record {
                  service = skydns.Msg.update_ttl seconds now s;
                  held = refl;
                  uuid = unfold skydns.Msg.update_ttl in refl;
                  path = unfold skydns.Msg.update_ttl path_of in refl;
                })
          | inr miss ↦ rw miss (IsKept-same s (cell h a) e)
        ])

    outcome-Similar : (xs : List ℕ) (h : Cells) → Similar h (outcome xs (visits seconds now xs h)).1
    outcome-Similar [] h = visits-Similar [] h
    outcome-Similar (x ∷ xs) h = visits-Similar (x ∷ xs) h

    query-Similar :
        (p : List Text) (n : Node) (h : Cells) → Similar h (Query.get seconds now p n h).1
    query-Similar [] n h = unfold Query.get in λ a s e. IsKept-same s (cell h a) e
    query-Similar (k ∷ p) n h =
        subst (λ (x : Query.Found). Similar h x.1) (sym (get_lem seconds now k p n h))
          (outcome-Similar (reached (k ∷ p) n) h)

    pub get-IsConsistent :
        (split_domain_name : Text → List Text) (domain : Text)
        → IsConsistent (get seconds now split_domain_name r domain).1
    unfolding get
    get-IsConsistent split_domain_name domain =
        let p = reverse (pattern_of split_domain_name domain) in
        IsConsistent-Similar r (Query.get seconds now p r.tree r.cells).1 c
          (query-Similar p r.tree r.cells)
