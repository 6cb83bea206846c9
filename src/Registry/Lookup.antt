-- ===== src/Registry/Lookup.antt =====
-- `Get` against the registered services: what it returns, what it leaves out, and when it fails.
use mathlib.Core.Option
use mathlib.Core.Path.{subst}
use skydns.Shared.{
  ℕ, ℤ, ◌<◌, ltb→lt, Text, text_Comparable, true, ltb, List, [], ◌∷◌, reverse, none, some, length,
  In, ◌≡◌, ◌≢◌, ◌↔◌, refl, ap, sym, ◌∙◌, arith, Option-cases, inl, inr,
}
use skydns.Shared.GoMap
use skydns.Msg.{Service, remaining_ttl}
use skydns.Msg
use skydns.Registry.Tree.{Result, ok, err, not_exists}
use skydns.Registry.Tree.Find.{find}
use skydns.Registry.Tree.Shape.{Balanced}
use skydns.Registry.Query.{cell}
use skydns.Registry.Query
use skydns.Registry.Query.Spec.{outcome}
use skydns.Registry.Query.Results.{get_result, alive}
use skydns.Registry.Query.Enumerate.{entries, matches, matching}
use skydns.Registry.Query.Members.{
  matching_sound, matching_complete, entries_sound, entries_complete, alive_sound, alive_complete,
  refreshed_of,
}
use skydns.Registry.{Registry, path_of, pattern_of, get}
use skydns.Registry.Consistency.{IsConsistent}
use skydns.Registry.View.{view, view_registered}

view_unknown : (r : Registry) (u : Text) → GoMap.lookup r.nodes u ≡ none → view r u ≡ none
unfolding view
view_unknown r u e = rw e

-- What `Get` answers with: a registered service that the pattern matches, with its remaining TTL for
-- its TTL, if that is above 1.
pub record IsAnswer (seconds : ℤ → ℕ) (now : ℕ) (r : Registry) (pattern : List Text) (t : Service)
    : Type 0 where
  pub service : Service
  pub registered : view r service.uuid ≡ some service
  pub matched : matches pattern (path_of service) ≡ true
  pub refreshed : t ≡ record service { ttl = remaining_ttl seconds now service }
  pub alive : 1 < remaining_ttl seconds now service

-- The two answers of `Get`: nothing matches, or the list of what is alive of that which matches.
pub data Answer (seconds : ℤ → ℕ) (now : ℕ) (r : Registry) (pattern : List Text)
    : Result (List Service) → Type 0 where
  missing :
      ((u : Text) (s : Service) → view r u ≡ some s → matches pattern (path_of s) ≢ true)
      → Answer seconds now r pattern (err not_exists)
  found :
      (services : List Service) (u : Text) (s : Service)
      → view r u ≡ some s
      → matches pattern (path_of s) ≡ true
      → ((t : Service) → In t services ↔ IsAnswer seconds now r pattern t)
      → Answer seconds now r pattern (ok services)

lt→ltb : (a b : ℕ) → a < b → ltb a b ≡ true
lt→ltb a b h = ground arith

module _ (seconds : ℤ → ℕ) (now : ℕ) (r : Registry) (c : IsConsistent r)
    (split_domain_name : Text → List Text) (domain : Text)
    (six : length (reverse (pattern_of split_domain_name domain)) ≡ 6) where
  -- The pattern, from its last label, as the stored paths are.
  abbrev pub pattern : List Text
  pattern = reverse (pattern_of split_domain_name domain)

  abbrev pub hits : List ℕ
  hits = matching pattern (entries 6 r.tree)

  result_at_pattern :
      (p : List Text)
      → length p ≡ 6
      → let xs = matching p (entries 6 r.tree) in
        (Query.get seconds now p r.tree r.cells).0
        ≡ (outcome xs (alive seconds now r.cells xs, r.cells)).0
  result_at_pattern [] e = absurd (omega arith)
  result_at_pattern (k ∷ p) e =
      subst
        (λ d.
          (Query.get seconds now (k ∷ p) r.tree r.cells).0
          ≡ (outcome (matching (k ∷ p) (entries d r.tree))
              (alive seconds now r.cells (matching (k ∷ p) (entries d r.tree)), r.cells)).0)
        e
        (get_result seconds now k p r.tree r.cells (subst (λ d. Balanced d r.tree) (sym e) c.shape))

  pub get-outcome :
      (get seconds now split_domain_name r domain).0
      ≡ (outcome hits (alive seconds now r.cells hits, r.cells)).0
  unfolding get
  get-outcome = result_at_pattern pattern six

  -- An address that is hit holds a registered service whose path matches.
  hit_service :
      (a : ℕ)
      → In a hits
      → (s : Service) × (cell r.cells a ≡ some s)
        × (view r s.uuid ≡ some s)
        × (matches pattern (path_of s) ≡ true)
  hit_service a i =
      let (q, m, e) = matching_sound pattern (entries 6 r.tree) a i in
      let (len, leads) = entries_sound 6 r.tree q a c.shape m in
      let o = c.owned q a len leads in
      (
        o.service,
        o.held,
        unfold view in rw (o.listed) o.held,
        subst (λ p. matches pattern p ≡ true) (sym o.path) e,
      )

  -- A registered service whose path matches is hit.
  service_hit :
      (u : Text) (s : Service)
      → view r u ≡ some s
      → matches pattern (path_of s) ≡ true
      → (a : ℕ) × In a hits × (cell r.cells a ≡ some s)
  service_hit u s v e = elim (Option-cases (GoMap.lookup r.nodes u)) [
    | inl unknown ↦ absurd (cc (view_unknown r u unknown))
    | inr (a, known) ↦
        let k = c.registered u a known in
        let same : k.service ≡ s = cc (view_registered r c u a known) in
        (
          a,
          matching_complete pattern (path_of s) (entries 6 r.tree) a
              (entries_complete 6 r.tree (path_of s) a
                (ap (λ (x : Service). length (path_of x)) (sym same) ∙ k.six)
                (ap (λ (x : Service). find (path_of x) r.tree) (sym same) ∙ k.stored))
              e,
          k.held ∙ ap some same,
        )
  ]

  IsAnswer-sound :
      (t : Service) → In t (alive seconds now r.cells hits) → IsAnswer seconds now r pattern t
  unfolding Msg.update_ttl
  IsAnswer-sound t i =
      let (a, hit, e, left) = alive_sound seconds now r.cells hits t i in
      let (s, at, v, m) = hit_service a hit in
      let (s', at', e') = refreshed_of seconds now r.cells a t e in
      let same : s' ≡ s = cc in
      let refreshed_by : t ≡ record s { ttl = remaining_ttl seconds now s } =
        e' ∙ ap (Msg.update_ttl seconds now) same in
      record {
        service = s;
        registered = v;
        matched = m;
        refreshed = refreshed_by;
        alive = subst (λ k. 1 < k) (ap (λ x. x.ttl) refreshed_by) (ltb→lt 1 t.ttl left);
      }

  answer_complete :
      (t : Service) → IsAnswer seconds now r pattern t → In t (alive seconds now r.cells hits)
  unfolding Msg.update_ttl
  answer_complete t x =
      let (a, hit, at) = service_hit x.service.uuid x.service x.registered x.matched in
      alive_complete seconds now r.cells hits a t hit
        (ap (Option.map (Msg.update_ttl seconds now)) at ∙ ap some (sym x.refreshed))
        (subst (λ k. ltb 1 k ≡ true) (ap (λ y. y.ttl) (sym x.refreshed))
          (lt→ltb 1 (remaining_ttl seconds now x.service) x.alive))

  -- In a consistent registry, and for a domain of at most six labels, `Get` fails exactly when no
  -- registered service matches, and otherwise lists those that match and whose `RemainingTTL` at
  -- `now`, whatever `time.Duration` and the conversion to a uint32 make it, is above 1, each with its
  -- `RemainingTTL` as its TTL, and no other.
  pub get-Answer : Answer seconds now r pattern (get seconds now split_domain_name r domain).0
  get-Answer = subst (Answer seconds now r pattern) (sym get-outcome) (answer hits refl)
    where
      answer :
          (xs : List ℕ)
          → hits ≡ xs
          → Answer seconds now r pattern (outcome xs (alive seconds now r.cells xs, r.cells)).0
      answer [] e = missing (λ u s v m. let (a, i, at) = service_hit u s v m in subst (In a) e i)
      answer (a ∷ xs) e =
          let (s, at, v, m) = hit_service a (subst (In a) (sym e) (inl refl)) in
          found (alive seconds now r.cells (a ∷ xs)) s.uuid s v m (
            subst
              (λ ys.
                (t : Service)
                → In t (alive seconds now r.cells ys) ↔ IsAnswer seconds now r pattern t)
              e (λ t. (IsAnswer-sound t, answer_complete t)))
