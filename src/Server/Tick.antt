-- ===== src/Server/Tick.antt =====
-- The tick of the leader: what has expired is removed.
use mathlib.Core.Path.{subst}
use skydns.Shared.{
  ℕ, Text, text_eq, text_eq_iff, Bool, false, true, ◌||◌, List, [], ◌∷◌, Option, none, some,
  if◌then◌else◌, ◌≡◌, refl, sym, ◌∙◌, Bool-cases, inl, inr,
}
use skydns.Msg.{Service}
use skydns.Registry.{Registry, remove_uuid, get_expired}
use skydns.Registry.Consistency.{IsConsistent}
use skydns.Registry.Consistency.Remove.{remove_uuid-IsConsistent}
use skydns.Registry.View.{view, remove_uuid-view}
use skydns.Registry.Expiry.{member, expired, unexpired, member-get_expired}
use skydns.Server.Commands.{remove_service}
use skydns.Server.{IsLeading, Server, with_registry, remove_each, tick, is_leader}

view-remove_uuid :
    (r : Registry)
    → IsConsistent r
    → (uuid u : Text) → view (remove_uuid r uuid).1 u ≡ (if text_eq uuid u then none else view r u)
view-remove_uuid r c uuid u = elim (remove_uuid-view r c uuid) [
  | inl (t, known, done, after, called) ↦ after u
  | inr (unknown, same) ↦ rw same (elim (Bool-cases (text_eq uuid u)) [
    | inl e ↦ rw e (subst (λ k. view r k ≡ none) ((text_eq_iff uuid u).0 e) unknown)
    | inr e ↦ rw e refl
  ])
]

if-if {ℓ} :
    {A : Type ℓ} (a b : Bool) (x : A) (y : A)
    → (if b then x else (if a then x else y)) ≡ (if a || b then x else y)
if-if true true x y = refl
if-if true false x y = refl
if-if false b x y = refl

view-remove_each :
    (l : List Text) (s : Server)
    → IsLeading s.raft
    → IsConsistent s.registry
    → IsConsistent (remove_each l s).registry
      × ((u : Text)
          → view (remove_each l s).registry u ≡ (if member l u then none else view s.registry u))
unfolding remove_each
view-remove_each [] s leading c = (c, λ u. refl)
view-remove_each (uuid ∷ l) s leading c =
    let (kept, removed) =
      view-remove_each l (with_registry s (remove_uuid s.registry uuid).1) leading
        (remove_uuid-IsConsistent s.registry uuid c) in
    rw (remove_each, leading (remove_service uuid) s.registry)
      (
        kept,
        λ u.
            removed u
            ∙ rw (view-remove_uuid s.registry c uuid u)
                (if-if (text_eq uuid u) (member l u) none (view s.registry u)),
      )

unexpired_lem :
    (now : ℕ) (o : Option Service) → (if expired now o then none else o) ≡ unexpired now o
unexpired_lem now none = refl
unexpired_lem now (some t) = refl

-- On a leader whose registry is consistent, a tick removes every service that has expired, and no
-- other, and the registry stays consistent.
pub tick-unexpired :
    (now : ℕ) (s : Server)
    → IsLeading s.raft
    → is_leader s ≡ true
    → IsConsistent s.registry
    → IsConsistent (tick now s).registry
      × ((u : Text) → view (tick now s).registry u ≡ unexpired now (view s.registry u))
unfolding tick
tick-unexpired now s leading h c =
    let (kept, removed) = view-remove_each (get_expired now s.registry) s leading c in
    let swept = remove_each (get_expired now s.registry) s in
    subst
      (λ b.
        let t = if b then swept else s in
        IsConsistent t.registry
        × ((u : Text) → view t.registry u ≡ unexpired now (view s.registry u)))
      (sym h)
      (
        kept,
        λ u.
            removed u
            ∙ rw (member-get_expired now s.registry c u) (unexpired_lem now (view s.registry u)),
      )
