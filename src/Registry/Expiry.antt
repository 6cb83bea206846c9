-- ===== src/Registry/Expiry.antt =====
-- What `GetExpired` lists, against the services of the UUIDs.
use skydns.Shared.{
  ℕ, Text, text_Comparable, text_eq, text_eq_iff, Bool, false, ◌&&◌, ◌||◌, not, ltb, List, [], ◌∷◌,
  ◌++◌, Option, none, some, if◌then◌else◌, ◌≡◌, refl, arith, Bool-cases, inl, inr,
}
use skydns.Shared.GoMap
use skydns.Msg.{Service}
use skydns.Registry.Tree.{Cells}
use skydns.Registry.Query.{cell}
use skydns.Registry.{Registry, expired_uuid, expired_in, get_expired}
use skydns.Registry.Consistency.{IsConsistent}
use skydns.Registry.View.{view, held_at}

abbrev pub is_expired : ℕ → Service → Bool
is_expired now s = not s.no_expire && ltb s.expires now

abbrev pub expired : ℕ → Option Service → Bool
expired now none = false
expired now (some s) = is_expired now s

-- A service unless it has expired.
abbrev pub unexpired : ℕ → Option Service → Option Service
unexpired now none = none
unexpired now (some s) = if is_expired now s then none else some s

abbrev pub member : List Text → Text → Bool
member [] u = false
member (v ∷ l) u = text_eq v u || member l u

-- Each entry of the map leads to a service of its UUID.
abbrev Named : Cells → List (Text × ℕ) → Type 0
Named cells m =
    (k : Text) (a : ℕ)
    → GoMap.lookup m k ≡ some a
    → (s : Service) × (cell cells a ≡ some s) × (s.uuid ≡ k)

Named-tail :
    (cells : Cells) (k : Text) (a : ℕ) (m : List (Text × ℕ))
    → GoMap.Distinct ((k, a) ∷ m)
    → Named cells ((k, a) ∷ m)
    → Named cells m
Named-tail cells k a m (new, _) named j b e = named j b (elim (Bool-cases (text_eq k j)) [
  | inl same ↦ absurd (unfold GoMap.lookup in ground (arith, text_eq_iff k j))
  | inr other ↦ unfold GoMap.lookup in rw other e
])

member-expired_uuid :
    (now : ℕ) (s : Service) (l : List Text) (u : Text)
    → member (expired_uuid now (some s) ++ l) u
      ≡ (is_expired now s && text_eq s.uuid u) || member l u
member-expired_uuid now s l u = ground arith

member-expired_in :
    (now : ℕ) (cells : Cells) (m : List (Text × ℕ)) (u : Text)
    → GoMap.Distinct m
    → Named cells m
    → member (expired_in now cells m) u ≡ expired now (held_at (GoMap.lookup m u) cells)
unfolding expired_in GoMap.lookup
member-expired_in now cells [] u d named = refl
member-expired_in now cells ((k, a) ∷ m) u (new, d) named =
    let (s, at, is) = named k a (rw ((text_eq_iff k k).1 refl) refl) in
    let rest = member-expired_in now cells m u d (Named-tail cells k a m (new, d) named) in
    rw (at, member-expired_uuid now s (expired_in now cells m) u, rest, is)
      (elim (Bool-cases (text_eq k u)) [
        | inl same ↦ rw (same, ← (text_eq_iff k u).0 same, new, at) (ground arith)
        | inr other ↦ rw other (ground arith)
      ])

-- In a consistent registry `GetExpired` lists the UUIDs whose service has expired.
pub member-get_expired :
    (now : ℕ) (r : Registry)
    → IsConsistent r
    → (u : Text) → member (get_expired now r) u ≡ expired now (view r u)
unfolding get_expired view
member-get_expired now r c u =
    member-expired_in now r.cells r.nodes u c.distinct
      (λ k a e. let n = c.registered k a e in (n.service, n.held, n.named))
