-- ===== src/Server/Callbacks/Laws.antt =====
-- What the loop of the callback handler does to the services.
use mathlib.Core.Option
use skydns.Shared.{
  ℕ, suc, ◌+◌, Text, text_Comparable, text_eq, text_eq_iff, Bool, true, false, ◌||◌, List, [], ◌∷◌,
  Option, none, some, if◌then◌else◌, ◌≡◌, refl, ap, ◌∙◌, arith, Bool-cases, inl, inr,
}
use skydns.Shared.GoMap
use skydns.Msg.{Service, Callback}
use skydns.Registry.{Registry, add_callback, callbacks}
use skydns.Registry.Consistency.{IsConsistent}
use skydns.Registry.Consistency.Updates.{add_callback-IsConsistent}
use skydns.Registry.View.{view, add_callback-view}
use skydns.Registry.Expiry.{member}
use skydns.Server.Commands.{Command}
use skydns.Server.{IsLeading, Server, with_registry}
use skydns.Server.Http.Replies.{Request}
use skydns.Server.Callbacks.{add_to_each}

-- A service with one more callback, or another one of the same UUID.
abbrev pub with_callback : Callback → Service → Service
with_callback cb s = record s { callback = some (GoMap.insert (callbacks s.callback) cb.uuid cb) }

with_callback_idem :
    (cb : Callback) (s : Service) → with_callback cb (with_callback cb s) ≡ with_callback cb s
with_callback_idem cb s =
    ap (λ m. record s { callback = some m })
      (GoMap.insert_same (GoMap.insert (callbacks s.callback) cb.uuid cb) cb.uuid cb
        (GoMap.lookup-insert_self (callbacks s.callback) cb.uuid cb))

abbrev pub absent : Option Service → Bool
absent none = true
absent (some s) = false

-- How many of the services are not registered.
abbrev pub unregistered : Registry → List Service → ℕ
unregistered r [] = 0
unregistered r (s ∷ l) =
    let rest = unregistered r l in if absent (view r s.uuid) then suc rest else rest

abbrev pub uuids : List Service → List Text
uuids [] = []
uuids (s ∷ l) = s.uuid ∷ uuids l

unregistered-same :
    (r t : Registry)
    → ((u : Text) → absent (view t u) ≡ absent (view r u))
    → (l : List Service) → unregistered t l ≡ unregistered r l
unregistered-same r t same [] = refl
unregistered-same r t same (s ∷ l) = rw (same s.uuid, unregistered-same r t same l) refl

abbrev pub called_back : Callback → Option Service → Option Service
called_back cb o = Option.map (with_callback cb) o

called_back_idem :
    (cb : Callback) (o : Option Service) → called_back cb (called_back cb o) ≡ called_back cb o
called_back_idem cb none = refl
called_back_idem cb (some s) = ap some (with_callback_idem cb s)

absent-called_back : (cb : Callback) (o : Option Service) → absent (called_back cb o) ≡ absent o
absent-called_back cb none = refl
absent-called_back cb (some s) = refl

view-add_callback :
    (r : Registry)
    → IsConsistent r
    → (s : Service) (cb : Callback) (u : Text)
    → view (add_callback r s cb).1 u
      ≡ (if text_eq s.uuid u then called_back cb (view r u) else view r u)
view-add_callback r c s cb u = elim (Bool-cases (text_eq s.uuid u)) [
  | inl e ↦ elim (add_callback-view r c s cb) [
    | inl (t, known, done, after) ↦ after u ∙ rw (e, ← (text_eq_iff s.uuid u).0 e, known) refl
    | inr (unknown, same) ↦ rw (same, e, ← (text_eq_iff s.uuid u).0 e, unknown) refl
  ]
  | inr e ↦ elim (add_callback-view r c s cb) [
    | inl (t, known, done, after) ↦ after u ∙ rw e refl
    | inr (unknown, same) ↦ rw (same, e) refl
  ]
]

absent-add_callback :
    (r : Registry)
    → IsConsistent r
    → (s : Service) (cb : Callback) (u : Text)
    → absent (view (add_callback r s cb).1 u) ≡ absent (view r u)
absent-add_callback r c s cb u =
    rw (view-add_callback r c s cb u) (elim (Bool-cases (text_eq s.uuid u)) [
      | inl e ↦ rw e (absent-called_back cb (view r u))
      | inr e ↦ rw e refl
    ])

called_back-if :
    (a b : Bool) (cb : Callback) (o : Option Service)
    → (if b
        then called_back cb (if a then called_back cb o else o)
        else (if a then called_back cb o else o))
      ≡ (if a || b then called_back cb o else o)
called_back-if true true cb o = called_back_idem cb o
called_back-if true false cb o = refl
called_back-if false b cb o = refl

suc_add : (m n : ℕ) → suc m + n ≡ m + suc n
suc_add m n = omega arith

-- On a leader whose registry is consistent, the loop of the handler comes to its end, having counted
-- the services that are not registered; it sets the callback of each one that is, changes no other
-- service, and the registry stays consistent.
pub add_to_each_lem :
    (cb : Callback) (req : Request) (l : List Service) (missing : ℕ) (s : Server)
    → IsLeading s.raft
    → IsConsistent s.registry
    → ((add_to_each cb req l missing s).0 ≡ (none, missing + unregistered s.registry l))
      × IsConsistent (add_to_each cb req l missing s).1.registry
      × ((u : Text)
          → view (add_to_each cb req l missing s).1.registry u ≡ (
              if member (uuids l) u then called_back cb (view s.registry u) else view s.registry u))
unfolding add_to_each
add_to_each_lem cb req [] missing s leading c = (ap (λ n. (none, n)) (omega arith), c, λ u. refl)
add_to_each_lem cb req (t ∷ l) missing s leading c =
    let r = (add_callback s.registry t cb).1 in
    let kept = add_callback-IsConsistent s.registry c t cb in
    let below = λ (n : ℕ). add_to_each_lem cb req l n (with_registry s r) leading kept in
    let views : (n : ℕ) (u : Text)
        → view (add_to_each cb req l n (with_registry s r)).1.registry u ≡ (
            if text_eq t.uuid u || member (uuids l) u
            then called_back cb (view s.registry u)
            else view s.registry u) =
      λ n u.
        (below n).2 u
        ∙ rw (view-add_callback s.registry c t cb u)
            (called_back-if (text_eq t.uuid u) (member (uuids l) u) cb (view s.registry u)) in
    let counts = unregistered-same s.registry r (absent-add_callback s.registry c t cb) l in
    rw (add_to_each, leading (Command.add_callback t cb) s.registry)
      (elim (add_callback-view s.registry c t cb) [
        | inl (v, known, done, after) ↦
            rw (done, known)
              (
                (below missing).0 ∙ ap (λ n. (none, missing + n)) counts,
                (below missing).1,
                views missing,
              )
        | inr (unknown, same) ↦
            rw (ap (λ p. p.0) same, unknown)
              (
                (below (suc missing)).0
                    ∙ ap (λ n. (none, n))
                        (ap (λ k. suc missing + k) counts
                          ∙ suc_add missing (unregistered s.registry l)),
                (below (suc missing)).1,
                views (suc missing),
              )
      ])
