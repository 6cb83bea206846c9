-- ===== src/Registry/Reach.antt =====
-- The registry as a state machine: what clients and the clock do to it, one method at a time.
use skydns.Shared.{ℕ, ℤ, Text, text_Comparable, List, [], ◌∷◌, some, length, ◌≡◌, refl, arith, Bool}
use skydns.Shared.GoMap
use skydns.Msg.{Service, Callback}
use skydns.Registry.Tree.Shape.{count}
use skydns.Registry.{
  Registry, new, path_of, add, remove_uuid, remove, update_ttl, add_callback, get_uuid, get,
  set_dnssec,
}
use skydns.Registry.Tree.Find.{find}
use skydns.Registry.Consistency.{IsConsistent}
use skydns.Registry.Consistency.Add.{add-IsConsistent}
use skydns.Registry.Consistency.Remove.{remove_uuid-IsConsistent, remove-IsConsistent}
use skydns.Registry.Consistency.Updates.{
  update_ttl-IsConsistent, add_callback-IsConsistent, get_uuid-IsConsistent, get-IsConsistent,
}

module _ (seconds : ℤ → ℕ) (split_domain_name : Text → List Text) where
  -- One call of a method. A service that is added has a key of six labels.
  pub data Step (r : Registry) : Registry → Type 0 where
    adds : (s : Service) → length (path_of s) ≡ 6 → Step r (add r s).1
    removes_uuid : (uuid : Text) → Step r (remove_uuid r uuid).1
    removes : (s : Service) → Step r (remove r s).1
    updates_ttl : (uuid : Text) (ttl expires : ℕ) → Step r (update_ttl r uuid ttl expires).1
    adds_callback : (s : Service) (c : Callback) → Step r (add_callback r s c).1
    gets_uuid : (now : ℕ) (uuid : Text) → Step r (get_uuid seconds now r uuid).1
    gets : (now : ℕ) (domain : Text) → Step r (get seconds now split_domain_name r domain).1
    sets_dnssec : (b : Bool) → Step r (set_dnssec r b).1

  pub data Reach : Registry → Type 0 where
    start : Reach new
    next : {r t : Registry} → Reach r → Step r t → Reach t

  pub new-IsConsistent : IsConsistent new
  unfolding new find count
  new-IsConsistent = record {
    shape = (tt, refl, tt);
    distinct = tt;
    counted = refl;
    registered = λ uuid a e. absurd (unfold GoMap.lookup in cc);
    owned = λ p a six e. absurd (nothing p a six e);
  }
    where
      nothing : (p : List Text) (a : ℕ) → length p ≡ 6 → find p new.tree ≡ some a → ⊥
      nothing [] a six e = omega arith
      nothing (k ∷ p) a six e = unfold GoMap.lookup in cc

  Step-IsConsistent : {r t : Registry} → Step r t → IsConsistent r → IsConsistent t
  Step-IsConsistent {r} (adds s six) c = add-IsConsistent r s c six
  Step-IsConsistent {r} (removes_uuid uuid) c = remove_uuid-IsConsistent r uuid c
  Step-IsConsistent {r} (removes s) c = remove-IsConsistent r s c
  Step-IsConsistent {r} (updates_ttl uuid ttl expires) c =
      update_ttl-IsConsistent r c uuid ttl expires
  Step-IsConsistent {r} (adds_callback s cb) c = add_callback-IsConsistent r c s cb
  Step-IsConsistent {r} (gets_uuid now uuid) c = get_uuid-IsConsistent r c seconds now uuid
  Step-IsConsistent {r} (gets now domain) c =
      get-IsConsistent r c seconds now split_domain_name domain
  Step-IsConsistent (sets_dnssec b) c =
      unfold set_dnssec in
      record {
        shape = c.shape;
        distinct = c.distinct;
        counted = c.counted;
        registered = λ uuid a e.
            let k = c.registered uuid a e in
            record {
              service = k.service;
              held = k.held;
              named = k.named;
              six = k.six;
              stored = k.stored;
            };
        owned = λ p a six e.
            let k = c.owned p a six e in
            record { service = k.service; held = k.held; path = k.path; listed = k.listed };
      }

  -- However the methods are called, the registry stays consistent: each UUID of the map has its
  -- node in the tree at the path of its service, each node at the bottom belongs to such a UUID, and
  -- every inner node counts the services below it. The services that are added have keys of six
  -- labels.
  pub Reach-IsConsistent : {r : Registry} → Reach r → IsConsistent r
  Reach-IsConsistent start = new-IsConsistent
  Reach-IsConsistent (next h st) = Step-IsConsistent st (Reach-IsConsistent h)
