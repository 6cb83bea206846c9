-- ===== src/Registry/Consistency/Remove.antt =====
-- `RemoveUUID` and `Remove` keep the registry consistent.
use mathlib.Core.Path.{subst}
use skydns.Shared.{
  ℕ, suc, Text, text_Comparable, List, [], ◌∷◌, none, some, length, text_eq_iff, ◌≡◌, ◌≢◌, ap, sym,
  ◌∙◌, arith, inl, inr, Option-cases,
}
use skydns.Shared.GoMap
use skydns.Msg.{Service}
use skydns.Registry.Tree.{Node, Cells, Result, ok, err, not_exists}
use skydns.Registry.Tree
use skydns.Registry.Tree.Find.{find}
use skydns.Registry.Tree.Add.{text_cases}
use skydns.Registry.Tree.Shape.{Balanced}
use skydns.Registry.Tree.Shape.Shrink.{Shrunk, IsRemoved}
use skydns.Registry.Tree.Shape.Remove.{remove-IsRemoved}
use skydns.Registry.Query.{cell}
use skydns.Registry.{Registry, path_of, remove_service, remove, remove_uuid}
use skydns.Registry.Consistency.{IsRegistered, IsOwned, IsConsistent, path_cases}

pub removed_at_path :
    (p : List Text) (n : Node) (a : ℕ)
    → length p ≡ 6
    → Balanced 6 n
    → find p n ≡ some a
    → IsRemoved p n
removed_at_path [] n a e b stored = absurd (omega arith)
removed_at_path (k ∷ p) n a e b stored =
    remove-IsRemoved k p n a (subst (λ d. Balanced d n) (sym e) b) stored

find-remove :
    (p q : List Text) (n : Node)
    → IsRemoved p n
    → length p ≡ 6
    → length q ≡ 6
    → p ≢ q
    → find q (Tree.remove p n).1 ≡ find q n
find-remove p [] n gone e f other = absurd (omega arith)
find-remove p (j ∷ q) n gone e f other = gone.others j q (omega arith) other

length-delete :
    (m : List (Text × ℕ)) (k : Text) (a : ℕ)
    → GoMap.Distinct m
    → GoMap.lookup m k ≡ some a
    → suc (length (GoMap.delete m k)) ≡ length m
unfolding GoMap.lookup GoMap.delete
length-delete [] k a d h = cc
length-delete ((j, b) ∷ m) k a d h =
    ground (arith, length-delete m k a, GoMap.delete_absent m k, text_eq_iff j k)

module _ (r : Registry) (uuid : Text) (a : ℕ) (c : IsConsistent r)
    (known : GoMap.lookup r.nodes uuid ≡ some a) where
  abbrev pub node_of : IsRegistered r uuid a
  node_of = c.registered uuid a known

  abbrev pub gone : IsRemoved (path_of node_of.service) r.tree
  gone = removed_at_path (path_of node_of.service) r.tree a node_of.six c.shape node_of.stored

  abbrev pub after : Registry
  after = (remove_service r node_of.service).1

  pub remove_uuid-eq : remove_uuid r uuid ≡ (ok tt, after)
  unfolding remove_uuid remove_service
  remove_uuid-eq = rw (known, node_of.held, gone.result)

  -- Two nodes with one address are one.
  same_service : (s : Service) (b : ℕ) → cell r.cells b ≡ some s → b ≡ a → s ≡ node_of.service
  same_service s b e same = cc (subst (λ x. cell r.cells x ≡ some s) same e, node_of.held)

  after-registered :
      (u : Text) (b : ℕ) → GoMap.lookup after.nodes u ≡ some b → IsRegistered after u b
  unfolding remove_service
  after-registered u b e = elim (text_cases node_of.service.uuid u) [
    | inl same ↦ absurd (
        cc (
          subst (λ t. GoMap.lookup after.nodes t ≡ none) same
              (GoMap.lookup-delete_self r.nodes node_of.service.uuid),
          e,
        ))
    | inr other ↦
        let old =
          c.registered u b
            (sym (GoMap.lookup-delete_ne r.nodes node_of.service.uuid u other) ∙ e) in
        record {
          service = old.service;
          held = old.held;
          named = old.named;
          six = old.six;
          stored =
              find-remove (path_of node_of.service) (path_of old.service) r.tree gone node_of.six
                old.six
                (λ p. other (
                  ap (λ (t : Service). t.uuid)
                    (sym (
                      same_service old.service b old.held
                        (cc (subst (λ q. find q r.tree ≡ some a) p node_of.stored, old.stored))))
                  ∙ old.named))
              ∙ old.stored;
        }
  ]

  after-IsOwned :
      (p : List Text) (b : ℕ) → length p ≡ 6 → find p after.tree ≡ some b → IsOwned after p b
  unfolding remove_service
  after-IsOwned p b len e = elim (path_cases (path_of node_of.service) p) [
    | inl same ↦ absurd (cc (subst (λ q. find q after.tree ≡ none) same gone.gone, e))
    | inr other ↦
        let old =
          c.owned p b len
            (sym (find-remove (path_of node_of.service) p r.tree gone node_of.six len other) ∙ e) in
        record {
          service = old.service;
          held = old.held;
          path = old.path;
          listed =
              GoMap.lookup-delete_ne r.nodes node_of.service.uuid old.service.uuid (λ u. other (
                ap path_of (
                  sym (
                    same_service old.service b old.held (
                      cc (
                        subst (λ t. GoMap.lookup r.nodes t ≡ some a) (sym node_of.named ∙ u) known,
                        old.listed,
                      ))))
                ∙ old.path))
              ∙ old.listed;
        }
  ]

  after-IsConsistent : IsConsistent after
  unfolding remove_service
  after-IsConsistent =
      let shrunk =
        subst (λ d. Shrunk d r.tree (Tree.remove (path_of node_of.service) r.tree).1) node_of.six
          gone.shape in
      record {
        shape = shrunk.0;
        distinct = GoMap.delete-Distinct r.nodes node_of.service.uuid c.distinct;
        counted = omega (
          arith,
          shrunk.1,
          c.counted,
          length-delete r.nodes node_of.service.uuid a c.distinct
              (subst (λ t. GoMap.lookup r.nodes t ≡ some a) (sym node_of.named) known),
        );
        registered = after-registered;
        owned = after-IsOwned;
      }

-- `RemoveUUID` keeps the registry consistent, whether it succeeds or not.
pub remove_uuid-IsConsistent :
    (r : Registry) (uuid : Text) → IsConsistent r → IsConsistent (remove_uuid r uuid).1
remove_uuid-IsConsistent r uuid c = elim (Option-cases (GoMap.lookup r.nodes uuid)) [
  | inl unknown ↦ unfold remove_uuid in rw unknown c
  | inr (a, known) ↦ rw (remove_uuid-eq r uuid a c known) (after-IsConsistent r uuid a c known)
]

-- So does `Remove`, which goes by the UUID of the service that it is given.
pub remove-IsConsistent :
    (r : Registry) (s : Service) → IsConsistent r → IsConsistent (remove r s).1
unfolding remove
remove-IsConsistent r s c = unfold remove_uuid in remove_uuid-IsConsistent r s.uuid c
