-- ===== src/Registry/Consistency/Add.antt =====
-- `Add` keeps the registry consistent.
use mathlib.Core.Path.{subst}
use skydns.Shared.{
  ℕ, suc, Text, text_Comparable, List, [], ◌∷◌, ◌++◌, none, some, length, get_elem?-append_left,
  get_elem?-append_length, lt-length_of_get_elem?, length-append, ◌≡◌, refl, ap, sym, ◌∙◌, arith,
  inl, inr, Option-cases, if◌then◌else◌,
}
use skydns.Shared.GoMap
use skydns.Msg.{Service}
use skydns.Registry.Tree.{Node, Cells, Result, ok, err, exists}
use skydns.Registry.Tree
use skydns.Registry.Tree.Find.{find}
use skydns.Registry.Tree.Add.{IsAdded, add_exists, text_cases}
use skydns.Registry.Tree.Shape.{Balanced}
use skydns.Registry.Tree.Shape.Grow.{Grown, add-Grown}
use skydns.Registry.Query.{cell}
use skydns.Registry.{Registry, path_of, add, added, denial_names, add_names}
use skydns.Registry.Consistency.{
  IsRegistered, IsOwned, IsConsistent, path_cases, add_at_path, find-add,
}

-- The registry after a successful `Add`.
abbrev pub with_service : Registry → Service → ℕ → Registry
with_service r s a =
    let x = Tree.add (path_of s) r.tree s r.cells in
    record r {
      tree = x.1;
      cells = x.2;
      nodes = GoMap.insert r.nodes s.uuid a;
      nsec = if r.dnssec then add_names (denial_names s) r.nsec else r.nsec;
    }

Grown-at_path :
    (p : List Text) (n : Node) (s : Service) (h : Cells)
    → length p ≡ 6
    → Balanced 6 n
    → find p n ≡ none
    → Grown 6 n (Tree.add p n s h).1
Grown-at_path [] n s h e b free = absurd (omega arith)
Grown-at_path (k ∷ p) n s h e b free =
    subst (λ d. Grown d n (Tree.add (k ∷ p) n s h).1) e
      (add-Grown k p n s h (subst (λ d. Balanced d n) (sym e) b) free)

module _ (r : Registry) (s : Service) (six : length (path_of s) ≡ 6)
    (free : find (path_of s) r.tree ≡ none) where
  abbrev pub grown : IsAdded (path_of s) r.tree s r.cells
  grown = add_at_path (path_of s) r.tree s r.cells six free

  abbrev pub address : ℕ
  address = length (r.cells ++ grown.inner)

  -- Cells that were there stay as they are.
  pub kept_cell :
      (a : ℕ) (t : Service)
      → cell r.cells a ≡ some t
      → cell (Tree.add (path_of s) r.tree s r.cells).2 a ≡ some t
  kept_cell a t e =
      let lt = lt-length_of_get_elem? r.cells a t e in
      rw grown.cells (
        get_elem?-append_left (r.cells ++ grown.inner) (s ∷ []) a
          (omega (arith, length-append r.cells grown.inner))
        ∙ get_elem?-append_left r.cells grown.inner a lt
        ∙ e)

  pub new_cell : cell (Tree.add (path_of s) r.tree s r.cells).2 address ≡ some s
  new_cell = rw grown.cells (get_elem?-append_length (r.cells ++ grown.inner) [] s)

length-insert :
    (m : List (Text × ℕ)) (k : Text) (a : ℕ)
    → GoMap.lookup m k ≡ none
    → length (GoMap.insert m k a) ≡ suc (length m)
unfolding GoMap.lookup GoMap.insert
length-insert [] k a h = refl
length-insert ((j, b) ∷ m) k a h = ground (arith, length-insert m k a)

added-ok :
    (r : Registry) (s : Service) (x : Result ℕ × Node × Cells) (a : ℕ)
    → x.0 ≡ ok a
    → added r s x ≡ (
      ok tt,
      record r {
        tree = x.1;
        cells = x.2;
        nodes = GoMap.insert r.nodes s.uuid a;
        nsec = if r.dnssec then add_names (denial_names s) r.nsec else r.nsec;
      },
    )
added-ok r s (ok b, t, h) a e = ground arith
added-ok r s (err q, t, h) a e = cc

module _ (r : Registry) (s : Service) (six : length (path_of s) ≡ 6)
    (free : find (path_of s) r.tree ≡ none) where
  pub add-eq-with_service :
      GoMap.lookup r.nodes s.uuid ≡ none
      → add r s ≡ (ok tt, with_service r s (address r s six free))
  unfolding add
  add-eq-with_service new = rw new (
      added-ok r s (Tree.add (path_of s) r.tree s r.cells) (address r s six free)
        (grown r s six free).result)

  module _ (c : IsConsistent r) (new : GoMap.lookup r.nodes s.uuid ≡ none) where
    abbrev after : Registry
    after = with_service r s (address r s six free)

    after-registered :
        (uuid : Text) (a : ℕ) → GoMap.lookup after.nodes uuid ≡ some a → IsRegistered after uuid a
    after-registered uuid a e = elim (text_cases s.uuid uuid) [
      | inl same ↦
          let at : a ≡ address r s six free = cc (
            subst (λ u. GoMap.lookup after.nodes u ≡ some (address r s six free)) same
                (GoMap.lookup-insert_self r.nodes s.uuid (address r s six free)),
            e,
          ) in
          record {
            service = s;
            held = rw at (new_cell r s six free);
            named = same;
            six = six;
            stored = rw at (grown r s six free).found;
          }
      | inr other ↦
          let old =
            c.registered uuid a
              (sym (GoMap.lookup-insert_ne r.nodes s.uuid uuid (address r s six free) other) ∙ e) in
          record {
            service = old.service;
            held = kept_cell r s six free a old.service old.held;
            named = old.named;
            six = old.six;
            stored =
                find-add (path_of s) (path_of old.service) r.tree s r.cells six old.six
                  (λ p. cc (subst (λ q. find q r.tree ≡ none) p free, old.stored))
                ∙ old.stored;
          }
    ]

    after-IsOwned :
        (p : List Text) (a : ℕ) → length p ≡ 6 → find p after.tree ≡ some a → IsOwned after p a
    after-IsOwned p a len e = elim (path_cases (path_of s) p) [
      | inl same ↦
          let at : a ≡ address r s six free = cc (
            subst (λ q. find q after.tree ≡ some (address r s six free)) same
                (grown r s six free).found,
            e,
          ) in
          record {
            service = s;
            held = rw at (new_cell r s six free);
            path = same;
            listed = rw at (GoMap.lookup-insert_self r.nodes s.uuid (address r s six free));
          }
      | inr other ↦
          let old =
            c.owned p a len (sym (find-add (path_of s) p r.tree s r.cells six len other) ∙ e) in
          record {
            service = old.service;
            held = kept_cell r s six free a old.service old.held;
            path = old.path;
            listed =
                GoMap.lookup-insert_ne r.nodes s.uuid old.service.uuid (address r s six free)
                  (λ q. cc (subst (λ u. GoMap.lookup r.nodes u ≡ none) q new, old.listed))
                ∙ old.listed;
          }
    ]

    pub with_service-IsConsistent : IsConsistent after
    with_service-IsConsistent =
        let g = Grown-at_path (path_of s) r.tree s r.cells six c.shape free in
        record {
          shape = g.0;
          distinct = GoMap.insert-Distinct r.nodes s.uuid (address r s six free) c.distinct;
          counted =
              g.1
              ∙ ap suc c.counted
              ∙ sym (length-insert r.nodes s.uuid (address r s six free) new);
          registered = after-registered;
          owned = after-IsOwned;
        }

exists_at_path :
    (p : List Text) (n : Node) (s : Service) (h : Cells) (a : ℕ)
    → length p ≡ 6
    → find p n ≡ some a
    → Tree.add p n s h ≡ (err exists, n, h)
exists_at_path [] n s h a e taken = absurd (omega arith)
exists_at_path (k ∷ p) n s h a e taken = add_exists k p n s h a taken

-- A UUID that is registered is refused.
pub add_known :
    (r : Registry) (s : Service) (a : ℕ)
    → GoMap.lookup r.nodes s.uuid ≡ some a
    → add r s ≡ (err exists, r)
unfolding add
add_known r s a known = rw known

-- So is a service whose path is taken.
pub add_taken :
    (r : Registry) (s : Service) (a : ℕ)
    → length (path_of s) ≡ 6
    → GoMap.lookup r.nodes s.uuid ≡ none
    → find (path_of s) r.tree ≡ some a
    → add r s ≡ (err exists, r)
unfolding add
add_taken r s a six new taken = rw (new, exists_at_path (path_of s) r.tree s r.cells a six taken)

-- `Add` of a service whose key has six labels keeps the registry consistent, whether it succeeds
-- or not.
pub add-IsConsistent :
    (r : Registry) (s : Service)
    → IsConsistent r
    → length (path_of s) ≡ 6
    → IsConsistent (add r s).1
add-IsConsistent r s c six = elim (Option-cases (GoMap.lookup r.nodes s.uuid)) [
  | inr (a, known) ↦ rw (add_known r s a known) c
  | inl new ↦ elim (Option-cases (find (path_of s) r.tree)) [
    | inr (a, taken) ↦ rw (add_taken r s a six new taken) c
    | inl free ↦
        rw (add-eq-with_service r s six free new) (with_service-IsConsistent r s six free c new)
  ]
]
