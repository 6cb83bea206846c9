-- ===== src/Registry.antt =====
-- registry/registry.go: the `DefaultRegistry` and its methods. Each method holds the mutex for its
-- whole run, so it is a function from the state to its result and the next state.
pub mod Tree
pub mod Nsec
pub mod Query
pub mod Key
pub mod Consistency
pub mod Reach
pub mod View
pub mod Panics
pub mod Lookup
pub mod Expiry
mod Tests
use mathlib.Core.Option
use skydns.Shared.{
  ℕ, ◌-◌, ℤ, pos, Text, txt, Bool, false, true, ltb, leb, List, [], ◌∷◌, ◌++◌, reverse, map, not,
  ◌&&◌, Option, none, some, length, set, replicate, if◌then◌else◌, text_Comparable, dot, join,
  split, hyphenate, to_lower, trim_suffix,
}
use skydns.Shared.GoMap
use skydns.Msg.{Service, Callback, remaining_ttl}
use skydns.Registry.Tree.{
  Error, exists, not_exists, panic, Result, ok, err, Node, size, new_node, Cells,
}
use skydns.Registry.Tree
use skydns.Registry.Nsec.{DenialReference}
use skydns.Registry.Nsec
use skydns.Registry.Query
use skydns.Registry.Query.{star, cell, write}

-- `nodes` maps a UUID to the address of its node; `calls` are the calls of `Callback.Call` made so
-- far, with the service that each was given.
pub record Registry : Type 0 where
  pub tree : Node
  pub nodes : List (Text × ℕ)
  pub nsec : List DenialReference
  pub dnssec : Bool
  pub cells : Cells
  pub calls : List (Callback × Service)

-- `New()`: the root's own cell is the first.
unfoldable pub new : Registry
new = record {
  tree = new_node 0 [];
  nodes = [];
  nsec = [];
  dnssec = false;
  cells = skydns.Msg.zero_service ∷ [];
  calls = [];
}

-- `getRegistryKey(s)`
unfoldable pub get_registry_key : Service → Text
unfolding to_lower join hyphenate
get_registry_key s = to_lower (
    join (s.uuid ∷ hyphenate s.host ∷ s.region ∷ hyphenate s.version ∷ s.name ∷ s.environment ∷ []))

-- The path of a service in the tree, from the last label of its key.
unfoldable pub path_of : Service → List Text
unfolding get_registry_key split
path_of s = reverse (split (get_registry_key s))

-- The names that a service holds in the list for denials of existence.
abbrev pub denial_names : Service → List Text
denial_names s =
    (s.region ++ dot ∷ (s.version ++ dot ∷ (s.name ++ dot ∷ s.environment)))
    ∷ (s.version ++ dot ∷ (s.name ++ dot ∷ s.environment))
    ∷ (s.name ++ dot ∷ s.environment)
    ∷ s.environment
    ∷ []

abbrev pub add_names : List Text → List DenialReference → List DenialReference
add_names [] nsec = nsec
add_names (key ∷ keys) nsec = add_names keys (Nsec.add_nsec nsec key)

abbrev pub remove_names : List Text → List DenialReference → List DenialReference
remove_names [] nsec = nsec
remove_names (key ∷ keys) nsec = remove_names keys (Nsec.remove_nsec nsec key)

abbrev pub added : Registry → Service → Result ℕ × Node × Cells → Result (Unit {0}) × Registry
added r s (ok a, tree, cells) = (
  ok tt,
  record r {
    tree = tree;
    cells = cells;
    nodes = GoMap.insert r.nodes s.uuid a;
    nsec = if r.dnssec then add_names (denial_names s) r.nsec else r.nsec;
  },
)
added r s (err e, tree, cells) = (err e, record r { tree = tree; cells = cells })

abbrev pub if_new :
    Option ℕ → Registry → Result (Unit {0}) × Registry → Result (Unit {0}) × Registry
if_new (some _) r new_state = (err exists, r)
if_new none r new_state = new_state

-- `r.Add(s)`
unfoldable pub add : Registry → Service → Result (Unit {0}) × Registry
add r s = if_new (GoMap.lookup r.nodes s.uuid) r (added r s (Tree.add (path_of s) r.tree s r.cells))

abbrev pub callbacks : Option (List (Text × Callback)) → List (Text × Callback)
callbacks none = []
callbacks (some m) = m

-- `r.removeService(s)`
unfoldable pub remove_service : Registry → Service → Result (Unit {0}) × Registry
remove_service r s =
    let (result, tree) = Tree.remove (path_of s) r.tree in
    (
      result,
      record r {
        tree = tree;
        nodes = GoMap.delete r.nodes s.uuid;
        nsec = if r.dnssec then remove_names (denial_names s) r.nsec else r.nsec;
        calls = r.calls ++ map (λ c. (c.1, s)) (callbacks s.callback);
      },
    )

-- What a method does with the service of a UUID. An address without a cell would be a nil pointer.
abbrev pub at_cell {ℓ} :
    {A : Type ℓ} → Registry → Option Service → (Service → Result A × Registry) → Result A × Registry
at_cell r none f = (err panic, r)
at_cell r (some s) f = f s

abbrev pub at_node {ℓ} :
    {A : Type ℓ} → Registry → Option ℕ → (ℕ → Service → Result A × Registry) → Result A × Registry
at_node r none f = (err not_exists, r)
at_node r (some a) f = at_cell r (cell r.cells a) (f a)

-- `r.RemoveUUID(uuid)`; `r.Remove(s)` is the same at the UUID of `s`.
unfoldable pub remove_uuid : Registry → Text → Result (Unit {0}) × Registry
remove_uuid r uuid = at_node r (GoMap.lookup r.nodes uuid) (λ a s. remove_service r s)

unfoldable pub remove : Registry → Service → Result (Unit {0}) × Registry
remove r s = at_node r (GoMap.lookup r.nodes s.uuid) (λ a n. remove_service r n)

abbrev pub stored : Registry → ℕ → Service → Registry
stored r a s = record r { cells = set r.cells a s }

-- `r.UpdateTTL(uuid, ttl, expires)`
unfoldable pub update_ttl : Registry → Text → ℕ → ℕ → Result (Unit {0}) × Registry
update_ttl r uuid ttl expires =
    at_node r (GoMap.lookup r.nodes uuid)
      (λ a s. (ok tt, stored r a (record s { ttl = ttl; expires = expires })))

-- `r.AddCallback(s, c)`
unfoldable pub add_callback : Registry → Service → Callback → Result (Unit {0}) × Registry
add_callback r s c = at_node r (GoMap.lookup r.nodes s.uuid) (λ a n. (
  ok tt,
  stored r a (record n { callback = some (GoMap.insert (callbacks n.callback) c.uuid c) }),
))

abbrev pub expired_uuid : ℕ → Option Service → List Text
expired_uuid now none = []
expired_uuid now (some s) = if not s.no_expire && ltb s.expires now then s.uuid ∷ [] else []

-- The loop over `r.nodes`.
unfoldable pub expired_in : ℕ → Cells → List (Text × ℕ) → List Text
expired_in now cells [] = []
expired_in now cells ((k, a) ∷ m) = expired_uuid now (cell cells a) ++ expired_in now cells m

-- `r.GetExpired()`
unfoldable pub get_expired : ℕ → Registry → List Text
unfolding expired_in
get_expired now r = expired_in now r.cells r.nodes

-- `r.Len()`
unfoldable pub len : Registry → ℤ
len r = size r.tree

-- `r.DNSSEC(b)`
unfoldable pub set_dnssec : Registry → Bool → Bool × Registry
set_dnssec r b = (r.dnssec, record r { dnssec = b })

-- `r.GetNSEC(key)`; `none` is an index panic.
unfoldable pub get_nsec : Registry → Text → Option (Text × Text)
get_nsec r key = Nsec.get_nsec r.nsec key

-- The pattern that a domain stands for: six labels, where those left out are `*`.
-- `split_domain_name` is `dns.SplitDomainName`.
unfoldable pub pattern_of : (Text → List Text) → Text → List Text
pattern_of split_domain_name domain =
    let tree = split_domain_name (trim_suffix (to_lower domain) (dot ∷ [])) in
    if ltb (length tree) 6 then replicate (6 - length tree) star ++ tree else tree

module _ (seconds : ℤ → ℕ) (now : ℕ) where
  -- `r.GetUUID(uuid)`
  unfoldable pub get_uuid : Registry → Text → Result Service × Registry
  get_uuid r uuid = at_node r (GoMap.lookup r.nodes uuid) (λ a s.
      let s' = record s { ttl = remaining_ttl seconds now s } in
      (if leb 1 s'.ttl then ok s' else err not_exists, stored r a s'))

  -- `r.Get(domain)`
  unfoldable pub get : (Text → List Text) → Registry → Text → Result (List Service) × Registry
  get split_domain_name r domain =
      let p = reverse (pattern_of split_domain_name domain) in
      let (found, cells) = Query.get seconds now p r.tree r.cells in
      (found, record r { cells = cells })
