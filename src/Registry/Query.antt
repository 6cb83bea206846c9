-- ===== src/Registry/Query.antt =====
-- `get` of registry/registry.go: the services of the tree that match a pattern. The loops over the
-- leaves visit them in the order of the list. `seconds` converts a duration (Msg.antt), and `now`
-- is the instant that all calls of `time.Now` in one call of `get` read.
pub mod Spec
pub mod Enumerate
pub mod Results
pub mod Members
use skydns.Shared.{
  ℕ, ℤ, Text, txt, Bool, false, true, ltb, text_eq, text_Comparable, List, [], ◌∷◌, ◌++◌, Option,
  none, some, length, set, get_elem?, if◌then◌else◌,
}
use skydns.Shared.GoMap
use skydns.Msg.{Service, update_ttl}
use skydns.Registry.Tree.{
  Error, not_exists, panic, Result, ok, err, Node, leaves, addr, Cells, Children,
}

abbrev pub star : Text
star = txt "*"

-- The cell of a node, and a write to it.
abbrev pub cell : Cells → ℕ → Option Service
cell h a = get_elem? h a

abbrev pub write : (Service → Service) → Option Service → Cells → ℕ → Cells
write f none h a = h
write f (some s) h a = set h a (f s)

-- The service, if its TTL is above 1.
abbrev pub listed : Option Service → List Service
listed none = []
listed (some s) = if ltb 1 s.ttl then s ∷ [] else []

abbrev pub Found : Type 0
Found = Result (List Service) × Cells

abbrev collect : Result (List Service) → List Service × Bool → List Service × Bool
collect (ok s) (services, success) = (s ++ services, true)
collect (err e) (services, success) = (services, success)

-- The loop over the leaves above the bottom: an error of a child is skipped.
get_each : (Node → Cells → Found) → Children → Cells → (List Service × Bool) × Cells
get_each get_child [] h = (([], false), h)
get_each get_child ((k, l) ∷ ls) h =
    let (r, h1) = get_child l h in let (rest, h2) = get_each get_child ls h1 in (collect r rest, h2)

abbrev pub found_any : (List Service × Bool) × Cells → Found
found_any ((services, true), h) = (ok services, h)
found_any ((services, false), h) = (err not_exists, h)

abbrev pub descend : Option Node → (Node → Cells → Found) → Cells → Found
descend none get_child h = (err not_exists, h)
descend (some c) get_child h = get_child c h

abbrev pub star_at_bottom : Children → List Service × Cells → Cells → Found
star_at_bottom [] visited h = (err not_exists, h)
star_at_bottom (_ ∷ _) (services, h1) h = (ok services, h1)

module _ (seconds : ℤ → ℕ) (now : ℕ) where
  -- `s.value.UpdateTTL()` and the test on the TTL.
  unfoldable pub visit : ℕ → Cells → List Service × Cells
  unfolding update_ttl
  visit a h = let h1 = write (update_ttl seconds now) (cell h a) h a in (listed (cell h1 a), h1)

  -- The loop over the leaves at the bottom.
  visit_each : Children → Cells → List Service × Cells
  unfolding visit
  visit_each [] h = ([], h)
  visit_each ((k, s) ∷ ls) h =
      let (found, h1) = visit (addr s) h in let (more, h2) = visit_each ls h1 in (found ++ more, h2)

  unfoldable pub visit_one : Option Node → Cells → Found
  unfolding visit
  visit_one none h = (err not_exists, h)
  visit_one (some s) h = let (services, h1) = visit (addr s) h in (ok services, h1)

  -- `n.get(tree)`, with the labels of `tree` from its last one.
  unfoldable pub get : List Text → Node → Cells → Found
  unfolding visit_each visit_one get_each
  get [] n h = (err panic, h)
  get (k ∷ []) n h =
      if text_eq k star
      then star_at_bottom (leaves n) (visit_each (leaves n) h) h
      else visit_one (GoMap.lookup (leaves n) k) h
  get (k ∷ j ∷ rest) n h =
      let each = found_any (get_each (get (j ∷ rest)) (leaves n) h) in
      let one = descend (GoMap.lookup (leaves n) k) (get (j ∷ rest)) h in
      if text_eq k star then each else one
