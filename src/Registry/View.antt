-- ===== src/Registry/View.antt =====
-- What a registry promises: a map from UUIDs to services. Each method against that map.
use mathlib.Core.Path.{subst}
use skydns.Shared.{
  ℕ, ℤ, Text, text_Comparable, text_eq, text_eq_iff, ◌++◌, map, Option, none, some, length, set,
  get_elem?-set_self, get_elem?-set_ne, lt-length_of_get_elem?, ◌≡◌, ◌≢◌, ◌⊎◌, refl, ap, sym, ◌∙◌,
  inl, inr, Option-cases, Bool, true, false, if◌then◌else◌, Bool-cases, leb,
}
use skydns.Shared.GoMap
use skydns.Msg.{Service, Callback, remaining_ttl}
use skydns.Registry.Tree.{Cells, ok, err, exists, not_exists}
use skydns.Registry.Tree.Find.{find}
use skydns.Registry.Query.{cell}
use skydns.Registry.{
  Registry, path_of, add, remove_service, remove_uuid, update_ttl, add_callback, get_uuid,
  callbacks,
}
use skydns.Registry.Consistency.{IsConsistent}
use skydns.Registry.Consistency.Add.{
  address, with_service, add-eq-with_service, add_known, add_taken, kept_cell, new_cell,
}
use skydns.Registry.Consistency.Remove.{remove_uuid-eq, node_of}

abbrev pub held_at : Option ℕ → Cells → Option Service
held_at none h = none
held_at (some a) h = cell h a

-- The service of a UUID.
unfoldable pub view : Registry → Text → Option Service
view r u = held_at (GoMap.lookup r.nodes u) r.cells

pub view_registered :
    (r : Registry) (c : IsConsistent r) (u : Text) (a : ℕ) (known : GoMap.lookup r.nodes u ≡ some a)
    → view r u ≡ some (c.registered u a known).service
unfolding view
view_registered r c u a known = rw known (c.registered u a known).held

pub view-eq-none :
    (r : Registry) → IsConsistent r → (u : Text) → view r u ≡ none → GoMap.lookup r.nodes u ≡ none
view-eq-none r c u e = elim (Option-cases (GoMap.lookup r.nodes u)) [
  | inl unknown ↦ unknown
  | inr (a, known) ↦ absurd (cc (view_registered r c u a known))
]

-- Which services can be added: the UUID is new, and so is the path in the tree.
module _ (r : Registry) (c : IsConsistent r) (s : Service) (six : length (path_of s) ≡ 6) where
  view-with_service :
      (free : find (path_of s) r.tree ≡ none) (u : Text)
      → view (with_service r s (address r s six free)) u
        ≡ (if text_eq s.uuid u then some s else view r u)
  unfolding view
  view-with_service free u =
      rw (GoMap.lookup-insert r.nodes s.uuid u (address r s six free))
        (elim (Bool-cases (text_eq s.uuid u)) [
          | inl same ↦ rw same (new_cell r s six free)
          | inr other ↦ rw other (elim (Option-cases (GoMap.lookup r.nodes u)) [
            | inl unknown ↦ rw unknown
            | inr (a, known) ↦
                let old = c.registered u a known in
                rw known (kept_cell r s six free a old.service old.held ∙ sym old.held)
          ])
        ])

  -- In a consistent registry, for a service whose key has six labels: `Add` succeeds exactly when the UUID is new and no node lies at the service's path; it then
  -- adds the service under its UUID and changes no other; otherwise it says `exists`, and the
  -- registry is as it was.
  pub add-view :
      ((view r s.uuid ≡ none)
        × (find (path_of s) r.tree ≡ none)
        × ((add r s).0 ≡ ok tt)
        × ((u : Text) → view (add r s).1 u ≡ (if text_eq s.uuid u then some s else view r u)))
      ⊎ (((view r s.uuid ≢ none) ⊎ (find (path_of s) r.tree ≢ none)) × (add r s ≡ (err exists, r)))
  add-view = elim (Option-cases (GoMap.lookup r.nodes s.uuid)) [
    | inr (a, known) ↦
        inr (inl (λ e. cc (view_registered r c s.uuid a known)), add_known r s a known)
    | inl new ↦ elim (Option-cases (find (path_of s) r.tree)) [
      | inr (a, taken) ↦ inr (inr (λ e. cc), add_taken r s a six new taken)
      | inl free ↦
          let e = add-eq-with_service r s six free new in
          inl (unfold view in rw new, free, rw e, λ u. rw e (view-with_service free u))
    ]
  ]

view-remove_service :
    (r : Registry) (s : Service) (u : Text)
    → view (remove_service r s).1 u ≡ (if text_eq s.uuid u then none else view r u)
unfolding view remove_service
view-remove_service r s u = rw (GoMap.lookup-delete r.nodes s.uuid u) (held-if (text_eq s.uuid u))
  where
    held-if :
        (b : Bool)
        → held_at (if b then none else GoMap.lookup r.nodes u) r.cells
          ≡ (if b then none else held_at (GoMap.lookup r.nodes u) r.cells)
    held-if true = refl
    held-if false = refl

one_service :
    (h : Cells) (a b : ℕ) (s t : Service) → a ≡ b → cell h a ≡ some s → cell h b ≡ some t → s ≡ t
one_service h a b s t e at_a at_b = cc (subst (λ x. cell h x ≡ some s) e at_a, at_b)

-- A write to one registered node.
view-stored :
    (r : Registry) (c : IsConsistent r) (uuid u : Text) (a : ℕ) (s : Service)
    → GoMap.lookup r.nodes uuid ≡ some a
    → view (record r { cells = set r.cells a s }) u ≡ (if text_eq uuid u then some s else view r u)
unfolding view
view-stored r c uuid u a s known = elim (Bool-cases (text_eq uuid u)) [
  | inl same ↦
      let eq = (text_eq_iff uuid u).0 same in
      let known' = subst (λ k. GoMap.lookup r.nodes k ≡ some a) eq known in
      let old = c.registered u a known' in
      rw (same, known')
        (get_elem?-set_self r.cells a s (lt-length_of_get_elem? r.cells a old.service old.held))
  | inr other ↦ rw other (elim (Option-cases (GoMap.lookup r.nodes u)) [
    | inl unknown ↦ rw unknown
    | inr (b, known') ↦
        let old = c.registered uuid a known in
        let here = c.registered u b known' in
        rw known' (
          get_elem?-set_ne r.cells a b s (λ e. cc (
            other,
            (text_eq_iff uuid u).1 (
                sym old.named
                ∙ ap (λ (t : Service). t.uuid)
                    (one_service r.cells a b old.service here.service e old.held here.held)
                ∙ here.named),
          )))
  ])
]

module _ (r : Registry) (c : IsConsistent r) where
  -- In a consistent registry, `RemoveUUID` succeeds exactly on a registered UUID, takes its service away and no other, and
  -- calls the service's callbacks; otherwise it says `not_exists`, and the registry is as it was.
  pub remove_uuid-view :
      (uuid : Text)
      → ((s : Service) × (view r uuid ≡ some s)
          × ((remove_uuid r uuid).0 ≡ ok tt)
          × ((u : Text)
              → view (remove_uuid r uuid).1 u ≡ (if text_eq uuid u then none else view r u))
          × ((remove_uuid r uuid).1.calls ≡ r.calls ++ map (λ k. (k.1, s)) (callbacks s.callback)))
        ⊎ ((view r uuid ≡ none) × (remove_uuid r uuid ≡ (err not_exists, r)))
  remove_uuid-view uuid = elim (Option-cases (GoMap.lookup r.nodes uuid)) [
    | inl unknown ↦ inr (unfold view in rw unknown, unfold remove_uuid in rw unknown)
    | inr (a, known) ↦
        let n = node_of r uuid a c known in
        let e = remove_uuid-eq r uuid a c known in
        inl (
          n.service,
          view_registered r c uuid a known,
          rw e,
          λ u. rw e (
              subst
                (λ k.
                  view (remove_service r n.service).1 u ≡ (if text_eq k u then none else view r u))
                n.named (view-remove_service r n.service u)),
          rw e (unfold remove_service in refl),
        )
  ]

  -- In a consistent registry, `UpdateTTL` succeeds exactly on a registered UUID, and writes its TTL and its expiry alone.
  pub update_ttl-view :
      (uuid : Text) (ttl expires : ℕ)
      → ((s : Service) × (view r uuid ≡ some s)
          × ((update_ttl r uuid ttl expires).0 ≡ ok tt)
          × ((u : Text)
              → view (update_ttl r uuid ttl expires).1 u ≡ (
                  if text_eq uuid u
                  then some (record s { ttl = ttl; expires = expires })
                  else view r u)))
        ⊎ ((view r uuid ≡ none) × (update_ttl r uuid ttl expires ≡ (err not_exists, r)))
  update_ttl-view uuid ttl expires = elim (Option-cases (GoMap.lookup r.nodes uuid)) [
    | inl unknown ↦ inr (unfold view in rw unknown, unfold update_ttl in rw unknown)
    | inr (a, known) ↦
        let n = c.registered uuid a known in
        let s' = record n.service { ttl = ttl; expires = expires } in
        inl (
          n.service,
          view_registered r c uuid a known,
          unfold update_ttl in rw (known, n.held),
          λ u. unfold update_ttl in rw (known, n.held) (view-stored r c uuid u a s' known),
        )
  ]

  -- In a consistent registry, `AddCallback` succeeds exactly on a registered service, and sets the callback of its own UUID
  -- in the service's callbacks alone.
  pub add_callback-view :
      (t : Service) (cb : Callback)
      → ((s : Service) × (view r t.uuid ≡ some s)
          × ((add_callback r t cb).0 ≡ ok tt)
          × ((u : Text)
              → view (add_callback r t cb).1 u ≡ (
                  if text_eq t.uuid u
                  then some (record s {
                    callback = some (GoMap.insert (callbacks s.callback) cb.uuid cb);
                  })
                  else view r u)))
        ⊎ ((view r t.uuid ≡ none) × (add_callback r t cb ≡ (err not_exists, r)))
  add_callback-view t cb = elim (Option-cases (GoMap.lookup r.nodes t.uuid)) [
    | inl unknown ↦ inr (unfold view in rw unknown, unfold add_callback in rw unknown)
    | inr (a, known) ↦
        let n = c.registered t.uuid a known in
        let s' = record n.service {
          callback = some (GoMap.insert (callbacks n.service.callback) cb.uuid cb);
        } in
        inl (
          n.service,
          view_registered r c t.uuid a known,
          unfold add_callback in rw (known, n.held),
          λ u. unfold add_callback in rw (known, n.held) (view-stored r c t.uuid u a s' known),
        )
  ]

  -- In a consistent registry, `GetUUID` returns the service of a registered UUID with its `RemainingTTL` as its TTL, if that
  -- is at least 1, and otherwise says `not_exists`; it writes that TTL to the service.
  pub get_uuid-view :
      (seconds : ℤ → ℕ) (now : ℕ) (uuid : Text)
      → ((s : Service) × (view r uuid ≡ some s)
          × ((get_uuid seconds now r uuid).0 ≡ (
              if leb 1 (remaining_ttl seconds now s)
              then ok (record s { ttl = remaining_ttl seconds now s })
              else err not_exists))
          × ((u : Text)
              → view (get_uuid seconds now r uuid).1 u ≡ (
                  if text_eq uuid u
                  then some (record s { ttl = remaining_ttl seconds now s })
                  else view r u)))
        ⊎ ((view r uuid ≡ none) × (get_uuid seconds now r uuid ≡ (err not_exists, r)))
  get_uuid-view seconds now uuid = elim (Option-cases (GoMap.lookup r.nodes uuid)) [
    | inl unknown ↦ inr (unfold view in rw unknown, unfold get_uuid in rw unknown)
    | inr (a, known) ↦
        let n = c.registered uuid a known in
        let s' = record n.service { ttl = remaining_ttl seconds now n.service } in
        inl (
          n.service,
          view_registered r c uuid a known,
          unfold get_uuid in rw (known, n.held),
          λ u. unfold get_uuid in rw (known, n.held) (view-stored r c uuid u a s' known),
        )
  ]
