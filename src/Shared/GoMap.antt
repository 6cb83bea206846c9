-- ===== src/Shared/GoMap.antt =====
-- Go's `map[K]V` as an association list. A read of a missing key is `none`, `delete` of a missing
-- key changes nothing, and `range` visits the entries in the order of the list.
use Prim.Native.Nat.{ℕ, ◌+◌, ◌≤◌}
use mathlib.Core.Path.{◌≡◌, refl}
use mathlib.Core.Logic.{◌≢◌, inl, inr}
use mathlib.Core.Option.{Option, none, some}
use mathlib.Core.List.{List, [], ◌∷◌}
use native.Mathlib.Omega.{arith}
use skydns.Shared.Tests.{Comparable, ◌==◌, if◌then◌else◌, Bool-cases}
use skydns.Shared.Lists.{All}

module _ {ℓ κ} {K : Type ℓ} {V : Type κ} where
  module _ ⦃e : Comparable K⦄ where
    -- `m[k]`
    unfoldable pub lookup : List (K × V) → K → Option V
    lookup [] k = none
    lookup ((j, v) ∷ m) k = if j == k then some v else lookup m k

    -- `m[k] = v`
    unfoldable pub insert : List (K × V) → K → V → List (K × V)
    insert [] k v = (k, v) ∷ []
    insert ((j, w) ∷ m) k v = if j == k then (j, v) ∷ m else (j, w) ∷ insert m k v

    -- `delete(m, k)`
    unfoldable pub delete : List (K × V) → K → List (K × V)
    delete [] k = []
    delete ((j, w) ∷ m) k = let rest = delete m k in if j == k then rest else (j, w) ∷ rest

    -- Each key stands once.
    abbrev pub Distinct : List (K × V) → Type κ
    Distinct [] = Unit
    Distinct ((k, v) ∷ m) = (lookup m k ≡ none) × Distinct m

    pub lookup-insert :
        (m : List (K × V)) (k j : K) (v : V)
        → lookup (insert m k v) j ≡ (if k == j then some v else lookup m j)
    unfolding lookup insert
    lookup-insert [] k j v = refl
    lookup-insert ((i, w) ∷ m) k j v =
        ground (arith, e.same_iff i k, e.same_iff i j, e.same_iff k j, lookup-insert m k j v)

    pub lookup-delete :
        (m : List (K × V)) (k j : K) → lookup (delete m k) j ≡ (if k == j then none else lookup m j)
    unfolding lookup delete
    lookup-delete [] k j = ground arith
    lookup-delete ((i, w) ∷ m) k j =
        ground (arith, e.same_iff i k, e.same_iff i j, e.same_iff k j, lookup-delete m k j)

    pub lookup-insert_self : (m : List (K × V)) (k : K) (v : V) → lookup (insert m k v) k ≡ some v
    lookup-insert_self m k v = ground (arith, lookup-insert m k k v, e.same_iff k k)

    pub lookup-insert_ne :
        (m : List (K × V)) (k j : K) (v : V) → k ≢ j → lookup (insert m k v) j ≡ lookup m j
    lookup-insert_ne m k j v h = ground (arith, lookup-insert m k j v, e.same_iff k j)

    pub lookup-delete_self : (m : List (K × V)) (k : K) → lookup (delete m k) k ≡ none
    lookup-delete_self m k = ground (arith, lookup-delete m k k, e.same_iff k k)

    pub lookup-delete_ne : (m : List (K × V)) (k j : K) → k ≢ j → lookup (delete m k) j ≡ lookup m j
    lookup-delete_ne m k j h = ground (arith, lookup-delete m k j, e.same_iff k j)

    pub insert-Distinct : (m : List (K × V)) (k : K) (v : V) → Distinct m → Distinct (insert m k v)
    unfolding lookup insert
    insert-Distinct [] k v d = (refl, tt)
    insert-Distinct ((j, w) ∷ m) k v d =
        ground (arith, insert-Distinct m k v, lookup-insert m k j v, e.same_iff j k, e.same_iff k j)

    pub delete-Distinct : (m : List (K × V)) (k : K) → Distinct m → Distinct (delete m k)
    unfolding lookup delete
    delete-Distinct [] k d = tt
    delete-Distinct ((j, w) ∷ m) k d =
        ground (arith, delete-Distinct m k, lookup-delete m k j, e.same_iff j k, e.same_iff k j)

    pub delete_absent : (m : List (K × V)) (k : K) → lookup m k ≡ none → delete m k ≡ m
    unfolding lookup delete
    delete_absent [] k h = refl
    delete_absent ((j, w) ∷ m) k h = ground (arith, delete_absent m k)

    pub insert_same : (m : List (K × V)) (k : K) (v : V) → lookup m k ≡ some v → insert m k v ≡ m
    unfolding lookup insert
    insert_same [] k v h = cc
    insert_same ((j, w) ∷ m) k v h = ground (arith, insert_same m k v)

    pub delete-insert : (m : List (K × V)) (k : K) (v : V) → delete (insert m k v) k ≡ delete m k
    unfolding insert delete
    delete-insert [] k v = ground (arith, e.same_iff k k)
    delete-insert ((j, w) ∷ m) k v = ground (arith, delete-insert m k v, e.same_iff j k)

    -- What holds of every value of the map.
    pub All-lookup {ρ} :
        (P : V → Type ρ) (m : List (K × V)) (k : K) (v : V)
        → All (λ x. P x.1) m
        → lookup m k ≡ some v
        → P v
    unfolding lookup
    All-lookup P [] k v a h = cc
    All-lookup P ((j, w) ∷ m) k v (p, a) h = elim (Bool-cases (j == k)) [
      | inl same ↦ ground (arith)
      | inr other ↦ All-lookup P m k v a (ground arith)
    ]

    pub All-insert {ρ} :
        (P : V → Type ρ) (m : List (K × V)) (k : K) (v : V)
        → All (λ x. P x.1) m
        → P v
        → All (λ x. P x.1) (insert m k v)
    unfolding insert
    All-insert P [] k v a p = (p, tt)
    All-insert P ((j, w) ∷ m) k v (q, a) p = elim (Bool-cases (j == k)) [
      | inl same ↦ rw same (p, a)
      | inr other ↦ rw other (q, All-insert P m k v a p)
    ]

    pub All-delete {ρ} :
        (P : V → Type ρ) (m : List (K × V)) (k : K)
        → All (λ x. P x.1) m
        → All (λ x. P x.1) (delete m k)
    unfolding delete
    All-delete P [] k a = tt
    All-delete P ((j, w) ∷ m) k (q, a) = elim (Bool-cases (j == k)) [
      | inl same ↦ rw same (All-delete P m k a)
      | inr other ↦ rw other (q, All-delete P m k a)
    ]

  -- The sum of a measure over the values.
  unfoldable pub sum_by : (V → ℕ) → List (K × V) → ℕ
  sum_by f [] = 0
  sum_by f ((k, v) ∷ m) = f v + sum_by f m

  module _ ⦃e : Comparable K⦄ (f : V → ℕ) where
    pub sum_by-insert_new :
        (m : List (K × V)) (k : K) (v : V)
        → lookup m k ≡ none
        → sum_by f (insert m k v) ≡ f v + sum_by f m
    unfolding lookup insert sum_by
    sum_by-insert_new [] k v h = refl
    sum_by-insert_new ((j, w) ∷ m) k v h = ground (arith, sum_by-insert_new m k v)

    pub sum_by-insert_old :
        (m : List (K × V)) (k : K) (u v : V)
        → lookup m k ≡ some u
        → sum_by f (insert m k v) + f u ≡ f v + sum_by f m
    unfolding lookup insert sum_by
    sum_by-insert_old [] k u v h = cc
    sum_by-insert_old ((j, w) ∷ m) k u v h = ground (arith, sum_by-insert_old m k u v)

    pub sum_by-delete :
        (m : List (K × V)) (k : K) (u : V)
        → Distinct m
        → lookup m k ≡ some u
        → sum_by f (delete m k) + f u ≡ sum_by f m
    unfolding lookup delete sum_by
    sum_by-delete [] k u d h = cc
    sum_by-delete ((j, w) ∷ m) k u d h =
        ground (arith, sum_by-delete m k u, delete_absent m k, e.same_iff j k)

    pub le-sum_by : (m : List (K × V)) (k : K) (u : V) → lookup m k ≡ some u → f u ≤ sum_by f m
    unfolding lookup sum_by
    le-sum_by [] k u h = cc
    le-sum_by ((j, w) ∷ m) k u h = ground (arith, le-sum_by m k u)
