-- ===== src/Server/RoundRobin.antt =====
-- server/server.go: the round robin of `ServeDNS` over the address records. `id k` is what the k-th
-- call of `dns.Id` returns, a uint16.
pub mod Shuffle
use skydns.Shared.{
  ℕ, zero, suc, ◌+◌, ◌*◌, ◌%◌, ◌^◌, Bool, ltb, nat_eq, List, Option, none, some, length, get_elem?,
  set, if◌then◌else◌,
}

-- `if q == p { p = (p + 1) % l }`
abbrev pub other_place : ℕ → ℕ → ℕ → ℕ
other_place l q p = if nat_eq q p then (p + 1) % l else p

-- `l * (dns.Id()%4 + 1)` in a uint16, which each round computes anew.
abbrev pub rounds : (ℕ → ℕ) → ℕ → ℕ → ℕ
rounds id l k = l * (id k % 4 + 1) % 2 ^ 16

module _ {ℓ} {A : Type ℓ} where
  -- `records[q], records[p] = records[p], records[q]`; `none` is an index out of range.
  abbrev pub exchanged : Option A → Option A → List A → ℕ → ℕ → Option (List A)
  exchanged (some x) (some y) l q p = some (set (set l q y) p x)
  exchanged _ _ l q p = none

  abbrev pub swap : List A → ℕ → ℕ → Option (List A)
  swap l q p = exchanged (get_elem? l q) (get_elem? l p) l q p

  module _ (id : ℕ → ℕ) where
    abbrev pub swapped_then : Option (List A) → (List A → Option (List A)) → Option (List A)
    swapped_then none next = none
    swapped_then (some l) next = next l

    -- The loop in its j-th round, after `k` calls of `dns.Id`.
    unfoldable pub swap_each : ℕ → ℕ → ℕ → ℕ → List A → Option (List A)
    swap_each zero l j k records = none
    swap_each (suc fuel) l j k records =
        let q = id (k + 1) % l in
        let p = other_place l q (id (k + 2) % l) in
        let continue = swapped_then (swap records q p) (swap_each fuel l (suc j) (k + 3)) in
        if ltb j (rounds id l k) then continue else some records

    abbrev pub swap_two : List A → Option (List A)
    swap_two records = if nat_eq (id 0 % 2) 0 then swap records 0 1 else some records

    -- The `switch` on the number of records.
    abbrev pub shuffle_by : ℕ → List A → Option (List A)
    shuffle_by l records =
        if nat_eq l 1
        then some records
        else if nat_eq l 2
        then swap_two records
        else swap_each (4 * l + 1) l 0 0 records

    unfoldable pub shuffle : List A → Option (List A)
    unfolding swap_each
    shuffle records = shuffle_by (length records % 2 ^ 16) records
