-- ===== src/Server/SingleFlight/Tests.antt =====
-- Two threads that want one signature, and the theorems applied to them.
use skydns.Shared.{
  ℕ, ◌+◌, ◌<◌, Text, txt, text_Comparable, Bool, true, Option, some, ◌≡◌, ◌≢◌, refl, arith,
}
use skydns.Shared.GoMap
use skydns.Server.SingleFlight.{
  returned, Group, new_group, Step, begins, joins, computes, cleans, returns, wakes, Reach, here,
  later,
}
use skydns.Server.SingleFlight.Progress.{Ends, work, Reach-Ends}
use skydns.Server.SingleFlight.Results.{Reach-IsShared}

abbrev key : ℕ → Text
key i = txt "k"

abbrev fn : ℕ → ℕ
fn i = 40 + i

-- The first begins, and the second waits for it.
unfoldable joined : (g : Group ℕ) × Reach 2 key fn g
unfolding GoMap.lookup GoMap.insert
joined =
    (_, later (later here (begins 0 (omega arith) refl refl)) (joins 1 0 (omega arith) refl refl))

Reach-Ends_example :
    Ends 2 key fn joined.0
    × ((h : Group ℕ) → Step 2 key fn joined.0 h → work 2 key fn h < work 2 key fn joined.0)
    × (work 2 key fn new_group ≡ 8)
Reach-Ends_example = Reach-Ends 2 key fn joined.0 joined.1

-- The first computes, cleans up and returns, and the second wakes.
unfoldable woken : (g : Group ℕ) × Reach 2 key fn g
unfolding GoMap.lookup GoMap.insert joined
woken = (
  _,
  later
      (later (later (later joined.1 (computes 0 (omega arith) refl)) (cleans 0 (omega arith) refl))
        (returns 0 (omega arith) refl))
      (wakes 1 0 (omega arith) refl refl),
)

Reach-IsShared_example :
    (0 < 2)
    × (key 0 ≡ key 1)
    × (some 40 ≡ some (fn 0))
    × (◌≢◌ {A = ℕ} 0 1
        → (true ≡ true)
          × ((d : ℕ) (w : Option ℕ) (a : Bool)
              → woken.0.pc 0 ≡ returned d w a
              → (d ≡ 0) × (a ≡ true)))
unfolding woken
Reach-IsShared_example = Reach-IsShared 2 key fn woken.0 1 0 (some 40) true woken.1 refl
