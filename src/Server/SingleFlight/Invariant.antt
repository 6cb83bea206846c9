-- ===== src/Server/SingleFlight/Invariant.antt =====
-- What holds of the calls and the threads between two steps.
pub mod Steps
pub mod Reached
use mathlib.Core.Path.{subst}
use skydns.Shared.{
  ℕ, zero, suc, ◌+◌, ◌<◌, ◌≤◌, Text, text_Comparable, Bool, true, false, ltb, nat_eq, List, Option,
  none, some, if◌then◌else◌, ◌≡◌, ◌⊎◌, refl, sym, ◌∙◌, ap, arith, inl, inr,
}
use skydns.Shared.GoMap
use skydns.Server.SingleFlight.{
  Call, Pc, start, waiting, running, finished, cleaned, returned, Group,
}

module _ {V : Type 0} where
  -- A thread that has made the call at its own number; one that has its result; and one whose call
  -- is in the map.
  abbrev pub IsLeader : ℕ → Pc V → Type 0
  IsLeader c start = ⊥
  IsLeader c (waiting d) = ⊥
  IsLeader c running = Unit
  IsLeader c finished = Unit
  IsLeader c cleaned = Unit
  IsLeader c (returned d v b) = d ≡ c

  abbrev pub IsPast : ℕ → Pc V → Type 0
  IsPast c start = ⊥
  IsPast c (waiting d) = ⊥
  IsPast c running = ⊥
  IsPast c finished = Unit
  IsPast c cleaned = Unit
  IsPast c (returned d v b) = d ≡ c

  abbrev pub InFlight : Pc V → Type 0
  InFlight start = ⊥
  InFlight (waiting d) = ⊥
  InFlight running = Unit
  InFlight finished = Unit
  InFlight cleaned = ⊥
  InFlight (returned d v b) = ⊥

  pub IsPast-IsLeader : (c : ℕ) (p : Pc V) → IsPast c p → IsLeader c p
  IsPast-IsLeader c start h = h
  IsPast-IsLeader c (waiting d) h = h
  IsPast-IsLeader c running h = absurd h
  IsPast-IsLeader c finished h = tt
  IsPast-IsLeader c cleaned h = tt
  IsPast-IsLeader c (returned d v b) h = h

  pub InFlight-IsLeader : (c : ℕ) (p : Pc V) → InFlight p → IsLeader c p
  InFlight-IsLeader c start h = h
  InFlight-IsLeader c (waiting d) h = h
  InFlight-IsLeader c running h = tt
  InFlight-IsLeader c finished h = tt
  InFlight-IsLeader c cleaned h = tt
  InFlight-IsLeader c (returned d v b) h = absurd h

  module _ (n : ℕ) (key : ℕ → Text) (fn : ℕ → V) where
    -- The result of a call.
    abbrev pub IsDone : Group V → ℕ → Type 0
    IsDone g c = ((g.calls c).val ≡ some (fn c)) × ((g.calls c).done ≡ true)

    -- Whether a result is shared: it is, to a thread that waited, and else if another thread did.
    abbrev pub IsShared : Group V → ℕ → ℕ → Bool → Type 0
    IsShared g i c b =
        ((0 < (g.calls c).dups) × (b ≡ true)) ⊎ ((c ≡ i) × (b ≡ ltb 0 (g.calls c).dups))

    -- What a thread knows where it stands.
    abbrev pub IsFine : Group V → ℕ → Pc V → Type 0
    IsFine g i start = Unit
    IsFine g i running = (GoMap.lookup g.m (key i) ≡ some i) × ((g.calls i).done ≡ false)
    IsFine g i finished = (GoMap.lookup g.m (key i) ≡ some i) × IsDone g i
    IsFine g i cleaned = IsDone g i
    IsFine g i (waiting c) =
        (c < n) × (key c ≡ key i) × (0 < (g.calls c).dups) × IsLeader c (g.pc c)
    IsFine g i (returned c v b) =
        (c < n)
        × (key c ≡ key i)
        × (v ≡ some (fn c))
        × IsPast c (g.pc c)
        × IsDone g c
        × IsShared g i c b

    pub record IsCoherent (g : Group V) : Type 0 where
      pub mapped :
          (k : Text) (c : ℕ)
          → GoMap.lookup g.m k ≡ some c
          → (c < n) × (key c ≡ k) × InFlight (g.pc c)
      pub fine : (i : ℕ) → IsFine g i (g.pc i)

    -- A step of thread `i` that the other threads bear.
    pub record IsFrame (g h : Group V) (i : ℕ) : Type 0 where
      pub others : (j : ℕ) → nat_eq i j ≡ false → h.pc j ≡ g.pc j
      pub own :
          (j : ℕ)
          → nat_eq i j ≡ false
          → InFlight (g.pc j)
          → GoMap.lookup h.m (key j) ≡ GoMap.lookup g.m (key j)
      pub results :
          (j : ℕ)
          → nat_eq i j ≡ false
          → IsLeader j (g.pc j)
          → ((h.calls j).val ≡ (g.calls j).val) × ((h.calls j).done ≡ (g.calls j).done)
      pub leads : (c : ℕ) → IsLeader c (g.pc c) → IsLeader c (h.pc c)
      pub passed : (c : ℕ) → IsPast c (g.pc c) → IsPast c (h.pc c)
      pub settled : (c : ℕ) → IsPast c (g.pc c) → IsDone g c → IsDone h c
      pub counts : (c : ℕ) → IsLeader c (g.pc c) → (g.calls c).dups ≤ (h.calls c).dups
      pub frozen :
          (j : ℕ) (v : Option V) (b : Bool)
          → g.pc j ≡ returned j v b
          → (h.calls j).dups ≡ (g.calls j).dups

    -- The other threads are fine after it.
    pub frame-IsFine :
        (g h : Group V) (i : ℕ)
        → IsFrame g h i
        → (j : ℕ) → nat_eq i j ≡ false
        → IsFine g j (g.pc j)
        → IsFine h j (h.pc j)
    frame-IsFine g h i f j apart fine =
        subst (IsFine h j) (sym (f.others j apart)) (at (g.pc j) refl fine)
      where
        at : (p : Pc V) → g.pc j ≡ p → IsFine g j p → IsFine h j p
        at start e fine = tt
        at running e (mine, undone) =
            let (val, done) = f.results j apart (subst (IsLeader j) (sym e) tt) in
            (f.own j apart (subst InFlight (sym e) tt) ∙ mine, done ∙ undone)
        at finished e (mine, (made, ready)) =
            let (val, done) = f.results j apart (subst (IsLeader j) (sym e) tt) in
            (f.own j apart (subst InFlight (sym e) tt) ∙ mine, (val ∙ made, done ∙ ready))
        at cleaned e (made, ready) =
            let (val, done) = f.results j apart (subst (IsLeader j) (sym e) tt) in
            (val ∙ made, done ∙ ready)
        at (waiting c) e (few, same, some_wait, leads) =
            let more = f.counts c leads in (few, same, omega arith, f.leads c leads)
        at (returned c v b) e (few, same, value, past, ready, shared) =
            let more = f.counts c (IsPast-IsLeader c (g.pc c) past) in
            (
              few,
              same,
              value,
              f.passed c past,
              f.settled c past ready,
              elim shared [
                | inl (some_wait, yes_shared) ↦ inl (omega arith, yes_shared)
                | inr (mine, counted) ↦ inr (
                  mine,
                  counted
                      ∙ ap (ltb 0) (
                          sym (
                            subst (λ k. (h.calls k).dups ≡ (g.calls k).dups) (sym mine)
                              (f.frozen j v b (subst (λ k. g.pc j ≡ returned k v b) mine e)))),
                )
              ],
            )
