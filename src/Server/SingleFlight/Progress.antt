-- ===== src/Server/SingleFlight/Progress.antt =====
-- `single.Do` always comes to an end.
use mathlib.Core.Path.{subst}
use skydns.Shared.{
  ℕ, zero, suc, ◌*◌, ◌<◌, ◌≤◌, Text, text_Comparable, false, Bool-cases, Option-cases, nat_eq,
  nat_eq_iff, ◌≡◌, ◌⊎◌, refl, sym, arith, inl, inr, sum_below, sum_below-lower,
}
use skydns.Shared.GoMap
use skydns.Server.SingleFlight.{
  Pc, start, waiting, running, finished, cleaned, returned, Group, new_group, Step, begins, joins,
  computes, cleans, returns, wakes, Reach,
}
use skydns.Server.SingleFlight.Invariant.{IsLeader, IsFine, IsCoherent}
use skydns.Server.SingleFlight.Invariant.Steps.{past-IsDone}
use skydns.Server.SingleFlight.Invariant.Reached.{Step-IsCoherent, Reach-IsCoherent}

module _ {V : Type 0} where
  abbrev pub IsReturned : Pc V → Type 0
  IsReturned start = ⊥
  IsReturned (waiting c) = ⊥
  IsReturned running = ⊥
  IsReturned finished = ⊥
  IsReturned cleaned = ⊥
  IsReturned (returned c v b) = Unit

  -- The steps that a thread has left, at most.
  abbrev pub steps_left : Pc V → ℕ
  steps_left start = 4
  steps_left (waiting c) = 1
  steps_left running = 3
  steps_left finished = 2
  steps_left cleaned = 1
  steps_left (returned c v b) = 0

  module _ (n : ℕ) (key : ℕ → Text) (fn : ℕ → V) where
    abbrev pub work : Group V → ℕ
    work g = sum_below steps_left n g.pc

    Step-lowers : (g h : Group V) → Step n key fn g h → work h < work g
    Step-lowers g h (begins i few at absent) =
        sum_below-lower steps_left n i g.pc running few (rw at (omega arith))
    Step-lowers g h (joins i c few at found) =
        sum_below-lower steps_left n i g.pc (waiting c) few (rw at (omega arith))
    Step-lowers g h (computes i few at) =
        sum_below-lower steps_left n i g.pc finished few (rw at (omega arith))
    Step-lowers g h (cleans i few at) =
        sum_below-lower steps_left n i g.pc cleaned few (rw at (omega arith))
    Step-lowers g h (returns i few at) =
        sum_below-lower steps_left n i g.pc _ few (rw at (omega arith))
    Step-lowers g h (wakes i c few at ready) =
        sum_below-lower steps_left n i g.pc _ few (rw at (omega arith))

    abbrev CanStep : Group V → Type 0
    CanStep g = (h : Group V) × Step n key fn g h

    leader_step :
        (g : Group V) (c : ℕ)
        → c < n
        → IsLeader c (g.pc c)
        → IsFine n key fn g c (g.pc c)
        → (g.calls c).done ≡ false
        → CanStep g
    leader_step g c few leads fine undone = at (g.pc c) refl leads fine
      where
        at : (p : Pc V) → g.pc c ≡ p → IsLeader c p → IsFine n key fn g c p → CanStep g
        at running e leads fine = (_, computes c few e)
        at start e leads fine = absurd leads
        at (waiting d) e leads fine = absurd leads
        at finished e leads fine = (_, cleans c few e)
        at cleaned e leads fine = (_, returns c few e)
        at (returned d v b) e leads fine =
            let (made, ready) = past-IsDone n key fn g c (returned d v b) leads fine in cc

    thread_step :
        (g : Group V) (i : ℕ)
        → IsCoherent n key fn g
        → i < n
        → (p : Pc V) → g.pc i ≡ p
        → IsReturned p ⊎ CanStep g
    thread_step g i coherent few start at = elim (Option-cases (GoMap.lookup g.m (key i))) [
      | inl absent ↦ inr (_, begins i few at absent)
      | inr (c, found) ↦ inr (_, joins i c few at found)
    ]
    thread_step g i coherent few running at = inr (_, computes i few at)
    thread_step g i coherent few finished at = inr (_, cleans i few at)
    thread_step g i coherent few cleaned at = inr (_, returns i few at)
    thread_step g i coherent few (returned c v b) at = inl tt
    thread_step g i coherent few (waiting c) at =
        let (fewer, same, counted, leads) = subst (IsFine n key fn g i) at (coherent.fine i) in
        elim (Bool-cases (g.calls c).done) [
          | inl ready ↦ inr (_, wakes i c few at ready)
          | inr undone ↦ inr (leader_step g c fewer leads (coherent.fine c) undone)
        ]

    abbrev pub AllReturned : ℕ → Group V → Type 0
    AllReturned k g = (i : ℕ) → i < k → IsReturned (g.pc i)

    threads_step :
        (g : Group V) (k : ℕ) → IsCoherent n key fn g → k ≤ n → AllReturned k g ⊎ CanStep g
    threads_step g zero coherent few = inl (λ i h. absurd (omega arith))
    threads_step g (suc k) coherent few =
        elim (thread_step g k coherent (omega arith) (g.pc k) refl) [
          | inr can ↦ inr can
          | inl last ↦ elim (threads_step g k coherent (omega arith)) [
            | inr can ↦ inr can
            | inl rest ↦ inl (λ i h. elim (Bool-cases (nat_eq i k)) [
              | inl same ↦ subst (λ j. IsReturned (g.pc j)) (sym ((nat_eq_iff i k).0 same)) last
              | inr other ↦ rest i (ground (arith, nat_eq_iff i k))
            ])
          ]
        ]

    -- Steps that follow one another.
    pub data Run : Group V → Group V → Type 0 where
      stop : {g : Group V} → Run g g
      go : {g h k : Group V} → Step n key fn g h → Run h k → Run g k

    abbrev pub Ends : Group V → Type 0
    Ends g = (h : Group V) × Run g h × AllReturned n h

    run_out : (f : ℕ) (g : Group V) → IsCoherent n key fn g → work g ≤ f → Ends g
    run_out zero g coherent enough = elim (threads_step g n coherent (omega arith)) [
      | inl all ↦ (g, stop, all)
      | inr (h, step) ↦ let less = Step-lowers g h step in absurd (omega arith)
    ]
    run_out (suc f) g coherent enough = elim (threads_step g n coherent (omega arith)) [
      | inl all ↦ (g, stop, all)
      | inr (h, step) ↦
          let less = Step-lowers g h step in
          let (k, run, all) =
            run_out f h (Step-IsCoherent n key fn g h step coherent) (omega arith) in
          (k, go step run, all)
    ]

    work_new : (k : ℕ) → sum_below steps_left k (λ i. start) ≡ k * 4
    work_new zero = refl
    work_new (suc k) = let rest = work_new k in omega arith

    -- In every state that `n` threads in `single.Do` reach there is a run to a state where all of
    -- them have returned, so that no wait on a wait group lasts for ever; and no order of the steps
    -- is longer than `4 * n`, since every step lowers the work left, which is `4 * n` at the start.
    pub Reach-Ends :
        (g : Group V)
        → Reach n key fn g
        → Ends g × ((h : Group V) → Step n key fn g h → work h < work g) × (work new_group ≡ n * 4)
    Reach-Ends g r = (
      run_out (work g) g (Reach-IsCoherent n key fn g r) (omega arith),
      Step-lowers g,
      work_new n,
    )
