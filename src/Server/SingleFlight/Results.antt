-- ===== src/Server/SingleFlight/Results.antt =====
-- What the threads get from `single.Do`.
use mathlib.Core.Path.{subst}
use skydns.Shared.{ℕ, ◌<◌, Text, Bool, true, ltb, Option, some, ◌≡◌, ◌≢◌, sym, ◌∙◌, arith, inl, inr}
use skydns.Server.SingleFlight.{returned, Group, Reach}
use skydns.Server.SingleFlight.Invariant.{IsPast, IsFine}
use skydns.Server.SingleFlight.Invariant.Reached.{Reach-IsCoherent}

positive : {k : ℕ} → 0 < k → ltb 0 k ≡ true
positive {k} h = ground arith

module _ {V : Type 0} (n : ℕ) (key : ℕ → Text) (fn : ℕ → V) where
  -- In every state that `n` threads in `single.Do` reach, a thread `i` that has returned has the
  -- result of the function of a thread `c` with the same key; and if `c` is another thread, then the
  -- thread `i` is told that the result is shared, and so is `c` if it has returned.
  pub Reach-IsShared :
      (g : Group V) (i c : ℕ) (v : Option V) (b : Bool)
      → Reach n key fn g
      → g.pc i ≡ returned c v b
      → (c < n)
        × (key c ≡ key i)
        × (v ≡ some (fn c))
        × (c ≢ i
            → (b ≡ true)
              × ((d : ℕ) (w : Option V) (a : Bool)
                  → g.pc c ≡ returned d w a
                  → (d ≡ c) × (a ≡ true)))
  Reach-IsShared g i c v b r at =
      let coherent = Reach-IsCoherent n key fn g r in
      let (few, same, value, past, made, shared) =
        subst (IsFine n key fn g i) at (coherent.fine i) in
      (
        few,
        same,
        value,
        λ other. elim shared [
          | inr (mine, counted) ↦ absurd (other mine)
          | inl (waited, yes_shared) ↦ (
            yes_shared,
            λ d w a e.
                let own : d ≡ c = subst (IsPast c) e past in
                let (fewer, alike, result, later_on, ready, leader) =
                  subst (IsFine n key fn g c) e (coherent.fine c) in
                (
                  own,
                  elim leader [
                    | inl (both, told) ↦ told
                    | inr (self, counted) ↦
                        counted ∙ positive (subst (λ k. 0 < (g.calls k).dups) (sym self) waited)
                  ],
                ),
          )
        ],
      )
