-- ===== src/Server/SingleFlight/Invariant/Steps.antt =====
-- The invariant of `single.Do` holds after every step.
use mathlib.Core.Path.{subst}
use skydns.Shared.{
  ℕ, ◌<◌, ◌≤◌, Text, text_Comparable, Bool, true, false, nat_eq, nat_eq_iff, Bool-cases, List,
  Option, some, ◌≡◌, refl, sym, arith, inl, inr, update, update_ne, update-keeps,
}
use skydns.Shared.GoMap
use skydns.Server.SingleFlight.{
  Call, Pc, start, waiting, running, finished, cleaned, returned, Group,
}
use skydns.Server.SingleFlight.Invariant.{
  IsLeader, IsPast, InFlight, IsDone, IsFine, IsCoherent, IsFrame, frame-IsFine,
}

module _ {V : Type 0} (n : ℕ) (key : ℕ → Text) (fn : ℕ → V) where
  pub leader-IsPast :
      (g : Group V) (c : ℕ) (p : Pc V)
      → IsLeader c p
      → IsFine n key fn g c p
      → (g.calls c).done ≡ true
      → IsPast c p
  leader-IsPast g c start leads fine ready = leads
  leader-IsPast g c (waiting d) leads fine ready = leads
  leader-IsPast g c running leads (mine, undone) ready = cc
  leader-IsPast g c finished leads fine ready = tt
  leader-IsPast g c cleaned leads fine ready = tt
  leader-IsPast g c (returned d v b) leads fine ready = leads

  pub past-IsDone :
      (g : Group V) (c : ℕ) (p : Pc V) → IsPast c p → IsFine n key fn g c p → IsDone n key fn g c
  past-IsDone g c start past fine = absurd past
  past-IsDone g c (waiting d) past fine = absurd past
  past-IsDone g c running past fine = absurd past
  past-IsDone g c finished past (mine, made) = made
  past-IsDone g c cleaned past made = made
  past-IsDone g c (returned d v b) past (few, same, value, later_on, made, shared) =
      subst (IsDone n key fn g) past made

  pub own_call :
      (g : Group V) (c : ℕ) (p : Pc V)
      → InFlight p
      → IsFine n key fn g c p
      → GoMap.lookup g.m (key c) ≡ some c
  own_call g c start flies fine = absurd flies
  own_call g c (waiting d) flies fine = absurd flies
  own_call g c running flies (mine, undone) = mine
  own_call g c finished flies (mine, made) = mine
  own_call g c cleaned flies fine = absurd flies
  own_call g c (returned d v b) flies fine = absurd flies

  -- A step that writes no call.
  pub moved-IsFrame :
      (g : Group V) (m : List (Text × ℕ)) (i : ℕ) (p : Pc V)
      → ((j : ℕ)
          → nat_eq i j ≡ false
          → InFlight (g.pc j)
          → GoMap.lookup m (key j) ≡ GoMap.lookup g.m (key j))
      → (IsLeader i (g.pc i) → IsLeader i p)
      → (IsPast i (g.pc i) → IsPast i p)
      → IsFrame n key fn g (record g { m = m; pc = update g.pc i p }) i
  moved-IsFrame g m i p own leads passed = record {
    others = λ j apart. update_ne g.pc i j p apart;
    own = own;
    results = λ j apart h. (refl, refl);
    leads = update-keeps IsLeader g.pc i p leads;
    passed = update-keeps IsPast g.pc i p passed;
    settled = λ c past made. made;
    counts = λ c h. omega arith;
    frozen = λ j v b e. refl;
  }

  -- A step that writes the call at `k`.
  pub written-IsFrame :
      (g : Group V) (m : List (Text × ℕ)) (i k : ℕ) (p : Pc V) (x : Call V)
      → ((j : ℕ)
          → nat_eq i j ≡ false
          → InFlight (g.pc j)
          → GoMap.lookup m (key j) ≡ GoMap.lookup g.m (key j))
      → (IsLeader i (g.pc i) → IsLeader i p)
      → (IsPast i (g.pc i) → IsPast i p)
      → (nat_eq i k ≡ false → (x.val ≡ (g.calls k).val) × (x.done ≡ (g.calls k).done))
      → (IsPast k (g.pc k) → IsDone n key fn g k → (x.val ≡ some (fn k)) × (x.done ≡ true))
      → (IsLeader k (g.pc k) → (g.calls k).dups ≤ x.dups)
      → ((v : Option V) (b : Bool) → g.pc k ≡ returned k v b → x.dups ≡ (g.calls k).dups)
      → IsFrame n key fn g (record { m = m; calls = update g.calls k x; pc = update g.pc i p }) i
  written-IsFrame g m i k p x own leads passed results settled counts frozen = record {
    others = λ j apart. update_ne g.pc i j p apart;
    own = own;
    results = λ j apart h.
        update-keeps
          (λ a y. nat_eq i a ≡ false → (y.val ≡ (g.calls a).val) × (y.done ≡ (g.calls a).done))
          g.calls k x (λ old. results) j (λ a. (refl, refl)) apart;
    leads = update-keeps IsLeader g.pc i p leads;
    passed = update-keeps IsPast g.pc i p passed;
    settled = λ c past made.
        update-keeps
          (λ a y. IsPast a (g.pc a) → IsDone n key fn g a → (y.val ≡ some (fn a)) × (y.done ≡ true))
          g.calls k x (λ old. settled) c (λ q d. d) past made;
    counts = λ c h.
        update-keeps (λ a y. IsLeader a (g.pc a) → (g.calls a).dups ≤ y.dups) g.calls k x
          (λ old. counts) c (λ q. omega arith) h;
    frozen = λ j v b e.
        update-keeps
          (λ a y. (v : Option V) (b : Bool) → g.pc a ≡ returned a v b → y.dups ≡ (g.calls a).dups)
          g.calls k x (λ old. frozen) j (λ u w q. refl) v b e;
  }

  -- What a step of thread `i` has to show.
  pub after-IsCoherent :
      (g h : Group V) (i : ℕ) (p : Pc V)
      → IsCoherent n key fn g
      → IsFrame n key fn g h i
      → h.pc i ≡ p
      → IsFine n key fn h i p
      → ((k : Text) (c : ℕ)
          → GoMap.lookup h.m k ≡ some c
          → (c < n) × (key c ≡ k) × InFlight (h.pc c))
      → IsCoherent n key fn h
  after-IsCoherent g h i p coherent frame at fine mapped = record {
    mapped = mapped;
    fine = λ j. elim (Bool-cases (nat_eq i j)) [
      | inr apart ↦ frame-IsFine n key fn g h i frame j apart (coherent.fine j)
      | inl same ↦
          subst (λ k. IsFine n key fn h k (h.pc k)) ((nat_eq_iff i j).0 same)
            (subst (IsFine n key fn h i) (sym at) fine)
    ];
  }

  -- The map where a step leaves it as it is.
  pub kept_map :
      (g : Group V) (i : ℕ) (p : Pc V)
      → IsCoherent n key fn g
      → (InFlight (g.pc i) → InFlight p)
      → (k : Text) (c : ℕ) → GoMap.lookup g.m k ≡ some c
      → (c < n) × (key c ≡ k) × InFlight (update g.pc i p c)
  kept_map g i p coherent keep k c found =
      let (few, same, flies) = coherent.mapped k c found in
      (few, same, update-keeps (λ j q. InFlight q) g.pc i p keep c flies)
