-- ===== src/Server/SingleFlight/Invariant/Reached.antt =====
-- The invariant of `single.Do` in every state that is reached.
use mathlib.Core.Path.{subst}
use skydns.Shared.{
  ℕ, suc, ◌<◌, Text, text_Comparable, Bool, true, false, ltb, nat_eq, nat_eq_iff, Bool-cases, ◌==◌,
  text_eq_iff, Option, none, some, ◌≡◌, ◌≢◌, refl, sym, ◌∙◌, ap, arith, inl, inr, update,
  update_self, update_ne, update-keeps,
}
use skydns.Shared.GoMap
use skydns.Server.SingleFlight.{
  Call, start, waiting, running, finished, cleaned, returned, Group, new_call, Step, begins, joins,
  computes, cleans, returns, wakes, Reach, here, later,
}
use skydns.Server.SingleFlight.Invariant.{
  IsLeader, IsPast, InFlight, InFlight-IsLeader, IsFine, IsCoherent,
}
use skydns.Server.SingleFlight.Invariant.Steps.{
  leader-IsPast, past-IsDone, own_call, moved-IsFrame, written-IsFrame, after-IsCoherent, kept_map,
}

not_self : (i : ℕ) → nat_eq i i ≢ false
not_self i h = ground (arith, nat_eq_iff i i)

apart_pc : {V : Type 0} {c : ℕ} {v : Option V} {b : Bool} → start ≢ returned c v b
apart_pc e = cc

some_same : {i c : ℕ} → some i ≡ some c → i ≡ c
some_same e = cc

none-some : {c : ℕ} → none ≢ some c
none-some e = cc

differs : {s t : Text} → (s == t) ≡ false → s ≢ t
differs {s} {t} h same = ground (arith, text_eq_iff s t)

other_call : {i c : ℕ} → i ≢ c → nat_eq i c ≡ false
other_call {i} {c} h = ground (arith, nat_eq_iff i c)

module _ {V : Type 0} (n : ℕ) (key : ℕ → Text) (fn : ℕ → V) where
  -- Two calls in the map have two keys.
  keys_apart :
      (g : Group V) (i j : ℕ)
      → IsCoherent n key fn g
      → GoMap.lookup g.m (key i) ≡ some i
      → nat_eq i j ≡ false
      → InFlight (g.pc j)
      → key i ≢ key j
  keys_apart g i j coherent mine apart flies same =
      let theirs = own_call n key fn g j (g.pc j) flies (coherent.fine j) in
      let both : some i ≡ some j = sym mine ∙ ap (GoMap.lookup g.m) same ∙ theirs in
      ground (arith, nat_eq_iff i j)

  new_key :
      (g : Group V) (i j : ℕ)
      → IsCoherent n key fn g
      → GoMap.lookup g.m (key i) ≡ none
      → InFlight (g.pc j)
      → key i ≢ key j
  new_key g i j coherent absent flies same =
      let theirs = own_call n key fn g j (g.pc j) flies (coherent.fine j) in
      let both : none ≡ some j = sym absent ∙ ap (GoMap.lookup g.m) same ∙ theirs in cc

  begins-IsCoherent :
      (g : Group V) (i : ℕ)
      → i < n
      → g.pc i ≡ start
      → GoMap.lookup g.m (key i) ≡ none
      → IsCoherent n key fn g
      → IsCoherent n key fn (record {
        m = GoMap.insert g.m (key i) i;
        calls = update g.calls i new_call;
        pc = update g.pc i running;
      })
  begins-IsCoherent g i few at absent coherent =
      after-IsCoherent n key fn g _ i running coherent
        (written-IsFrame n key fn g (GoMap.insert g.m (key i) i) i i running new_call
          (λ j apart flies.
            GoMap.lookup-insert_ne g.m (key i) (key j) i (new_key g i j coherent absent flies))
          (λ q. tt) (λ q. absurd (subst (IsPast i) at q)) (λ same. absurd (not_self i same))
          (λ q made. absurd (subst (IsPast i) at q)) (λ q. absurd (subst (IsLeader i) at q))
          (λ v b e. absurd (apart_pc (sym at ∙ e))))
        (update_self g.pc i running)
        (GoMap.lookup-insert_self g.m (key i) i, ap (λ x. x.done) (update_self g.calls i new_call))
        mapped
    where
      mapped :
          (k : Text) (c : ℕ)
          → GoMap.lookup (GoMap.insert g.m (key i) i) k ≡ some c
          → (c < n) × (key c ≡ k) × InFlight (update g.pc i running c)
      mapped k c found = elim (Bool-cases (key i == k)) [
        | inl same ↦
            let is : k ≡ key i = sym ((text_eq_iff (key i) k).0 same) in
            let this : some i ≡ some c =
              sym (GoMap.lookup-insert_self g.m (key i) i)
              ∙ ap (GoMap.lookup (GoMap.insert g.m (key i) i)) (sym is)
              ∙ found in
            subst (λ j. (j < n) × (key j ≡ k) × InFlight (update g.pc i running j)) (some_same this)
              (few, sym is, subst InFlight (sym (update_self g.pc i running)) tt)
        | inr other ↦
            kept_map n key fn g i running coherent (λ q. tt) k c
              (sym (GoMap.lookup-insert_ne g.m (key i) k i (differs other)) ∙ found)
      ]

  joins-IsCoherent :
      (g : Group V) (i c : ℕ)
      → i < n
      → g.pc i ≡ start
      → GoMap.lookup g.m (key i) ≡ some c
      → IsCoherent n key fn g
      → IsCoherent n key fn (record g {
        calls = update g.calls c (record (g.calls c) { dups = suc (g.calls c).dups });
        pc = update g.pc i (waiting c);
      })
  joins-IsCoherent g i c few at found coherent =
      let (fewer, same, flies) = coherent.mapped (key i) c found in
      let leads = InFlight-IsLeader c (g.pc c) flies in
      let more = record (g.calls c) { dups = suc (g.calls c).dups } in
      after-IsCoherent n key fn g _ i (waiting c) coherent
        (written-IsFrame n key fn g g.m i c (waiting c) more (λ j apart q. refl)
          (λ q. subst (IsLeader i) at q) (λ q. subst (IsPast i) at q) (λ a. (refl, refl))
          (λ q made. made) (λ q. omega arith) (λ v b e. absurd (subst InFlight e flies)))
        (update_self g.pc i (waiting c))
        (
          fewer,
          same,
          subst (λ (x : Call V). 0 < x.dups) (sym (update_self g.calls c more)) (omega arith),
          update-keeps IsLeader g.pc i (waiting c) (λ q. subst (IsLeader i) at q) c leads,
        )
        (kept_map n key fn g i (waiting c) coherent (λ q. subst InFlight at q))

  computes-IsCoherent :
      (g : Group V) (i : ℕ)
      → i < n
      → g.pc i ≡ running
      → IsCoherent n key fn g
      → IsCoherent n key fn (record g {
        calls = update g.calls i (record (g.calls i) { val = some (fn i); done = true });
        pc = update g.pc i finished;
      })
  computes-IsCoherent g i few at coherent =
      let (mine, undone) = subst (IsFine n key fn g i) at (coherent.fine i) in
      let x = record (g.calls i) { val = some (fn i); done = true } in
      after-IsCoherent n key fn g _ i finished coherent
        (written-IsFrame n key fn g g.m i i finished x (λ j apart q. refl) (λ q. tt) (λ q. tt)
          (λ same. absurd (not_self i same)) (λ q made. (refl, refl)) (λ q. omega arith)
          (λ v b e. refl))
        (update_self g.pc i finished)
        (
          mine,
          (ap (λ y. y.val) (update_self g.calls i x), ap (λ y. y.done) (update_self g.calls i x)),
        )
        (kept_map n key fn g i finished coherent (λ q. tt))

  cleans-IsCoherent :
      (g : Group V) (i : ℕ)
      → i < n
      → g.pc i ≡ finished
      → IsCoherent n key fn g
      → IsCoherent n key fn (record g { m = GoMap.delete g.m (key i); pc = update g.pc i cleaned })
  cleans-IsCoherent g i few at coherent =
      let (mine, made) = subst (IsFine n key fn g i) at (coherent.fine i) in
      after-IsCoherent n key fn g _ i cleaned coherent
        (moved-IsFrame n key fn g (GoMap.delete g.m (key i)) i cleaned
          (λ j apart flies.
            GoMap.lookup-delete_ne g.m (key i) (key j) (keys_apart g i j coherent mine apart flies))
          (λ q. tt) (λ q. tt))
        (update_self g.pc i cleaned) made mapped
    where
      mapped :
          (k : Text) (c : ℕ)
          → GoMap.lookup (GoMap.delete g.m (key i)) k ≡ some c
          → (c < n) × (key c ≡ k) × InFlight (update g.pc i cleaned c)
      mapped k c found = elim (Bool-cases (key i == k)) [
        | inl same ↦
            let gone = GoMap.lookup-delete_self g.m (key i) in
            absurd (
              none-some (
                sym gone
                ∙ ap (GoMap.lookup (GoMap.delete g.m (key i))) ((text_eq_iff (key i) k).0 same)
                ∙ found))
        | inr other ↦
            let (few, same, flies) =
              coherent.mapped k c
                (sym (GoMap.lookup-delete_ne g.m (key i) k (differs other)) ∙ found) in
            (
              few,
              same,
              subst InFlight
                  (sym (
                    update_ne g.pc i c cleaned (other_call (λ q. differs other (ap key q ∙ same)))))
                  flies,
            )
      ]

  returns-IsCoherent :
      (g : Group V) (i : ℕ)
      → i < n
      → g.pc i ≡ cleaned
      → IsCoherent n key fn g
      → IsCoherent n key fn
          (record g { pc = update g.pc i (returned i (g.calls i).val (ltb 0 (g.calls i).dups)) })
  returns-IsCoherent g i few at coherent =
      let made = subst (IsFine n key fn g i) at (coherent.fine i) in
      let p = returned i (g.calls i).val (ltb 0 (g.calls i).dups) in
      after-IsCoherent n key fn g _ i p coherent
        (moved-IsFrame n key fn g g.m i p (λ j apart q. refl) (λ q. refl) (λ q. refl))
        (update_self g.pc i p)
        (
          few,
          refl,
          made.0,
          subst (IsPast i) (sym (update_self g.pc i p)) refl,
          made,
          inr (refl, refl),
        )
        (kept_map n key fn g i p coherent (λ q. subst InFlight at q))

  wakes-IsCoherent :
      (g : Group V) (i c : ℕ)
      → i < n
      → g.pc i ≡ waiting c
      → (g.calls c).done ≡ true
      → IsCoherent n key fn g
      → IsCoherent n key fn (record g { pc = update g.pc i (returned c (g.calls c).val true) })
  wakes-IsCoherent g i c few at ready coherent =
      let (fewer, same, counted, leads) = subst (IsFine n key fn g i) at (coherent.fine i) in
      let past = leader-IsPast n key fn g c (g.pc c) leads (coherent.fine c) ready in
      let made = past-IsDone n key fn g c (g.pc c) past (coherent.fine c) in
      let p = returned c (g.calls c).val true in
      after-IsCoherent n key fn g _ i p coherent
        (moved-IsFrame n key fn g g.m i p (λ j apart q. refl)
          (λ q. absurd (subst (IsLeader i) at q)) (λ q. absurd (subst (IsPast i) at q)))
        (update_self g.pc i p)
        (
          fewer,
          same,
          made.0,
          update-keeps IsPast g.pc i p (λ q. absurd (subst (IsPast i) at q)) c past,
          made,
          inl (counted, refl),
        )
        (kept_map n key fn g i p coherent (λ q. subst InFlight at q))

  pub Step-IsCoherent :
      (g h : Group V) → Step n key fn g h → IsCoherent n key fn g → IsCoherent n key fn h
  Step-IsCoherent g h (begins i few at absent) = begins-IsCoherent g i few at absent
  Step-IsCoherent g h (joins i c few at found) = joins-IsCoherent g i c few at found
  Step-IsCoherent g h (computes i few at) = computes-IsCoherent g i few at
  Step-IsCoherent g h (cleans i few at) = cleans-IsCoherent g i few at
  Step-IsCoherent g h (returns i few at) = returns-IsCoherent g i few at
  Step-IsCoherent g h (wakes i c few at ready) = wakes-IsCoherent g i c few at ready

  pub Reach-IsCoherent : (g : Group V) → Reach n key fn g → IsCoherent n key fn g
  unfolding GoMap.lookup
  Reach-IsCoherent g here = record {
    mapped = λ k c found. absurd (none-some found);
    fine = λ i. tt;
  }
  Reach-IsCoherent h (later {g} r step) = Step-IsCoherent g h step (Reach-IsCoherent g r)
