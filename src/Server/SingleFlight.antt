-- ===== src/Server/SingleFlight.antt =====
-- server/dnssec.go: `single.Do`, by which threads that want the same signature at once make it once.
-- `n` threads call `Do` once each, interleaved in any order: thread `i` with the key `key i` and a
-- function whose result is `fn i`. What the mutex guards is one step, and so are the write of the
-- result and `wg.Done`, since nobody reads the result before. The call that thread `i` allocates
-- lies at the address `i`.
pub mod Invariant
pub mod Progress
pub mod Results
mod Tests
use skydns.Shared.{
  ℕ, suc, ◌<◌, Text, text_Comparable, Bool, true, false, ltb, List, [], Option, none, some,
  if◌then◌else◌, update, ◌≡◌,
}
use skydns.Shared.GoMap

-- `call`; `done` is whether the wait group has come to zero.
pub record Call (V : Type 0) : Type 0 where
  pub val : Option V
  pub done : Bool
  pub dups : ℕ

abbrev pub new_call : {V : Type 0} → Call V
new_call = record { val = none; done = false; dups = 0 }

-- Where a thread stands in `Do`. `waiting c` and `returned c v shared` have come by the call at `c`.
pub data Pc (V : Type 0) : Type 0 where
  start : Pc V
  waiting : ℕ → Pc V
  running : Pc V
  finished : Pc V
  cleaned : Pc V
  returned : ℕ → Option V → Bool → Pc V

-- `single`, and the threads.
pub record Group (V : Type 0) : Type 0 where
  pub m : List (Text × ℕ)
  pub calls : ℕ → Call V
  pub pc : ℕ → Pc V

abbrev pub new_group : {V : Type 0} → Group V
new_group = record { m = []; calls = λ i. new_call; pc = λ i. start }

module _ {V : Type 0} (n : ℕ) (key : ℕ → Text) (fn : ℕ → V) where
  -- A step of one thread.
  pub data Step (g : Group V) : Group V → Type 0 where
    -- No call for the key: allocate one.
    begins :
        (i : ℕ)
        → i < n
        → g.pc i ≡ start
        → GoMap.lookup g.m (key i) ≡ none
        → Step g (record {
          m = GoMap.insert g.m (key i) i;
          calls = update g.calls i new_call;
          pc = update g.pc i running;
        })
    -- `c.dups++`, and wait for the call that is there.
    joins :
        (i c : ℕ)
        → i < n
        → g.pc i ≡ start
        → GoMap.lookup g.m (key i) ≡ some c
        → Step g (record g {
          calls = update g.calls c (record (g.calls c) { dups = suc (g.calls c).dups });
          pc = update g.pc i (waiting c);
        })
    -- `c.val, c.err = fn()` and `c.wg.Done()`
    computes :
        (i : ℕ)
        → i < n
        → g.pc i ≡ running
        → Step g (record g {
          calls = update g.calls i (record (g.calls i) { val = some (fn i); done = true });
          pc = update g.pc i finished;
        })
    -- `delete(g.m, key)`
    cleans :
        (i : ℕ)
        → i < n
        → g.pc i ≡ finished
        → Step g (record g { m = GoMap.delete g.m (key i); pc = update g.pc i cleaned })
    -- `return c.val, c.err, c.dups > 0`, with no lock held.
    returns :
        (i : ℕ)
        → i < n
        → g.pc i ≡ cleaned
        → Step g
            (record g { pc = update g.pc i (returned i (g.calls i).val (ltb 0 (g.calls i).dups)) })
    -- After `c.wg.Wait()`: `return c.val, c.err, true`
    wakes :
        (i c : ℕ)
        → i < n
        → g.pc i ≡ waiting c
        → (g.calls c).done ≡ true
        → Step g (record g { pc = update g.pc i (returned c (g.calls c).val true) })

  pub data Reach : Group V → Type 0 where
    here : Reach new_group
    later : {g h : Group V} → Reach g → Step g h → Reach h
