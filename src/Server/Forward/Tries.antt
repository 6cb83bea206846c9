-- ===== src/Server/Forward/Tries.antt =====
-- Which nameservers are asked, and in what order.
use mathlib.Core.Path.{subst}
use native.Mathlib.Nat.{mod-add-mod, mod-lt}
use skydns.Shared.{
  ℕ, zero, suc, ◌+◌, ◌%◌, ◌<◌, Text, true, false, ltb, nat_eq, List, [], ◌∷◌, Option, none, some,
  length, get_elem?, ◌≡◌, refl, ap, ◌∙◌, arith,
}
use skydns.Server.Forward.{Reply, forwarded, server_failure, tried, try_each, serve_dns_forward}

get_elem?-lt :
    (l : List Text) (i : ℕ) → i < length l → (server : Text) × (get_elem? l i ≡ some server)
get_elem?-lt [] i h = absurd (omega arith)
get_elem?-lt (s ∷ l) zero h = (s, refl)
get_elem?-lt (s ∷ l) (suc i) h = get_elem?-lt l i (omega arith)

module _ {ℓ} {M : Type ℓ} (exchange : ℕ → Text → Option M) (nameservers : List Text) (id : ℕ) where
  -- The i-th try goes to the i-th nameserver from that of the request's id, round the list.
  abbrev pub nameserver_of : ℕ → Option Text
  nameserver_of i = get_elem? nameservers ((id + i) % length nameservers)

  abbrev pub answer_of : ℕ → Option Text → Option M
  answer_of i none = none
  answer_of i (some server) = exchange i server

  abbrev pub or_else : Option M → Option M → Option M
  or_else none later = later
  or_else (some m) later = some m

  -- The first answer among `n` tries from the i-th.
  abbrev pub first_answer : ℕ → ℕ → Option M
  first_answer zero i = none
  first_answer (suc n) i = or_else (answer_of i (nameserver_of i)) (first_answer n (suc i))

  abbrev pub reply_of : Option M → Reply M
  reply_of none = server_failure false
  reply_of (some m) = forwarded m

  next_nsid :
      (i : ℕ)
      → ((id + i) % length nameservers + 1) % length nameservers ≡ (id + suc i) % length nameservers
  next_nsid i =
      mod-add-mod (id + i) (length nameservers) 1 ∙ ap (λ k. k % length nameservers) (omega arith)

  ltb-false : (i : ℕ) → i ≡ length nameservers → ltb i (length nameservers) ≡ false
  ltb-false i e = ground arith

  ltb-true : (i : ℕ) → i < length nameservers → ltb i (length nameservers) ≡ true
  ltb-true i h = ground arith

  tried-last :
      (o : Option M) (i : ℕ) (redo : Option (Reply M))
      → i ≡ length nameservers
      → tried exchange nameservers o i redo ≡ some (reply_of (or_else o none))
  tried-last none i redo e = rw (ltb-false i e) refl
  tried-last (some m) i redo e = refl

  tried-redo :
      (o : Option M) (i : ℕ) (redo : Option (Reply M)) (later : Option M)
      → i < length nameservers
      → redo ≡ some (reply_of later)
      → tried exchange nameservers o i redo ≡ some (reply_of (or_else o later))
  tried-redo none i redo later h e = rw (ltb-true i h) e
  tried-redo (some m) i redo later h e = refl

  try_each_lem :
      (k fuel i : ℕ)
      → 0 < length nameservers
      → i + k ≡ length nameservers
      → k < fuel
      → try_each exchange nameservers fuel i ((id + i) % length nameservers)
        ≡ some (reply_of (first_answer (suc k) i))
  unfolding try_each
  try_each_lem k zero i configured e enough = absurd (omega arith)
  try_each_lem zero (suc fuel) i configured e enough =
      let redo =
        try_each exchange nameservers fuel (suc i)
          (((id + i) % length nameservers + 1) % length nameservers) in
      let (server, at) =
        get_elem?-lt nameservers ((id + i) % length nameservers) (mod-lt (id + i) configured) in
      rw at (tried-last (exchange i server) i redo (omega arith))
  try_each_lem (suc k) (suc fuel) i configured e enough =
      let redo =
        try_each exchange nameservers fuel (suc i)
          (((id + i) % length nameservers + 1) % length nameservers) in
      let below = try_each_lem k fuel (suc i) configured (omega arith) (omega arith) in
      let (server, at) =
        get_elem?-lt nameservers ((id + i) % length nameservers) (mod-lt (id + i) configured) in
      rw at (
        tried-redo (exchange i server) i redo (first_answer (suc k) (suc i)) (omega arith)
          (ap (try_each exchange nameservers fuel (suc i)) (next_nsid i) ∙ below))

  -- With at least one nameserver the loop ends. It tries one time more than there are nameservers,
  -- in turn from the one that the request's id picks, and never reads past the list: the reply is
  -- the first answer among these tries, and a failure if there is none.
  pub serve_dns_forward_lem :
      0 < length nameservers
      → serve_dns_forward exchange nameservers id
        ≡ some (reply_of (first_answer (suc (length nameservers)) 0))
  unfolding serve_dns_forward
  serve_dns_forward_lem configured = rw (configured_test configured) (
      subst
        (λ j.
          try_each exchange nameservers (suc (length nameservers)) 0 (j % length nameservers)
          ≡ some (reply_of (first_answer (suc (length nameservers)) 0)))
        (omega arith)
        (try_each_lem (length nameservers) (suc (length nameservers)) 0 configured (omega arith)
          (omega arith)))
    where
      configured_test : 0 < length nameservers → nat_eq (length nameservers) 0 ≡ false
      configured_test h = ground arith
