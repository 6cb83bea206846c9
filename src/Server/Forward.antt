-- ===== src/Server/Forward.antt =====
-- server/server.go: the forwarding of a DNS request to a nameserver. `exchange` is `c.Exchange` of
-- the DNS library: what the nameserver answers to the request on the n-th try, `none` for an error.
pub mod Tries
use skydns.Shared.{
  ℕ, zero, suc, ◌+◌, ◌%◌, Text, Bool, true, false, ltb, nat_eq, List, [], ◌∷◌, Option, none, some,
  length, get_elem?, if◌then◌else◌,
}

-- What is written back: a nameserver's message, or a failure that says whether recursion is
-- available. `panicked` is an index out of range.
pub data Reply {ℓ} (M : Type ℓ) : Type ℓ where
  forwarded : M → Reply M
  server_failure : Bool → Reply M
  panicked : Reply M

module _ {ℓ} {M : Type ℓ} (exchange : ℕ → Text → Option M) (nameservers : List Text) where
  -- After an error: `if try < len(s.nameservers)`.
  abbrev pub tried : Option M → ℕ → Option (Reply M) → Option (Reply M)
  tried (some m) try redo = some (forwarded m)
  tried none try redo = if ltb try (length nameservers) then redo else some (server_failure false)

  abbrev pub asked : Option Text → ℕ → Option (Reply M) → Option (Reply M)
  asked none try redo = some panicked
  asked (some server) try redo = tried (exchange try server) try redo

  -- The loop from the label `Redo`; `none` is the end of the fuel.
  unfoldable pub try_each : ℕ → ℕ → ℕ → Option (Reply M)
  try_each zero try nsid = none
  try_each (suc fuel) try nsid =
      asked (get_elem? nameservers nsid) try
        (try_each fuel (suc try) ((nsid + 1) % length nameservers))

  -- `s.ServeDNSForward(w, req)`; `id` is `req.Id`.
  unfoldable pub serve_dns_forward : ℕ → Option (Reply M)
  serve_dns_forward id =
      if nat_eq (length nameservers) 0
      then some (server_failure true)
      else try_each (suc (length nameservers)) 0 (id % length nameservers)
