-- ===== src/Server/Dnssec/Sign/Served.antt =====
-- server/server.go and server/dnssec.go: the server's keys, and the deferred end of `ServeDNS`, which
-- denies and signs a reply. `dnssec_ok` is the buffer size of the request's OPT record, if it has one
-- that asks for DNSSEC; the other parameters are those of the denials and of the signing.
use skydns.Shared.{ℕ, Text, Bool, true, List, Option, none, some}
use skydns.Registry.{set_dnssec}
use skydns.Server.{DnsKey, Server}
use skydns.Server.Dns.{Rr, Rrsig}
use skydns.Server.Serve.{Message}
use skydns.Server.Dnssec.Denials.{add_denials}
use skydns.Server.Dnssec.Sign.{Cache, sign}

-- `s.SetKeys(k, p)`; `key_tag` is `k.KeyTag()`, and the private key is in `sign_with`.
abbrev pub set_keys : DnsKey → ℕ → Server → Server
set_keys k key_tag s = record s {
  dns_key = some k;
  key_tag = key_tag;
  registry = (set_dnssec s.registry true).1;
}

module _ (split_domain_name : Text → List Text) (split_offsets : Text → List ℕ) (empty_hash : Text)
    (sign_with : Rrsig → List Rr → Option Rrsig) (valid : Rrsig → ℕ → Bool)
    (flight : Text → Option Rrsig → Option Rrsig × Bool) (message_length : Message → ℕ)
    (now : ℕ) where
  abbrev pub signed : Server → DnsKey → ℕ → Option Message → Cache → Option (Message × Cache)
  signed s k bufsize none cache = none
  signed s k bufsize (some m) cache =
      some (sign empty_hash sign_with valid flight message_length k s.key_tag now bufsize m cache)

  -- The deferred function, up to the write; `none` is a panic in it.
  abbrev pub finished :
      Server → Option DnsKey → Option ℕ → Message → Cache → Option (Message × Cache)
  finished s (some k) (some bufsize) m cache =
      signed s k bufsize (add_denials split_domain_name split_offsets s m) cache
  finished s _ _ m cache = some (m, cache)

  -- What is written of a reply of the server's own.
  abbrev pub written_of : Option ℕ → Option (Message × Server) → Cache → Option (Message × Cache)
  written_of dnssec_ok none cache = none
  written_of dnssec_ok (some (m, s)) cache = finished s s.dns_key dnssec_ok m cache
