-- ===== src/Server/External.antt =====
-- server/externalapi.go: the HTTP handlers that list the regions, the environments and the
-- services. The parameters are those of the registry.
pub mod Counts
use skydns.Shared.{
  ℕ, ◌+◌, ℤ, Text, txt, text_eq, Bool, List, [], ◌∷◌, Option, none, some, if◌then◌else◌,
  text_Comparable,
}
use skydns.Shared.GoMap
use skydns.Msg.{Service}
use skydns.Registry.Tree.{Error, exists, not_exists, Result, ok, err}
use skydns.Registry.{get}
use skydns.Server.{Server, with_registry}
use skydns.Server.Http.Replies.{
  Request, Response, http_error, wrote_text, wrote_services, wrote_counts, aborted, Handler,
  message,
}

-- One more of a key: an increment where it is known, otherwise 1.
abbrev pub counted_once : List (Text × ℕ) → Text → Option ℕ → List (Text × ℕ)
counted_once m k (some n) = GoMap.insert m k (n + 1)
counted_once m k none = GoMap.insert m k 1

-- The loop over the services; `field` is their region or their environment.
unfoldable pub count_by : (Service → Text) → List Service → List (Text × ℕ) → List (Text × ℕ)
count_by field [] m = m
count_by field (serv ∷ services) m =
    count_by field services (counted_once m (field serv) (GoMap.lookup m (field serv)))

abbrev pub counts_of : (Service → Text) → Result (List Service) → Response
counts_of field (ok services) = wrote_counts (count_by field services [])
counts_of field (err not_exists) = wrote_text (txt "{}")
counts_of field (err exists) = http_error (message exists) 500
counts_of field (err Error.panic) = aborted

abbrev pub services_of : Result (List Service) → Response
services_of (ok services) = wrote_services services
services_of (err not_exists) = http_error (message not_exists) 404
services_of (err exists) = http_error (message exists) 500
services_of (err Error.panic) = aborted

abbrev pub any_query : Text → Text
any_query q = if text_eq q [] then txt "*" else q

module _ (seconds : ℤ → ℕ) (now : ℕ) (split_domain_name : Text → List Text) where
  -- `s.getRegionsHTTPHandler`
  unfoldable pub get_regions_handler : Handler
  get_regions_handler s req =
      let (result, r) = get seconds now split_domain_name s.registry (txt "*") in
      (counts_of (λ v. v.region) result, with_registry s r)

  -- `s.getEnvironmentsHTTPHandler`
  unfoldable pub get_environments_handler : Handler
  get_environments_handler s req =
      let (result, r) = get seconds now split_domain_name s.registry (txt "*") in
      (counts_of (λ v. v.environment) result, with_registry s r)

  -- `s.getServicesHTTPHandler`
  unfoldable pub get_services_handler : Handler
  get_services_handler s req =
      let (result, r) =
        get seconds now split_domain_name s.registry (any_query (req.query (txt "query"))) in
      (services_of result, with_registry s r)
