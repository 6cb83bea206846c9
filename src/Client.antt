-- ===== src/Client.antt =====
-- client/client.go: the client of the HTTP API. `Do` of `http.Client` is a parameter: it is given the
-- state of everything outside and a request, and returns an error or a response, and the next state.
-- `request_error method url` is the error of `http.NewRequest`, if the URL has one.
pub mod Cluster
mod Fixture
mod Tests
use skydns.Shared.{
  ℕ, zero, suc, ℤ, ◌++◌, Text, txt, text_eq, nat_eq, List, [], ◌∷◌, map, Option, none, some,
  if◌then◌else◌, dot,
}
use skydns.Msg.{Service, Callback, zero_service}
use skydns.Server.Http.Replies.{Decoded, decoded, malformed}
use skydns.Server.Dns.{Rr, srv}

-- The client; what it keeps of `http.Client` and `dns.Client` is outside.
pub record Client : Type 0 where
  pub base : Text
  pub secret : Text
  pub basedns : Text
  pub domain : Text

-- The package's errors, and `other` for one of a library. A panic is not an error value.
pub data ClientError : Type 0 where
  no_http_address no_dns_address invalid_response service_not_found conflicting_uuid : ClientError
  other : Text → ClientError
  panicked : ClientError

-- A value, or an error.
pub data Returned {ℓ} (A : Type ℓ) : Type ℓ where
  value : A → Returned A
  error : ClientError → Returned A

-- `NewClient`
abbrev pub new_client : (Text → Text) → Text → Text → Text → Text → Returned Client
new_client fqdn base secret domain basedns =
    if text_eq base []
    then error no_http_address
    else if text_eq basedns []
    then error no_dns_address
    else value (record { base = base; secret = secret; basedns = basedns; domain = fqdn domain })

-- `authorization` is the header of that name, if it is set.
pub record ClientRequest : Type 0 where
  pub method : Text
  pub url : Text
  pub body : Option Text
  pub authorization : Option Text

pub record Reply : Type 0 where
  pub status_code : ℕ
  pub location : Text
  pub body : Text

pub data Sent : Type 0 where
  no_answer : Text → Sent
  answered : Reply → Sent

-- `c.joinUrl(uuid)`
abbrev pub join_url : Client → Text → Text
join_url c uuid = c.base ++ (txt "/skydns/services/" ++ uuid)

-- `c.newRequest`: `http.NewRequest` returns no request with its error, and the header of none is
-- then a nil dereference.
abbrev pub made_request : Option Text → Client → Text → Text → Option Text → Returned ClientRequest
made_request (some e) c method url body =
    if text_eq c.secret [] then error (other e) else error panicked
made_request none c method url body = value (record {
  method = method;
  url = url;
  body = body;
  authorization = if text_eq c.secret [] then none else some c.secret;
})

-- `c.extractBaseFromLocation`, of the scheme and the host of the URL or an error.
abbrev pub base_of : Decoded (Text × Text) → Returned Text
base_of (malformed e) = error (other e)
base_of (decoded (scheme, host)) = value (scheme ++ (txt "://" ++ host))

abbrev pub returns {ℓ κ} : {W : Type ℓ} {A : Type κ} → ClientError → W → Returned A × W
returns e w = (error e, w)

abbrev pub refuses {ℓ} : {W : Type ℓ} → ClientError → W → Option ClientError × W
refuses e w = (some e, w)

-- What a body is decoded to, or the decoder's error.
abbrev pub decoded_as {ℓ} : {A : Type ℓ} → Decoded A → Returned A
decoded_as (malformed e) = error (other e)
decoded_as (decoded a) = value a

abbrev pub got : (Text → Decoded (Option Service)) → Reply → Returned (Option Service)
got decode reply =
    if nat_eq reply.status_code 200
    then decoded_as (decode reply.body)
    else if nat_eq reply.status_code 404
    then error service_not_found
    else error invalid_response

abbrev pub got_all :
    (Text → Decoded (List (Option Service))) → Reply → Returned (List (Option Service))
got_all decode_all reply =
    if nat_eq reply.status_code 200 then decoded_as (decode_all reply.body) else value []

abbrev pub callback_added : Reply → Option ClientError
callback_added reply =
    if nat_eq reply.status_code 201
    then none
    else if nat_eq reply.status_code 404
    then some service_not_found
    else some invalid_response

-- The parameters: `format` is `strconv.Itoa`, the encoders and decoders are those of the library's
-- JSON, `parse_uri` is `url.ParseRequestURI`.
module _ {ℓ} {W : Type ℓ} (request_error : Text → Text → Option Text)
    (http_do : W → ClientRequest → Sent × W) where
  -- A request is made and sent: `fail` takes an error, and `handle` the response.
  abbrev pub handled {κ} : {B : Type κ} → (ClientError → W → B) → (Reply → W → B) → Sent × W → B
  handled fail handle (no_answer e, w) = fail (other e) w
  handled fail handle (answered reply, w) = handle reply w

  abbrev pub sent {κ} :
      {B : Type κ} → (ClientError → W → B) → (Reply → W → B) → Returned ClientRequest → W → B
  sent fail handle (error e) w = fail e w
  sent fail handle (value req) w = handled fail handle (http_do w req)

  abbrev pub request {κ} :
      {B : Type κ}
      → Client
      → Text
      → Text
      → Option Text
      → (ClientError → W → B)
      → (Reply → W → B)
      → W
      → B
  request c method url body fail handle w =
      sent fail handle (made_request (request_error method url) c method url body) w

  -- `Delete` and `Update`: their error, if any. No status is looked at.
  abbrev pub delete : Client → Text → W → Option ClientError × W
  delete c uuid w =
      request c (txt "DELETE") (join_url c uuid) none refuses (λ reply after. (none, after)) w

  module _ (format : ℕ → Text) where
    abbrev pub update : Client → Text → ℕ → W → Option ClientError × W
    update c uuid ttl w =
        request c (txt "PATCH") (join_url c uuid)
          (some (txt "{\"TTL\":" ++ (format ttl ++ txt "}"))) refuses (λ reply after. (none, after))
          w

  module _ (decode : Text → Decoded (Option Service)) where
    -- `Get`; a body of null decodes to a nil pointer.
    abbrev pub get : Client → Text → W → Returned (Option Service) × W
    get c uuid w =
        request c (txt "GET") (join_url c uuid) none returns
          (λ reply after. (got decode reply, after)) w

  module _ (decode_all : Text → Decoded (List (Option Service))) where
    -- `GetAllServices`
    abbrev pub get_all_services : Client → W → Returned (List (Option Service)) × W
    get_all_services c w =
        request c (txt "GET") (join_url c []) none returns
          (λ reply after. (got_all decode_all reply, after)) w

  module _ (decode_counts : Text → Decoded (List (Text × ℤ))) where
    -- `GetRegions` and `GetEnvironments`
    abbrev pub get_regions : Client → W → Returned (List (Text × ℤ)) × W
    get_regions c w =
        request c (txt "GET") (c.base ++ txt "/skydns/regions/") none returns
          (λ reply after. (decoded_as (decode_counts reply.body), after)) w

    abbrev pub get_environments : Client → W → Returned (List (Text × ℤ)) × W
    get_environments c w =
        request c (txt "GET") (c.base ++ txt "/skydns/environments/") none returns
          (λ reply after. (decoded_as (decode_counts reply.body), after)) w

  module _ (encode_callback : Callback → Decoded Text) where
    abbrev pub callback_sent : Client → Text → Decoded Text → W → Option ClientError × W
    callback_sent c uuid (malformed e) w = (some (other e), w)
    callback_sent c uuid (decoded body) w =
        request c (txt "PUT") (c.base ++ (txt "/skydns/callbacks/" ++ uuid)) (some body) refuses
          (λ reply after. (callback_added reply, after)) w

    -- `AddCallback`
    abbrev pub add_callback : Client → Text → Callback → W → Option ClientError × W
    add_callback c uuid cb w = callback_sent c uuid (encode_callback cb) w

  module _ (encode : Service → Decoded Text) (parse_uri : Text → Decoded (Text × Text)) where
    -- The error of `Add`, the client, whose base a redirect writes, and what is outside.
    abbrev pub Added : Type ℓ
    Added = (Option ClientError × Client) × W

    abbrev pub relocated : (Client → W → Option Added) → Client → Returned Text → W → Option Added
    relocated again c (error e) w = some ((some e, c), w)
    relocated again c (value base) w = again (record c { base = base }) w

    abbrev pub added : (Client → W → Option Added) → Client → Reply → W → Option Added
    added again c reply w =
        if nat_eq reply.status_code 201
        then some ((none, c), w)
        else if nat_eq reply.status_code 409
        then some ((some conflicting_uuid, c), w)
        else if nat_eq reply.status_code 301
        then relocated again c (base_of (parse_uri reply.location)) w
        else some ((some invalid_response, c), w)

    abbrev pub add_encoded :
        (Client → W → Option Added) → Client → Text → Decoded Text → W → Option Added
    add_encoded again c uuid (malformed e) w = some ((some (other e), c), w)
    add_encoded again c uuid (decoded body) w =
        request c (txt "PUT") (join_url c uuid) (some body) (λ e after. some ((some e, c), after))
          (added again c) w

    -- `Add` on fuel, which a redirect uses up; `none` is out of fuel.
    unfoldable pub add : ℕ → Client → Text → Service → W → Option Added
    add zero c uuid s w = none
    add (suc fuel) c uuid s w =
        add_encoded (λ moved after. add fuel moved uuid s after) c uuid (encode s) w

-- `GetAllServicesDNS`: an entry of the list that is no SRV record stays nil.
abbrev pub question_name : Client → Text → Text
question_name c qname = if text_eq qname [] then c.domain else qname ++ dot ∷ c.domain

module _ (format : ℕ → Text) where
  abbrev pub service_of : Rr → Option Service
  service_of (srv name ttl priority weight port target) = some (record zero_service {
    name =
        name
        ++ (txt " (Priority: "
            ++ (format priority ++ (txt ", Weight: " ++ (format weight ++ txt ")"))));
    host = target;
    port = port;
    ttl = ttl;
  })
  service_of _ = none

  abbrev pub services_of : Decoded (List Rr) → Returned (List (Option Service))
  services_of (malformed e) = error (other e)
  services_of (decoded answer) = value (map service_of answer)

  -- `exchange` is `c.d.Exchange` of an SRV question, and returns the answers.
  abbrev pub get_all_services_dns {ℓ} :
      {W : Type ℓ}
      → (W → Text → Text → Decoded (List Rr) × W)
      → Client
      → W
      → Returned (List (Option Service)) × W
  get_all_services_dns exchange c w =
      let (answer, after) = exchange w (question_name c []) c.basedns in (services_of answer, after)
