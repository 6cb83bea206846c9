-- ===== src/Server/Http/Lifetimes.antt =====
-- What a GET of a service answers as its time passes.
use skydns.Shared.{
  ℕ, ℤ, ◌+◌, ◌-◌, ◌*◌, ◌/◌, ◌^◌, ◌≤◌, ◌<◌, Text, txt, none, some, if◌then◌else◌, text_Comparable,
  true, ◌≡◌, ◌⊎◌, refl, arith, Bool-cases, inl, inr, leb,
}
use skydns.Shared.GoMap
use skydns.Msg.{Service, second, remaining_ttl}
use skydns.Msg.Ttl.{
  ExactSeconds, WrapsNegative, remaining_ttl_live, remaining_ttl_expired,
  remaining_ttl_just_expired,
}
use skydns.Registry.Tree.{not_exists}
use skydns.Registry.Consistency.{IsConsistent}
use skydns.Registry.View.{view}
use skydns.Server.{Server}
use skydns.Server.Http.Replies.{Request, Response, http_error, wrote_service, message}
use skydns.Server.Http.{get_service_handler}
use skydns.Server.Http.Laws.{get_service_handler_lem}

module _ (now : ℕ) where
  -- The answer for a service by its expiry.
  abbrev pub IsTimely : Service → Response → Type 0
  IsTimely t answer =
      ((now ≤ t.expires)
        × (answer ≡ (
            if leb 1 ((t.expires - now) / second)
            then wrote_service (record t { ttl = (t.expires - now) / second })
            else http_error (message not_exists) 404)))
      ⊎ ((t.expires < now)
          × (now < t.expires + second)
          × (answer ≡ http_error (message not_exists) 404))
      ⊎ ((t.expires + second ≤ now)
          × (answer ≡ wrote_service (record t { ttl = 2 ^ 32 - (now - t.expires) / second })))

  -- The answer that `RemainingTTL` gives.
  abbrev answered : Service → ℕ → Response
  answered t left =
      if leb 1 left
      then wrote_service (record t { ttl = left })
      else http_error (message not_exists) 404

  remaining-IsTimely :
      (seconds : ℤ → ℕ)
      → ExactSeconds seconds
      → WrapsNegative seconds
      → (t : Service) → t.expires < now + 2 ^ 22 * second
      → now < t.expires + 2 ^ 22 * second
      → IsTimely t (answered t (remaining_ttl seconds now t))
  remaining-IsTimely seconds exact wraps t near past = elim (Bool-cases (leb now t.expires)) [
    | inl live ↦
        let unexpired : now ≤ t.expires = ground (arith, live) in
        inl (unexpired, rw (remaining_ttl_live seconds now t exact unexpired near) refl)
    | inr gone ↦ elim (Bool-cases (leb (t.expires + second) now)) [
      | inl long ↦
          let expired : t.expires + second ≤ now = ground (arith, long) in
          let alive : leb 1 (2 ^ 32 - (now - t.expires) / second) ≡ true = ground arith in
          inr
            (inr (expired, rw (remaining_ttl_expired seconds now t wraps expired past, alive) refl))
      | inr just ↦
          let after : t.expires < now = ground (arith, gone) in
          let before : now < t.expires + second = ground (arith, just) in
          inr (
            inl (
              after,
              before,
              rw (remaining_ttl_just_expired seconds now t wraps after before) refl,
            ))
    ]
  ]

-- For a route with a UUID, on a server whose registry is consistent, be it the leader or not, where
-- durations below 2^22 seconds convert to their whole seconds and negative ones wrap round as on
-- amd64, and the service expires, or has expired, less than 2^22 seconds from now: a GET of a
-- registered service that has not expired answers it with the whole seconds that it has left, or
-- with 404 if there is not one; for less than a second after its expiry the answer is 404, and from
-- then on it is again the service, with 2^32 less the whole seconds gone by. A UUID that is not
-- registered is answered with 404, and the server is as it was.
pub get_service_handler_time :
    (s : Server)
    → IsConsistent s.registry
    → (req : Request) (uuid : Text) → GoMap.lookup req.vars (txt "uuid") ≡ some uuid
    → (seconds : ℤ → ℕ) (now : ℕ) → ExactSeconds seconds
    → WrapsNegative seconds
    → ((t : Service)
        → view s.registry uuid ≡ some t
        → (t.expires < now + 2 ^ 22 * second) × (now < t.expires + 2 ^ 22 * second))
    → ((t : Service) × (view s.registry uuid ≡ some t)
        × IsTimely now t (get_service_handler seconds now s req).0)
      ⊎ ((view s.registry uuid ≡ none)
          × (get_service_handler seconds now s req ≡ (http_error (message not_exists) 404, s)))
get_service_handler_time s consistent req uuid routed seconds now exact wraps near =
    elim (get_service_handler_lem s consistent req uuid routed seconds now) [
      | inr (unknown, same) ↦ inr (unknown, same)
      | inl (t, known, answer) ↦
          let (ahead, behind) = near t known in
          inl (t, known, rw answer (remaining-IsTimely now seconds exact wraps t ahead behind))
    ]
