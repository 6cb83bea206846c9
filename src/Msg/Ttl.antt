-- ===== src/Msg/Ttl.antt =====
-- The remaining time to live of a service.
use skydns.Shared.{ℕ, ◌+◌, ◌-◌, ◌*◌, ◌/◌, ◌%◌, ◌^◌, ◌≤◌, ◌<◌, ◌≡◌, refl, ℤ, pos, negsuc, arith}
use skydns.Msg.{Service, second, remaining_ttl, update_ttl}

-- Below 2^22 seconds a float64 tells nanoseconds apart, so that the conversion to an integer, which
-- truncates, gives the whole seconds of a duration.
abbrev pub ExactSeconds : (ℤ → ℕ) → Type 0
ExactSeconds seconds = (n : ℕ) → n < 2 ^ 22 * second → seconds (pos n) ≡ n / second

-- Where the conversion of a negative float goes through an int64, as on amd64, it wraps round.
abbrev pub WrapsNegative : (ℤ → ℕ) → Type 0
WrapsNegative seconds =
    (n : ℕ) → n + 1 < 2 ^ 22 * second → seconds (negsuc n) ≡ (2 ^ 32 - (n + 1) / second) % 2 ^ 32

module _ (seconds : ℤ → ℕ) (now : ℕ) (s : Service) where
  pub remaining_ttl-update_ttl :
      remaining_ttl seconds now (update_ttl seconds now s) ≡ remaining_ttl seconds now s
  unfolding update_ttl
  remaining_ttl-update_ttl = refl

  pub update_ttl_idem : update_ttl seconds now (update_ttl seconds now s) ≡ update_ttl seconds now s
  unfolding update_ttl
  update_ttl_idem = refl

-- A service that has not expired, and does so within 2^22 seconds, has its whole seconds left.
pub remaining_ttl_live :
    (seconds : ℤ → ℕ) (now : ℕ) (s : Service)
    → ExactSeconds seconds
    → now ≤ s.expires
    → s.expires < now + 2 ^ 22 * second
    → remaining_ttl seconds now s ≡ (s.expires - now) / second
unfolding remaining_ttl
remaining_ttl_live seconds now s exact h k = ground (arith, exact (s.expires - now))

-- With a conversion that wraps, a service that expired at least a second ago, and less than 2^22
-- seconds ago, has a remaining time of 2^32 seconds less those gone by, and not 0.
pub remaining_ttl_expired :
    (seconds : ℤ → ℕ) (now : ℕ) (s : Service)
    → WrapsNegative seconds
    → s.expires + second ≤ now
    → now < s.expires + 2 ^ 22 * second
    → remaining_ttl seconds now s ≡ 2 ^ 32 - (now - s.expires) / second
unfolding remaining_ttl
remaining_ttl_expired seconds now s wraps h k = ground (arith, wraps (now - s.expires - 1))

-- With such a conversion, a service that expired less than a second ago has 0 seconds left.
pub remaining_ttl_just_expired :
    (seconds : ℤ → ℕ) (now : ℕ) (s : Service)
    → WrapsNegative seconds
    → s.expires < now
    → now < s.expires + second
    → remaining_ttl seconds now s ≡ 0
unfolding remaining_ttl
remaining_ttl_just_expired seconds now s wraps h k = ground (arith, wraps (now - s.expires - 1))
