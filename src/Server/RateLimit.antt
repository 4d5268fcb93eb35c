-- ===== src/Server/RateLimit.antt =====
-- `allowAuthAttempt` of `internal/server/handlers.go`: at most ten attempts of an address and of an
-- email in a minute. Times are nanoseconds since Go's zero time, which is 0. `split_host` is
-- net.SplitHostPort, and `to_lower` is strings.ToLower on all of Unicode.
pub mod Buckets
pub mod Budget
pub mod Passing
use cotests.Prelude.{
  ℕ, ◌+◌, ◌-◌, ◌*◌, ◌^◌, String, Bool, true, false, not, ◌||◌, Option, none, some, List, [], ◌∷◌,
  ltb, leb, ◌==◌, if◌then◌else◌, keep, length, any, trim_space,
}
use cotests.Prelude.Assoc.{lookup, put}
use Prim.Native.String.{◌++◌}

pub record AuthAttempt : Type 0 where
  pub count : ℕ
  pub start : ℕ

abbrev pub Attempts : Type 0
Attempts = List (String × AuthAttempt)

abbrev pub limit : ℕ
limit = 10

-- time.Minute
abbrev pub window : ℕ
window = 60 * 10 ^ 9

-- `now.Sub(attempt.start) >= window`; a negative difference is as short as none
abbrev pub expired : ℕ → AuthAttempt → Bool
expired now attempt = leb window (now - attempt.start)

-- The bucket as the loops over the keys see it; a missing entry is the zero value.
unfoldable pub bucket : ℕ → Option AuthAttempt → AuthAttempt
bucket now none = record { count = 0; start = now }
bucket now (some attempt) =
    if attempt.start == 0 || expired now attempt then record { count = 0; start = now } else attempt

unfoldable pub sweep : ℕ → Attempts → Attempts
sweep now = keep (λ entry. not (expired now entry.1))

unfoldable pub exhausted : ℕ → Attempts → String → Bool
unfolding bucket
exhausted now attempts key = leb limit (bucket now (lookup key attempts)).count

unfoldable pub charge : ℕ → String → Attempts → Attempts
unfolding bucket
charge now key attempts =
    let b = bucket now (lookup key attempts) in put key (record b { count = b.count + 1 }) attempts

unfoldable pub charge_all : ℕ → List String → Attempts → Attempts
unfolding charge
charge_all now [] attempts = attempts
charge_all now (key ∷ keys) attempts = charge_all now keys (charge now key attempts)

module _ (split_host : String → Option String) (to_lower : String → String) where
  -- the address without the port, or all of it
  unfoldable pub host_of : String → String
  host_of remote_addr = elim (split_host remote_addr) [ none ↦ remote_addr | some host ↦ host ]

  unfoldable pub ip_key : String → String
  unfolding host_of
  ip_key remote_addr = "ip:" ++ host_of remote_addr

  unfoldable pub email_key : String → String
  email_key email = "email:" ++ to_lower (trim_space email)

  unfoldable pub allow_auth_attempt : String → String → ℕ → Attempts → Bool × Attempts
  unfolding sweep exhausted charge_all ip_key email_key
  allow_auth_attempt remote_addr email now attempts =
      let live = sweep now attempts in
      let keys = ip_key remote_addr ∷ email_key email ∷ [] in
      if ltb 10000 (length live)
      then (false, live)
      else if any (exhausted now live) keys
      then (false, live)
      else (true, charge_all now keys live)
