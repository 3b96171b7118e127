-- ===== src/LoginGuard.antt =====
-- app/core/login_guard.py over the store of Memory: failed logins are counted by a key of scope, account and address.
pub mod Lockout
pub mod Tests
use python_server.Base.{
  ℕ, ◌+◌, max, Bool, true, false, not, ◌&&◌, Option, none, some, List, [], ◌∷◌, ◌++◌, Text, codes,
  lower, ◌==◌, leb, map, if◌then◌else◌, strip, Result, ok, err, ◌>>=◌, unavailable,
}
use python_server.Base.Int.{ℤ, pos, pos_part, ltb_ℤ}
use python_server.Memory.{
  Store, Value, value_of, get, ttl, delete, int_of, execute, op_incr, op_expire,
}

-- The settings, and the library's functions: what `ip_address` reads, in its standard form, whether an address
-- is in a network (none where the network cannot be read), and the hash.
pub record Site : Type 0 where
  pub login_max_attempts : ℕ
  pub login_attempt_window_seconds : ℕ
  pub trusted_proxy_list : List Text
  pub ip_address : Text → Option Text
  pub in_network : Text → Text → Option Bool
  pub sha256 : Text → Text
  pub available : Bool

-- The connection and the two headers, empty where they are missing.
pub record Request : Type 0 where
  pub client : Option Text
  pub x_forwarded_for : Text
  pub x_real_ip : Text

abbrev pub login_key : Site → Text → Text → Text → Text
login_key site scope account client_ip =
    codes "security:login:"
    ++ site.sha256 (scope ++ codes ":" ++ lower (strip account) ++ codes ":" ++ client_ip)

abbrev pub in_any : Site → Text → List Text → Bool
in_any site address [] = false
in_any site address (network ∷ networks) = elim (site.in_network address network) [
  | none ↦ in_any site address networks
  | some b ↦ if b then true else in_any site address networks
]

abbrev pub is_trusted_proxy : Site → Text → Bool
is_trusted_proxy site host = elim (site.ip_address host) [
  | none ↦ false
  | some address ↦ in_any site address site.trusted_proxy_list
]

-- `value.split(",")`
abbrev pub split_commas : Text → Text → List Text
split_commas word [] = word ∷ []
split_commas word (c ∷ s) =
    let longer = split_commas (word ++ (c ∷ [])) s in
    let fresh = split_commas [] s in if c == 44 then word ∷ fresh else longer

abbrev pub first_address : Site → List Text → Option Text
first_address site [] = none
first_address site (v ∷ vs) = elim (site.ip_address (strip v)) [
  | none ↦ first_address site vs
  | some a ↦ some a
]

abbrev pub direct_ip : Request → Text
direct_ip r = elim r.client [ none ↦ codes "unknown" | some host ↦ host ]

abbrev pub real_ip : Site → Request → Text
real_ip site r = elim (site.ip_address (strip r.x_real_ip)) [ none ↦ direct_ip r | some a ↦ a ]

-- `_client_ip`: a proxy's headers count only where the proxy is trusted.
abbrev pub client_ip : Site → Request → Text
client_ip site r =
    if not (is_trusted_proxy site (direct_ip r))
    then direct_ip r
    else elim (first_address site (split_commas [] r.x_forwarded_for)) [
      | some a ↦ a
      | none ↦ real_ip site r
    ]

-- Logins go on under a key, wait for a number of seconds, or the store is out of service.
pub data Verdict : Type 0 where
  allowed : Text → Verdict
  locked : ℕ → Verdict
  out_of_service : Verdict

abbrev pub judge : Site → ℕ → Text → Result ℤ → Store → Verdict × Store
judge site now key (err e) s = (out_of_service, s)
judge site now key (ok attempts) s =
    if ltb_ℤ attempts (pos site.login_max_attempts)
    then (allowed key, s)
    else (locked (max 1 (pos_part (ttl now key s).0)), (ttl now key s).1)

-- `ensure_login_allowed`
unfoldable pub ensure_login_allowed : Site → ℕ → Text → Text → Request → Store → Verdict × Store
ensure_login_allowed site now scope account r s =
    let key = login_key site scope account (client_ip site r) in
    if site.available
    then judge site now key (int_of (get now key s).0) (get now key s).1
    else (out_of_service, s)

-- `record_login_failure`
unfoldable pub record_login_failure : Site → ℕ → Text → Store → Result Store
record_login_failure site now key s =
    if site.available
    then (execute now (op_incr key ∷ op_expire key site.login_attempt_window_seconds ∷ []) s
        >>= λ r. ok r.1)
    else err unavailable

-- `clear_login_failures`
abbrev pub clear_login_failures : Text → Store → Store
clear_login_failures key s = (delete (key ∷ []) s).1
