-- ===== src/LoginGuard/Tests.antt =====
-- Two failures, a limit of two, and a login through a proxy.
use python_server.Base.{
  max, ◌≡◌, refl, ◌∷◌, [], none, some, true, codes, text_eq, arith, Text, ok, leb, if◌then◌else◌,
  value_or,
}
use python_server.Base.Int.{◌+ℤ◌}
use python_server.Memory.{Store}
use python_server.LoginGuard.{
  Site, Request, login_key, client_ip, allowed, locked, ensure_login_allowed, record_login_failure,
  clear_login_failures,
}
use python_server.LoginGuard.Lockout.{failures, ensure_login_allowed-Locks}

abbrev pub site : Site
site = record {
  login_max_attempts = 2;
  login_attempt_window_seconds = 60;
  trusted_proxy_list = codes "10.0.0.0/8" ∷ [];
  ip_address = λ s. if text_eq s (codes "nowhere") then none else some s;
  in_network = λ a n. some (text_eq a (codes "10.0.0.1"));
  sha256 = λ s. s;
  available = true;
}

-- The first address that can be read, from the proxy's header.
abbrev pub request : Request
request = record {
  client = some (codes "10.0.0.1");
  x_forwarded_for = codes "nowhere, 8.8.8.8,9.9.9.9";
  x_real_ip = [];
}

address : client_ip site request ≡ codes "8.8.8.8"
unfolding text_eq
address = refl

-- The same header from an address that is no proxy.
spoofed : client_ip site (record request { client = some (codes "7.7.7.7") }) ≡ codes "7.7.7.7"
unfolding text_eq
spoofed = refl

abbrev key : Text
key = login_key site (codes "web") (codes " Ann ") (client_ip site request)

key_text : key ≡ codes "security:login:web:ann:8.8.8.8"
unfolding text_eq
key_text = refl

refused :
    (ensure_login_allowed site 30
      (codes "web")
      (codes " Ann ")
      request
      (value_or [] (failures site key (10 ∷ 20 ∷ []) []))).0
    ≡ locked 50
unfolding ensure_login_allowed record_login_failure text_eq ◌+ℤ◌
refused = refl

cleared :
    (ensure_login_allowed site 30
      (codes "web")
      (codes " Ann ")
      request
      (clear_login_failures key (value_or [] (failures site key (10 ∷ 20 ∷ []) [])))).0
    ≡ allowed key
unfolding ensure_login_allowed record_login_failure text_eq ◌+ℤ◌
cleared = refl

ensure_login_allowed-Locks_example :
    (t : Store) × (failures site key (10 ∷ 20 ∷ []) [] ≡ ok t)
    × ((ensure_login_allowed site 30 (codes "web") (codes " Ann ") request t).0
        ≡ (if leb 2 2 then locked (max 1 50) else allowed key))
ensure_login_allowed-Locks_example =
    ensure_login_allowed-Locks site (codes "web") (codes " Ann ") request 10 (20 ∷ []) 30 [] refl
      refl (omega arith, tt) (omega arith)
