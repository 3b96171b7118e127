-- ===== src/Accounts/Tests.antt =====
-- Ann signs in, by her password or by another, and Bob is signed in.
use python_server.Base.{
  ◌≡◌, refl, ◌∷◌, [], none, some, true, false, codes, text_eq, text_eq_refl, Text, err,
  if◌then◌else◌, unauthorized, forbidden, ltb,
}
use python_server.Base.Int.{◌+ℤ◌}
use python_server.LoginGuard.{ensure_login_allowed, record_login_failure}
use python_server.LoginGuard.Tests.{site, request}
use python_server.Captcha.{up, consume_slider_ticket}
use python_server.Accounts.{
  Account, UserSession, AuthDb, session_expire_at, load_session_user, load_session_user_by_token,
  build_auth_response, logout,
}
use python_server.Accounts.Login.{State, Credentials, Door, sign_in}
use python_server.Accounts.Admitted.{Ends, sign_in-Ends}
use python_server.Accounts.Sessions.{bearer, build_auth_response-Loads}

abbrev pub ann : Account
ann = record {
  id = 1;
  user_no = codes "U1";
  phone = codes "100";
  role = codes "user";
  status = codes "active";
  is_registered = true;
  password_hash = codes "a";
  last_login_at = none;
}

abbrev pub bob : Account
bob = record ann { id = 2; user_no = codes "U2"; phone = codes "200"; password_hash = codes "b" }

abbrev bobs : UserSession
bobs = record {
  token = codes "tb";
  user_id = 2;
  role = codes "user";
  expires_at = 900;
  last_seen_at = none;
}

abbrev anns : UserSession
anns = record bobs { token = codes "ta"; user_id = 1 }

abbrev db : AuthDb
db = record { accounts = bob ∷ ann ∷ []; sessions = anns ∷ bobs ∷ [] }

-- The hash of a password is the password, and it is stored anew.
abbrev door : Door
door = record {
  site = site;
  captcha = record { enabled = true; tolerance = 6; expires_seconds = 120 };
  verify_password = λ password hash. if text_eq password hash then some (some hash) else none;
  token = codes "new";
}

abbrev state : State
state = record {
  db = db;
  store = [];
  cache = record { redis = up; challenges = []; tickets = (codes "t", (codes "user", 60)) ∷ [] };
}

abbrev credentials : Text → Credentials
credentials password = record {
  account = codes "100";
  password = password;
  slider_ticket = codes "t";
}

-- Opens the calls for a run.
calls : Unit {0}
unfolding sign_in ensure_login_allowed record_login_failure consume_slider_ticket
    build_auth_response load_session_user load_session_user_by_token logout text_eq ◌+ℤ◌
calls = tt

signed_in :
    (load_session_user none 70
      (bearer (codes "new"))
      (sign_in door 50 (codes "user") (credentials (codes "a")) request state).1.db).0
    ≡ some (record ann { last_login_at = some 50 })
unfolding calls
signed_in = refl

wrong_password :
    (sign_in door 50 (codes "user") (credentials (codes "b")) request state).0 ≡ err unauthorized
unfolding calls
wrong_password = refl

barred :
    (sign_in door 50
      (codes "user")
      (credentials (codes "a"))
      request
      (record state { db = record db { accounts = record ann { is_registered = false } ∷ [] } })).0
    ≡ err forbidden
unfolding calls
barred = refl

-- A session of another role than its account's: the two loaders differ.
abbrev promoted : AuthDb
promoted = record db { accounts = record ann { role = codes "admin" } ∷ [] }

by_header :
    (load_session_user none 70 (bearer (codes "ta")) promoted).0
    ≡ some (record ann { role = codes "admin" })
unfolding calls
by_header = refl

by_token : (load_session_user_by_token none 70 (codes "ta") promoted).0 ≡ none
unfolding calls
by_token = refl

sign_in-Ends_example :
    Ends door 50
      (codes "user")
      (credentials (codes "a"))
      request
      state
      (sign_in door 50 (codes "user") (credentials (codes "a")) request state)
sign_in-Ends_example = sign_in-Ends door 50 (codes "user") (credentials (codes "a")) request state

build_auth_response-Loads_example :
    (load_session_user none 70
      (bearer (codes "new"))
      (build_auth_response 50 (codes "new") ann db).1).0
    ≡ (if ltb (session_expire_at 50) 70
        then none
        else some (record ann { last_login_at = some 50 }))
build_auth_response-Loads_example =
    build_auth_response-Loads 50 70 (codes "new") ann ann db refl (text_eq_refl (codes "active"))
      refl refl
