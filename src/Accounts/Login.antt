-- ===== src/Accounts/Login.antt =====
-- login and admin_login of app/api/auth.py: the guard, the captcha's ticket, the password, the account's status,
-- and the session.
use python_server.Base.{
  ℕ, Bool, ◌&&◌, ◌||◌, Option, none, some, Text, codes, text_eq, if◌then◌else◌, find, Result, ok,
  err, too_many_requests, unavailable, unauthorized, forbidden,
}
use python_server.Memory.{Store}
use python_server.LoginGuard.{
  Site, Request, Verdict, ensure_login_allowed, record_login_failure, clear_login_failures,
}
use python_server.Captcha.{Cache, CaptchaSettings, consume_slider_ticket}
use python_server.Accounts.{Account, AuthDb, is_active, build_auth_response}

-- The two parts of Redis and the database. What a call writes to Redis stays when it raises.
pub record State : Type 0 where
  pub db : AuthDb
  pub store : Store
  pub cache : Cache

pub record Credentials : Type 0 where
  pub account : Text
  pub password : Text
  pub slider_ticket : Text

-- The settings, and the library: `verify_and_rehash_password` of a password and a stored hash (none where it does
-- not match, else the new hash if there is one), and the token that is drawn.
pub record Door : Type 0 where
  pub site : Site
  pub captcha : CaptchaSettings
  pub verify_password : Text → Text → Option (Option Text)
  pub token : Text

abbrev pub Answer : Type 0
Answer = Result (Text × Account) × State

abbrev pub named : Text → Text → Account → Bool
named role account a = (text_eq a.phone account || text_eq a.user_no account) && text_eq a.role role

-- The account whose password it is, with the hash to store.
abbrev pub authenticate : Door → Text → Credentials → AuthDb → Option (Account × Option Text)
authenticate d role c db = elim (find (named role c.account) db.accounts) [
  | none ↦ none
  | some a ↦ elim (d.verify_password c.password a.password_hash) [
    | none ↦ none
    | some new ↦ some (a, new)
  ]
]

-- A wrong password is counted, then refused.
abbrev pub refuse_password : Door → ℕ → Text → State → Answer
refuse_password d now key s = elim (record_login_failure d.site now key s.store) [
  | err e ↦ (err e, s)
  | ok store ↦ (err unauthorized, record s { store = store })
]

abbrev pub with_hash : Option Text → Account → Account
with_hash none a = a
with_hash (some hash) a = record a { password_hash = hash }

-- The accounts that may sign in: users who are registered and active, and administrators who are active.
abbrev pub may_enter : Text → Account → Bool
may_enter role a = is_active a && (text_eq role (codes "admin") || a.is_registered)

-- The password was right.
abbrev pub enter : Door → ℕ → Text → Text → Account → Option Text → State → Answer
enter d now role key a new s =
    let cleared = record s { store = clear_login_failures key s.store } in
    let a' = with_hash new a in
    if may_enter role a
    then (
      ok (build_auth_response now d.token a' s.db).0,
      record cleared { db = (build_auth_response now d.token a' s.db).1 },
    )
    else (err forbidden, cleared)

abbrev pub check_password : Door → ℕ → Text → Text → Credentials → State → Answer
check_password d now role key c s = elim (authenticate d role c s.db) [
  | none ↦ refuse_password d now key s
  | some (a, new) ↦ enter d now role key a new s
]

abbrev pub check_ticket : Door → ℕ → Text → Text → Credentials → State → Answer
check_ticket d now role key c s =
    let (answer, cache) = consume_slider_ticket now d.captcha c.slider_ticket role s.cache in
    let s' = record s { cache = cache } in
    elim answer [ err e ↦ (err e, s') | ok t ↦ check_password d now role key c s' ]

-- `login` for the role "user", `admin_login` for "admin".
unfoldable pub sign_in : Door → ℕ → Text → Credentials → Request → State → Answer
sign_in d now role c r s =
    let (verdict, store) = ensure_login_allowed d.site now role c.account r s.store in
    let s' = record s { store = store } in
    elim verdict [
      | Verdict.out_of_service ↦ (err unavailable, s')
      | Verdict.locked seconds ↦ (err too_many_requests, s')
      | Verdict.allowed key ↦ check_ticket d now role key c s'
    ]
