-- ===== src/Accounts.antt =====
-- Accounts and their sessions: app/core/security.py, and build_auth_response and logout of app/api/auth.py.
use python_server.Base.{
  ℕ, ◌+◌, ◌*◌, Bool, true, false, not, ◌&&◌, ◌||◌, Option, none, some, List, [], ◌∷◌, Text, codes,
  text_eq, ltb, leb, map, ◌==◌, if◌then◌else◌, is_empty, lower, strip, find, select,
}
pub mod Login
pub mod Admitted
pub mod Sessions
pub mod Tests

-- The columns of UserAccount that signing in reads or writes.
pub record Account : Type 0 where
  pub id : ℕ
  pub user_no : Text
  pub phone : Text
  pub role : Text
  pub status : Text
  pub is_registered : Bool
  pub password_hash : Text
  pub last_login_at : Option ℕ

pub record UserSession : Type 0 where
  pub token : Text
  pub user_id : ℕ
  pub role : Text
  pub expires_at : ℕ
  pub last_seen_at : Option ℕ

pub record AuthDb : Type 0 where
  pub accounts : List Account
  pub sessions : List UserSession

abbrev pub find_account : ℕ → List Account → Option Account
find_account id = find (λ a. a.id == id)

abbrev pub set_account : Account → List Account → List Account
set_account new [] = []
set_account new (a ∷ as') = if a.id == new.id then new ∷ as' else a ∷ set_account new as'

abbrev pub find_session : Text → List UserSession → Option UserSession
find_session token = find (λ s. text_eq s.token token)

abbrev pub set_session : UserSession → List UserSession → List UserSession
set_session new [] = []
set_session new (s ∷ ss) = if text_eq s.token new.token then new ∷ ss else s ∷ set_session new ss

abbrev pub is_active : Account → Bool
is_active a = text_eq a.status (codes "active")

-- `expected_role and session.role != expected_role`
abbrev pub other_role : Option Text → Text → Bool
other_role none role = false
other_role (some expected) role = not (is_empty expected) && not (text_eq role expected)

abbrev pub seen : ℕ → UserSession → AuthDb → AuthDb
seen now s db = record db {
  sessions = set_session (record s { last_seen_at = some now }) db.sessions;
}

-- The account of a session that is live and has the role.
abbrev pub session_account : Option Text → ℕ → UserSession → List Account → Option Account
session_account expected_role now s accounts =
    if ltb s.expires_at now || other_role expected_role s.role
    then none
    else elim (find_account s.user_id accounts) [
      | none ↦ none
      | some a ↦ if is_active a then some a else none
    ]

abbrev pub load_token : Option Text → ℕ → Text → AuthDb → Option Account × AuthDb
load_token expected_role now token db = elim (find_session token db.sessions) [
  | none ↦ (none, db)
  | some s ↦ elim (session_account expected_role now s db.accounts) [
    | none ↦ (none, db)
    | some a ↦ (some a, seen now s db)
  ]
]

-- `authorization.partition(" ")`: before the first space, and after it.
abbrev pub partition_space : Text → Text × Text
partition_space [] = ([], [])
partition_space (c ∷ s) =
    let rest = partition_space s in if c == 32 then ([], s) else (c ∷ rest.0, rest.1)

-- `_extract_bearer_token`
abbrev pub extract_bearer_token : Option Text → Option Text
extract_bearer_token none = none
extract_bearer_token (some authorization) =
    let p = partition_space authorization in
    if is_empty authorization || (not (text_eq (lower p.0) (codes "bearer")) || is_empty p.1)
    then none
    else some (strip p.1)

-- `_load_session_user`
unfoldable pub load_session_user : Option Text → ℕ → Option Text → AuthDb → Option Account × AuthDb
load_session_user expected_role now authorization db = elim (extract_bearer_token authorization) [
  | none ↦ (none, db)
  | some token ↦ if is_empty token then (none, db) else load_token expected_role now token db
]

-- The further tests of `load_session_user_by_token`: the account's role is the session's, and the expected one.
abbrev pub same_role : Option Text → UserSession → Account → Bool
same_role expected_role s a = text_eq a.role s.role && not (other_role expected_role a.role)

-- `load_session_user_by_token`
unfoldable pub load_session_user_by_token :
    Option Text → ℕ → Text → AuthDb → Option Account × AuthDb
load_session_user_by_token expected_role now token db =
    if is_empty token then (none, db) else elim (find_session token db.sessions) [
      | none ↦ (none, db)
      | some s ↦ elim (session_account expected_role now s db.accounts) [
        | none ↦ (none, db)
        | some a ↦ if same_role expected_role s a then (some a, seen now s db) else (none, db)
      ]
    ]

-- `session_expire_at`: 30 days in seconds.
abbrev pub session_expire_at : ℕ → ℕ
session_expire_at now = now + 30 * 86400

abbrev pub session_of : Account → UserSession → Bool
session_of a s = (s.user_id == a.id) && text_eq s.role a.role

-- The sessions that `delete` leaves.
abbrev pub drop_sessions : Account → List UserSession → List UserSession
drop_sessions a = select (λ s. not (session_of a s))

abbrev pub new_session : ℕ → Text → Account → UserSession
new_session now token a = record {
  token = token;
  user_id = a.id;
  role = a.role;
  expires_at = session_expire_at now;
  last_seen_at = some now;
}

-- `build_auth_response`; `token` is what `generate_token` draws.
unfoldable pub build_auth_response : ℕ → Text → Account → AuthDb → (Text × Account) × AuthDb
build_auth_response now token a db =
    let a' = record a { last_login_at = some now } in
    (
      (token, a'),
      record {
        accounts = set_account a' db.accounts;
        sessions = new_session now token a ∷ drop_sessions a db.sessions;
      },
    )

-- `logout`
unfoldable pub logout : Account → AuthDb → AuthDb
logout a db = record db { sessions = drop_sessions a db.sessions }
