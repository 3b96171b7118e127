-- ===== src/Accounts/Sessions.antt =====
-- A session from its start to its end.
use python_server.Base.{
  ℕ, ◌≡◌, refl, sym, ap, ◌∙◌, subst, true, false, Option, none, some, List, [], ◌∷◌, ◌++◌, arith,
  Text, codes, text_eq, text_eq_refl, text_eq→eq, ltb, ◌==◌, if◌then◌else◌, Option-cases,
  Bool-cases, inl, inr, passes_of_find, is_empty, strip,
}
use python_server.Accounts.{
  Account, UserSession, AuthDb, is_active, find_account, set_account, find_session, session_account,
  extract_bearer_token, load_session_user, build_auth_response, logout, session_expire_at,
  drop_sessions, session_of, new_session,
}

abbrev pub bearer : Text → Option Text
bearer token = some (codes "Bearer " ++ token)

extract_bearer_token-bearer :
    (token : Text)
    → is_empty token ≡ false
    → strip token ≡ token
    → extract_bearer_token (bearer token) ≡ some token
unfolding text_eq
extract_bearer_token-bearer token full bare = rw (full, bare) refl

find_account-set_account :
    (new : Account) (as' : List Account) (b : Account)
    → find_account new.id as' ≡ some b
    → find_account new.id (set_account new as') ≡ some new
find_account-set_account new [] b h = absurd (ground arith)
find_account-set_account new (a ∷ as') b h = elim (Bool-cases (a.id == new.id)) [
  | inl same ↦ ground arith
  | inr differs ↦ ground (arith, find_account-set_account new as' b)
]

session_account-new :
    (now later : ℕ) (token : Text) (a : Account) (as' : List Account)
    → find_account a.id as' ≡ some a
    → is_active a ≡ true
    → session_account none later (new_session now token a) as'
      ≡ (if ltb (session_expire_at now) later then none else some a)
session_account-new now later token a as' found active = ground arith

drop_sessions-gone :
    (a : Account) (token : Text) (ss : List UserSession) (s : UserSession)
    → find_session token (drop_sessions a ss) ≡ some s
    → session_of a s ≡ false
drop_sessions-gone a token [] s h = absurd (ground arith)
drop_sessions-gone a token (t ∷ ss) s h = elim (Bool-cases (session_of a t)) [
  | inl gone ↦ ground (arith, drop_sessions-gone a token ss s)
  | inr stays ↦ ground (arith, drop_sessions-gone a token ss s)
]

load_session_user-carried :
    (e : Option Text) (later : ℕ) (authorization : Option Text) (t : Text) (s : UserSession)
    (db : AuthDb)
    → extract_bearer_token authorization ≡ some t
    → is_empty t ≡ false
    → find_session t db.sessions ≡ some s
    → (load_session_user e later authorization db).0 ≡ session_account e later s db.accounts
unfolding load_session_user
load_session_user-carried e later authorization t s db carried full found =
    elim (Option-cases (session_account e later s db.accounts)) [
      | inl none_loads ↦ ground arith
      | inr (c, owned) ↦ ground arith
    ]

-- From its sign-in on, the new token loads the account, with the time of the sign-in, until the session expires,
-- and nobody afterwards: where the account's row exists, is active, and the token has no spaces around it.
pub build_auth_response-Loads :
    (now later : ℕ) (token : Text) (a b : Account) (db : AuthDb)
    → find_account a.id db.accounts ≡ some b
    → is_active a ≡ true
    → is_empty token ≡ false
    → strip token ≡ token
    → (load_session_user none later (bearer token) (build_auth_response now token a db).1).0 ≡ (
        if ltb (session_expire_at now) later
        then none
        else some (record a { last_login_at = some now }))
unfolding build_auth_response
build_auth_response-Loads now later token a b db found active full bare =
    let a' : Account = record a { last_login_at = some now } in
    let row = find_account-set_account a' db.accounts b found in
    load_session_user-carried none later (bearer token) token (new_session now token a')
      (build_auth_response now token a db).1 (extract_bearer_token-bearer token full bare) full
      (rw (text_eq_refl token) refl)
    ∙ session_account-new now later token a' (set_account a' db.accounts) row active

session_account-Owner :
    (role : Text) (later : ℕ) (s : UserSession) (as' : List Account) (b : Account)
    → is_empty role ≡ false
    → session_account (some role) later s as' ≡ some b
    → ((s.user_id == b.id) ≡ true) × (text_eq s.role role ≡ true)
session_account-Owner role later s as' b full h = elim (Option-cases (find_account s.user_id as')) [
  | inl missing ↦ absurd (ground arith)
  | inr (c, found) ↦ let own = passes_of_find (λ x. x.id == s.user_id) as' c found in ground arith
]

load_session_user-Owner :
    (role : Text) (later : ℕ) (authorization : Option Text) (db : AuthDb) (b : Account)
    → is_empty role ≡ false
    → (load_session_user (some role) later authorization db).0 ≡ some b
    → (t : Text) × (s : UserSession) × (extract_bearer_token authorization ≡ some t)
      × (find_session t db.sessions ≡ some s)
      × ((s.user_id == b.id) ≡ true)
      × (text_eq s.role role ≡ true)
unfolding load_session_user
load_session_user-Owner role later authorization db b full h =
    elim (Option-cases (extract_bearer_token authorization)) [
      | inl missing ↦ absurd (ground arith)
      | inr (t, carried) ↦ elim (Option-cases (find_session t db.sessions)) [
        | inl missing ↦ absurd (ground arith)
        | inr (s, found) ↦ elim (Option-cases (session_account (some role) later s db.accounts)) [
          | inl missing ↦ absurd (ground arith)
          | inr (c, owned) ↦
              let same : c ≡ b = ground arith in
              let owner = session_account-Owner role later s db.accounts c full owned in
              (
                t,
                s,
                carried,
                found,
                subst (λ (x : Account). (s.user_id == x.id) ≡ true) same owner.0,
                owner.1,
              )
        ]
      ]
    ]

-- After a logout no token loads the account in its role.
pub logout-Ends :
    (later : ℕ) (authorization : Option Text) (a b : Account) (db : AuthDb)
    → is_empty a.role ≡ false
    → (load_session_user (some a.role) later authorization (logout a db)).0 ≡ some b
    → (b.id == a.id) ≡ false
unfolding logout
logout-Ends later authorization a b db full h =
    let (t, s, carried, found, owner, role) =
      load_session_user-Owner a.role later authorization (logout a db) b full h in
    let gone = drop_sessions-gone a t db.sessions s found in ground arith

-- After a sign-in only the new token loads the account in its role.
pub build_auth_response-Single :
    (now later : ℕ) (token : Text) (authorization : Option Text) (a b : Account) (db : AuthDb)
    → is_empty a.role ≡ false
    → (load_session_user (some a.role) later authorization (build_auth_response now token a db).1).0
      ≡ some b
    → (b.id == a.id) ≡ true
    → extract_bearer_token authorization ≡ some token
unfolding build_auth_response
build_auth_response-Single now later token authorization a b db full h same =
    let (t, s, carried, found, owner, role) =
      load_session_user-Owner a.role later authorization (build_auth_response now token a db).1 b
        full h in
    elim (Bool-cases (text_eq token t)) [
      | inl eq ↦ carried ∙ ap (λ x. some x) (sym (text_eq→eq token t eq))
      | inr other ↦
          let gone = drop_sessions-gone a t db.sessions s (ground arith) in absurd (ground arith)
    ]
