-- ===== src/Accounts/Admitted.antt =====
-- Who is signed in, and what a refusal leaves.
use python_server.Base.{
  ℕ, ◌≡◌, refl, ap, ◌∙◌, subst, true, Option, none, some, arith, Text, if_cases, Option-cases, inl,
  inr, find, Error, Result, false, ok, err, unauthorized, forbidden, unavailable, too_many_requests,
}
use python_server.LoginGuard.{
  Request, Verdict, allowed, ensure_login_allowed, record_login_failure, clear_login_failures,
}
use python_server.Memory.{Store}
use python_server.Captcha.{Cache, consume_slider_ticket}
use python_server.Accounts.{Account, AuthDb, build_auth_response}
use python_server.Accounts.Login.{
  State, Credentials, Door, Answer, named, authenticate, refuse_password, with_hash, may_enter,
  enter, check_password, check_ticket, sign_in,
}

-- How a sign-in ends: with a session for the account of that name and role, whose password it is, which may
-- enter, after the guard and the captcha; with a wrong password that is counted, or that could not be; without the
-- guard, locked by it, without a ticket, or barred. A refusal leaves the database as it was.
pub data Ends (d : Door) (now : ℕ) (role : Text) (c : Credentials) (r : Request) (s : State)
    : Answer → Type 0 where
  admitted :
      {a : Account} {new : Option Text} {key : Text} {t : State}
      → (ensure_login_allowed d.site now role c.account r s.store).0 ≡ allowed key
      → (consume_slider_ticket now d.captcha c.slider_ticket role s.cache).0 ≡ ok tt
      → find (named role c.account) s.db.accounts ≡ some a
      → d.verify_password c.password a.password_hash ≡ some new
      → may_enter role a ≡ true
      → t.db ≡ (build_auth_response now d.token (with_hash new a) s.db).1
      → t.store
        ≡ clear_login_failures key (ensure_login_allowed d.site now role c.account r s.store).1
      → Ends d now role c r s (ok (build_auth_response now d.token (with_hash new a) s.db).0, t)
  wrong_password :
      {key : Text} {t : State}
      → (ensure_login_allowed d.site now role c.account r s.store).0 ≡ allowed key
      → authenticate d role c s.db ≡ none
      → record_login_failure d.site now key
          (ensure_login_allowed d.site now role c.account r s.store).1
        ≡ ok t.store
      → t.db ≡ s.db
      → Ends d now role c r s (err unauthorized, t)
  no_guard :
      {t : State}
      → (ensure_login_allowed d.site now role c.account r s.store).0 ≡ Verdict.out_of_service
      → t.db ≡ s.db
      → Ends d now role c r s (err unavailable, t)
  locked_out :
      {seconds : ℕ} {t : State}
      → (ensure_login_allowed d.site now role c.account r s.store).0 ≡ Verdict.locked seconds
      → t.db ≡ s.db
      → Ends d now role c r s (err too_many_requests, t)
  no_ticket :
      {e : Error} {t : State}
      → (consume_slider_ticket now d.captcha c.slider_ticket role s.cache).0 ≡ err e
      → t.db ≡ s.db
      → Ends d now role c r s (err e, t)
  uncounted :
      {e : Error} {key : Text} {t : State}
      → (ensure_login_allowed d.site now role c.account r s.store).0 ≡ allowed key
      → authenticate d role c s.db ≡ none
      → record_login_failure d.site now key
          (ensure_login_allowed d.site now role c.account r s.store).1
        ≡ err e
      → t.db ≡ s.db
      → Ends d now role c r s (err e, t)
  barred :
      {a : Account} {new : Option Text} {key : Text} {t : State}
      → (ensure_login_allowed d.site now role c.account r s.store).0 ≡ allowed key
      → authenticate d role c s.db ≡ some (a, new)
      → may_enter role a ≡ false
      → t.store
        ≡ clear_login_failures key (ensure_login_allowed d.site now role c.account r s.store).1
      → t.db ≡ s.db
      → Ends d now role c r s (err forbidden, t)

authenticate-found :
    (d : Door) (role : Text) (c : Credentials) (db : AuthDb) (a : Account) (new : Option Text)
    → authenticate d role c db ≡ some (a, new)
    → (find (named role c.account) db.accounts ≡ some a)
      × (d.verify_password c.password a.password_hash ≡ some new)
authenticate-found d role c db a new h =
    elim (Option-cases (find (named role c.account) db.accounts)) [
      | inl missing ↦ absurd (ground arith)
      | inr (b, found) ↦ elim (Option-cases (d.verify_password c.password b.password_hash)) [
        | inl wrong ↦ absurd (ground arith)
        | inr (hash, right) ↦
            let same : (b, hash) ≡ (a, new) = ground arith in
            (
              found ∙ ap (λ (x : Account × Option Text). some x.0) same,
              subst
                  (λ (x : Account × Option Text).
                    d.verify_password c.password x.0.password_hash ≡ some x.1)
                  same right,
            )
      ]
    ]

module _ (d : Door) (now : ℕ) (role : Text) (c : Credentials) (r : Request) (s : State) where
  abbrev guarded : Verdict × Store
  guarded = ensure_login_allowed d.site now role c.account r s.store

  abbrev ticketed : Result (Unit {0}) × Cache
  ticketed = consume_slider_ticket now d.captcha c.slider_ticket role s.cache

  abbrev passed : State
  passed = record s { store = guarded.1; cache = ticketed.1 }

  module _ (key : Text) (free : guarded.0 ≡ allowed key) where
    entered :
        (a : Account) (new : Option Text)
        → ticketed.0 ≡ ok tt
        → authenticate d role c s.db ≡ some (a, new)
        → Ends d now role c r s (enter d now role key a new passed)
    entered a new ticket h =
        let (found, right) = authenticate-found d role c s.db a new h in
        let a' = with_hash new a in
        let cleared : State = record passed { store = clear_login_failures key passed.store } in
        if_cases (Ends d now role c r s) (may_enter role a)
          {x = (
            ok (build_auth_response now d.token a' s.db).0,
            record cleared { db = (build_auth_response now d.token a' s.db).1 },
          )}
          {y = (err forbidden, cleared)}
          (λ may. Ends.admitted free ticket found right may refl refl)
          (λ may_not. Ends.barred free h may_not refl refl)

    wrong :
        (m : Result Store)
        → record_login_failure d.site now key guarded.1 ≡ m
        → authenticate d role c s.db ≡ none
        → Ends d now role c r s (elim m as (λ _. Answer) [
          | err e ↦ (err e, passed)
          | ok store ↦ (err unauthorized, record passed { store = store })
        ])
    wrong (err e) counted h = Ends.uncounted free h counted refl
    wrong (ok store) counted h = Ends.wrong_password free h counted refl

    password_checked :
        (x : Option (Account × Option Text))
        → ticketed.0 ≡ ok tt
        → authenticate d role c s.db ≡ x
        → Ends d now role c r s (elim x as (λ _. Answer) [
          | none ↦ refuse_password d now key passed
          | some (a, new) ↦ enter d now role key a new passed
        ])
    password_checked none ticket h = wrong (record_login_failure d.site now key guarded.1) refl h
    password_checked (some (a, new)) ticket h = entered a new ticket h

    ticket_checked :
        (m : Result (Unit {0}))
        → ticketed.0 ≡ m
        → Ends d now role c r s (elim m as (λ _. Answer) [
          | err e ↦ (err e, passed)
          | ok t ↦ check_password d now role key c passed
        ])
    ticket_checked (err e) h = Ends.no_ticket h refl
    ticket_checked (ok t) h = password_checked (authenticate d role c s.db) h refl

  verdict_given :
      (v : Verdict)
      → guarded.0 ≡ v
      → Ends d now role c r s (elim v as (λ _. Answer) [
        | Verdict.out_of_service ↦ (err unavailable, record s { store = guarded.1 })
        | Verdict.locked seconds ↦ (err too_many_requests, record s { store = guarded.1 })
        | Verdict.allowed key ↦ check_ticket d now role key c (record s { store = guarded.1 })
      ])
  verdict_given (Verdict.out_of_service) h = Ends.no_guard h refl
  verdict_given (Verdict.locked seconds) h = Ends.locked_out h refl
  verdict_given (Verdict.allowed key) h = ticket_checked key h ticketed.0 refl

  -- A sign-in that goes through has passed the guard and the captcha, by the password of the account of that
  -- name and role, which may enter; it leaves the database with its new session and the failures cleared. A
  -- wrong password or an unknown account is counted and refused. Any other refusal is the guard's, the
  -- captcha's, the counter's, or that of an account that may not enter. No refusal changes the database.
  pub sign_in-Ends : Ends d now role c r s (sign_in d now role c r s)
  unfolding sign_in
  sign_in-Ends = verdict_given guarded.0 refl
