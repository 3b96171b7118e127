-- ===== src/Captcha/Solved.antt =====
-- A challenge from its creation to the login.
use python_server.Base.{
  ℕ, ◌+◌, ◌≤◌, ◌<◌, ◌≡◌, ap, ◌∙◌, Bool, true, false, not, ◌||◌, Option, none, some, [], Text, arith,
  text_eq, text_eq_refl, leb, lt→ltb, le→ltb, if◌then◌else◌, is_empty, if_true, Result, ok, err,
  bad_request,
}
use python_server.Base.Int.{ℤ}
use python_server.Captcha.{
  Table, Challenge, Answers, up, Cache, CaptchaSettings, new_challenge, put_key, find_key,
  cache_get_json, cache_set_json, is_scope, or_default, distance, drop_challenge, store_challenge,
  store_ticket, drop_ticket, create_slider_challenge, verify_found, verify_slider_challenge,
  consume_slider_ticket,
}

find_key-put_key {ℓ} :
    {A : Type ℓ} (now later ttl : ℕ) (k : Text) (v : A) (m : Table A)
    → later < now + ttl
    → find_key later k (put_key now k v ttl m) ≡ some v
find_key-put_key now later ttl k v m h = grind (arith, text_eq_refl k, lt→ltb later (now + ttl) h)

get-set {ℓ} :
    {A : Type ℓ} (b b' : Bool) (now later ttl : ℕ) (k : Text) (v : A) (m : Table A)
    → b ≡ true
    → b' ≡ true
    → later < now + ttl
    → cache_get_json b later k (cache_set_json b' now k v ttl m) ≡ some v
get-set b b' now later ttl k v m e e' h = rw (e, e') (find_key-put_key now later ttl k v m h)

-- What a right guess at a challenge that was not missed comes to.
abbrev solved : ℕ → Text → Text → Text → Challenge → Cache → Result Text × Cache
solved now id scope fresh ch c =
    (ok fresh, store_ticket now fresh scope (or_default ch.ttl 120) (drop_challenge id c))

verify_found-solved :
    (now : ℕ) (id : Text) (x : ℤ) (scope fresh : Text) (ch : Challenge) (c : Cache)
    → ch.attempts < 3
    → distance x ch.target_x ≤ or_default ch.tolerance 6
    → verify_found now id x scope fresh ch c ≡ solved now id scope fresh ch c
unfolding verify_found
verify_found-solved now id x scope fresh ch c few near =
    let fresh_one : leb 3 ch.attempts ≡ false = ground arith in
    rw (fresh_one, le→ltb (or_default ch.tolerance 6) (distance x ch.target_x) near, verify_found)

verify-solved :
    (now : ℕ) (id : Text) (x : ℤ) (scope fresh : Text) (ch : Challenge) (c : Cache)
    → is_scope scope ≡ true
    → cache_get_json c.redis.gets now id c.challenges ≡ some ch
    → ch.attempts < 3
    → distance x ch.target_x ≤ or_default ch.tolerance 6
    → verify_slider_challenge now id x scope fresh c ≡ solved now id scope fresh ch c
unfolding verify_slider_challenge
verify-solved now id x scope fresh ch c valid got few near = rw valid (
    ap
      (λ (o : Option Challenge). elim o as (λ _. Result Text × Cache) [
        | none ↦ (err bad_request, c)
        | some a ↦ verify_found now id x scope fresh a c
      ])
      got
    ∙ verify_found-solved now id x scope fresh ch c few near)

consume-accepts :
    (now : ℕ) (settings : CaptchaSettings) (id scope : Text) (c : Cache)
    → settings.enabled ≡ true
    → not (is_scope scope) || is_empty id ≡ false
    → cache_get_json c.redis.gets now id c.tickets ≡ some scope
    → (consume_slider_ticket now settings id scope c).0 ≡ ok tt
unfolding consume_slider_ticket
consume-accepts now settings id scope c on formed got =
    rw (on, formed)
      (ap
          (λ (o : Option Text).
            (elim o as (λ _. Result (Unit {0}) × Cache) [
              | none ↦ (err bad_request, c)
              | some s ↦ (if text_eq s scope then ok tt else err bad_request, drop_ticket id c)
            ]).0)
          got
        ∙ ap (λ b. if b then ok tt else err bad_request) (text_eq_refl scope))

-- While Redis answers, a challenge that is created, solved within its tolerance before it expires, and whose ticket is presented
-- with the same scope before that expires, lets the login through.
pub create_slider_challenge-Solved :
    (t0 t1 t2 : ℕ) (settings : CaptchaSettings) (id : Text) (target : ℕ) (x : ℤ)
    (scope fresh : Text) (c : Cache)
    → c.redis ≡ up
    → settings.enabled ≡ true
    → not (is_scope scope) || is_empty fresh ≡ false
    → is_scope scope ≡ true
    → t1 < t0 + settings.expires_seconds
    → t2 < t1 + or_default settings.expires_seconds 120
    → distance x target ≤ or_default settings.tolerance 6
    → let c0 = (create_slider_challenge t0 settings id target c).1 in
      let c1 = (verify_slider_challenge t1 id x scope fresh c0).1 in
      ((verify_slider_challenge t1 id x scope fresh c0).0 ≡ ok fresh)
      × ((consume_slider_ticket t2 settings fresh scope c1).0 ≡ ok tt)
unfolding create_slider_challenge
create_slider_challenge-Solved t0 t1 t2 settings id target x scope fresh c all_up on formed valid h1
      h2 near =
    let ch = new_challenge settings target in
    let gets = ap (λ (a : Answers). a.gets) all_up in
    let sets = ap (λ (a : Answers). a.sets) all_up in
    let c0 = store_challenge t0 id ch settings.expires_seconds c in
    let created : (create_slider_challenge t0 settings id target c).1 ≡ c0 =
      ap (λ (p : Text × Cache). p.1) (if_true settings.enabled ([], c) on) in
    let found =
      get-set c.redis.gets c.redis.sets t0 t1 settings.expires_seconds id ch c.challenges gets sets
        h1 in
    let result = verify-solved t1 id x scope fresh ch c0 valid found (omega arith) near in
    let kept =
      get-set c.redis.gets c.redis.sets t1 t2 (or_default ch.ttl 120) fresh scope c.tickets gets
        sets h2 in
    let verified = ap (verify_slider_challenge t1 id x scope fresh) created ∙ result in
    (
      ap (λ (r : Result Text × Cache). r.0) verified,
      ap (λ (r : Result Text × Cache). (consume_slider_ticket t2 settings fresh scope r.1).0)
            verified
          ∙ consume-accepts t2 settings fresh scope (solved t1 id scope fresh ch c0).1 on formed
              kept,
    )
