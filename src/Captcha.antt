-- ===== src/Captcha.antt =====
-- The slider captcha of app/core/slider_captcha.py over the cache helpers of app/core/cache.py: a
-- challenge is guessed at and exchanged for a ticket, which a login consumes. The ids
-- that uuid4 draws and the positions that randint draws are arguments.
pub mod Tickets
pub mod Guesses
pub mod Solved
pub mod Tests
use python_server.Base.{
  ℕ, ◌+◌, Bool, true, false, not, ◌&&◌, ◌||◌, Option, none, some, List, [], ◌∷◌, ◌++◌, Text, codes,
  text_eq, ltb, leb, ◌==◌, if◌then◌else◌, is_empty, Result, ok, err, bad_request,
}
use python_server.Base.Int.{ℤ, pos, ◌-ℤ◌, pos_part, neg_part}

-- What a challenge's value holds.
pub record Challenge : Type 0 where
  pub target_x : ℕ
  pub tolerance : ℕ
  pub attempts : ℕ
  pub ttl : ℕ

-- Keys with their values and the times at which they expire.
abbrev pub Table {ℓ} : Type ℓ → Type ℓ
Table A = List (Text × (A × ℕ))

-- Which commands of a call Redis answers. Without Redis, and where a command fails, the helpers go on as if nothing
-- was there, and nothing is written.
pub record Answers : Type 0 where
  pub gets : Bool
  pub sets : Bool
  pub deletes : Bool

abbrev pub up : Answers
up = record { gets = true; sets = true; deletes = true }

-- The two prefixes of keys each have a table: challenges, and the scopes of tickets. No call sends two commands of
-- one kind.
pub record Cache : Type 0 where
  pub redis : Answers
  pub challenges : Table Challenge
  pub tickets : Table Text

abbrev pub drop_key {ℓ} : {A : Type ℓ} → Text → Table A → Table A
drop_key k [] = []
drop_key k ((j, v) ∷ m) = if text_eq j k then drop_key k m else (j, v) ∷ drop_key k m

abbrev pub find_key {ℓ} : {A : Type ℓ} → ℕ → Text → Table A → Option A
find_key now k [] = none
find_key now k ((j, (v, expires)) ∷ m) =
    if text_eq j k && ltb now expires then some v else find_key now k m

abbrev pub put_key {ℓ} : {A : Type ℓ} → ℕ → Text → A → ℕ → Table A → Table A
put_key now k v ttl m = (k, (v, now + ttl)) ∷ drop_key k m

-- What becomes of Redis between two calls.
abbrev pub with_redis : Answers → Cache → Cache
with_redis answers c = record c { redis = answers }

-- `cache_get_json`, `cache_set_json` and `cache_delete`: a command that is not answered finds nothing and changes
-- nothing, and the call goes on.
abbrev pub cache_get_json {ℓ} : {A : Type ℓ} → Bool → ℕ → Text → Table A → Option A
cache_get_json answers now k m = if answers then find_key now k m else none

abbrev pub cache_set_json {ℓ} : {A : Type ℓ} → Bool → ℕ → Text → A → ℕ → Table A → Table A
cache_set_json answers now k v ttl m = if answers then put_key now k v ttl m else m

abbrev pub cache_delete {ℓ} : {A : Type ℓ} → Bool → Text → Table A → Table A
cache_delete answers k m = if answers then drop_key k m else m

-- The settings that the functions read, normalised.
pub record CaptchaSettings : Type 0 where
  pub enabled : Bool
  pub tolerance : ℕ
  pub expires_seconds : ℕ

-- SLIDER_CAPTCHA_SCOPES
abbrev pub is_scope : Text → Bool
is_scope s = text_eq s (codes "user") || (text_eq s (codes "admin") || text_eq s (codes "merchant"))

abbrev pub new_challenge : CaptchaSettings → ℕ → Challenge
new_challenge settings target_x = record {
  target_x = target_x;
  tolerance = settings.tolerance;
  attempts = 0;
  ttl = settings.expires_seconds;
}

abbrev pub store_challenge : ℕ → Text → Challenge → ℕ → Cache → Cache
store_challenge now id ch ttl c = record c {
  challenges = cache_set_json c.redis.sets now id ch ttl c.challenges;
}

abbrev pub drop_challenge : Text → Cache → Cache
drop_challenge id c = record c { challenges = cache_delete c.redis.deletes id c.challenges }

abbrev pub store_ticket : ℕ → Text → Text → ℕ → Cache → Cache
store_ticket now id scope ttl c = record c {
  tickets = cache_set_json c.redis.sets now id scope ttl c.tickets;
}

abbrev pub drop_ticket : Text → Cache → Cache
drop_ticket id c = record c { tickets = cache_delete c.redis.deletes id c.tickets }

-- `create_slider_challenge`: the id of the challenge, or "" where the captcha is off.
unfoldable pub create_slider_challenge : ℕ → CaptchaSettings → Text → ℕ → Cache → Text × Cache
create_slider_challenge now settings id target_x c =
    if settings.enabled
    then (id, store_challenge now id (new_challenge settings target_x) settings.expires_seconds c)
    else ([], c)

-- `value or default`, of a number.
abbrev pub or_default : ℕ → ℕ → ℕ
or_default n default = if n == 0 then default else n

abbrev pub distance : ℤ → ℕ → ℕ
distance x target = pos_part (x -ℤ pos target) + neg_part (x -ℤ pos target)

abbrev pub missed : Challenge → Challenge
missed ch = record ch { attempts = ch.attempts + 1 }

-- `verify_slider_challenge` of a challenge that is found.
unfoldable pub verify_found : ℕ → Text → ℤ → Text → Text → Challenge → Cache → Result Text × Cache
verify_found now id x scope fresh ch c =
    if leb 3 ch.attempts
    then (err bad_request, drop_challenge id c)
    else if ltb (or_default ch.tolerance 6) (distance x ch.target_x)
    then (err bad_request, store_challenge now id (missed ch) (or_default ch.ttl 120) c)
    else (ok fresh, store_ticket now fresh scope (or_default ch.ttl 120) (drop_challenge id c))

-- `verify_slider_challenge`; `fresh` is the id of the ticket.
unfoldable pub verify_slider_challenge : ℕ → Text → ℤ → Text → Text → Cache → Result Text × Cache
verify_slider_challenge now id x scope fresh c =
    if is_scope scope
    then elim (cache_get_json c.redis.gets now id c.challenges) [
      | none ↦ (err bad_request, c)
      | some ch ↦ verify_found now id x scope fresh ch c
    ]
    else (err bad_request, c)

-- `consume_slider_ticket`
unfoldable pub consume_slider_ticket :
    ℕ → CaptchaSettings → Text → Text → Cache → Result (Unit {0}) × Cache
consume_slider_ticket now settings id scope c =
    if settings.enabled
    then (if not (is_scope scope) || is_empty id
        then (err bad_request, c)
        else elim (cache_get_json c.redis.gets now id c.tickets) [
          | none ↦ (err bad_request, c)
          | some s ↦ (if text_eq s scope then ok tt else err bad_request, drop_ticket id c)
        ])
    else (ok tt, c)
