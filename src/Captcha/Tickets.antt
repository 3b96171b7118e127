-- ===== src/Captcha/Tickets.antt =====
-- Tickets that are presented again.
use python_server.Base.{
  ℕ, ◌≤◌, ◌≡◌, refl, ap, Bool, true, false, not, ◌||◌, Option, none, some, [], ◌∷◌, Text, arith,
  text_eq, if◌then◌else◌, is_empty, option_cases, if_intro, Result, ok, err, bad_request,
}
use python_server.Captcha.{
  Table, Answers, Cache, with_redis, CaptchaSettings, drop_key, find_key, is_scope, drop_ticket,
  consume_slider_ticket,
}

pub find_key-drop_key {ℓ} :
    {A : Type ℓ} (now : ℕ) (k : Text) (m : Table A) → find_key now k (drop_key k m) ≡ none
find_key-drop_key now k [] = refl
find_key-drop_key now k ((j, v) ∷ m) = ground (arith, find_key-drop_key now k m)

-- What is gone stays gone.
pub find_key-later {ℓ} :
    {A : Type ℓ} (now later : ℕ) (k : Text) (m : Table A)
    → now ≤ later
    → find_key now k m ≡ none
    → find_key later k m ≡ none
find_key-later now later k [] h e = refl
find_key-later now later k ((j, (v, expires)) ∷ m) h e =
    ground (arith, find_key-later now later k m)

-- The ticket is not there from `now` on.
abbrev pub IsGone : ℕ → Text → Cache → Type 0
IsGone now id c = (later : ℕ) → now ≤ later → find_key later id c.tickets ≡ none

consume_slider_ticket-IsGone :
    (now : ℕ) (settings : CaptchaSettings) (id scope : Text) (c : Cache)
    → settings.enabled ≡ true
    → not (is_scope scope) || is_empty id ≡ false
    → c.redis.gets ≡ true
    → c.redis.deletes ≡ true
    → IsGone now id (consume_slider_ticket now settings id scope c).1
unfolding consume_slider_ticket
consume_slider_ticket-IsGone now settings id scope c on formed gets deletes =
    rw (on, formed, gets)
      (option_cases (λ (x : Result (Unit {0}) × Cache). IsGone now id x.1)
        (find_key now id c.tickets) (λ e later h. find_key-later now later id c.tickets h e)
        (λ s e later h. rw deletes (find_key-drop_key later id c.tickets)))

not_found : (b : Bool) (o : Option Text) → o ≡ none → (if b then o else none) ≡ none
not_found b o h = ground arith

gone_ticket :
    (now later : ℕ) (settings : CaptchaSettings) (id scope : Text) (c : Cache)
    → settings.enabled ≡ true
    → now ≤ later
    → IsGone now id c
    → (consume_slider_ticket later settings id scope c).0 ≡ err bad_request
unfolding consume_slider_ticket
gone_ticket now later settings id scope c on h gone = rw on (
    if_intro (λ (x : Result (Unit {0}) × Cache). x.0 ≡ err bad_request)
      (not (is_scope scope) || is_empty id) refl
      (ap
        (λ (o : Option Text).
          (elim o as (λ _. Result (Unit {0}) × Cache) [
            | none ↦ (err bad_request, c)
            | some s ↦ (if text_eq s scope then ok tt else err bad_request, drop_ticket id c)
          ]).0)
        (not_found c.redis.gets (find_key later id c.tickets) (gone later h))))

-- While the captcha is on, a ticket that has been presented with a scope, whether it was accepted or not, in a call
-- whose reading and deleting Redis answered, is refused ever after, whatever Redis answers then.
pub consume_slider_ticket-Once :
    (now later : ℕ) (settings settings' : CaptchaSettings) (id scope scope' : Text) (c : Cache)
    (answers : Answers)
    → settings.enabled ≡ true
    → settings'.enabled ≡ true
    → not (is_scope scope) || is_empty id ≡ false
    → c.redis.gets ≡ true
    → c.redis.deletes ≡ true
    → now ≤ later
    → (consume_slider_ticket later settings' id scope'
        (with_redis answers (consume_slider_ticket now settings id scope c).1)).0
      ≡ err bad_request
consume_slider_ticket-Once now later settings settings' id scope scope' c answers on on' formed gets
      deletes h =
    gone_ticket now later settings' id scope'
      (with_redis answers (consume_slider_ticket now settings id scope c).1) on' h
      (consume_slider_ticket-IsGone now settings id scope c on formed gets deletes)
