-- ===== src/Captcha/Tests.antt =====
-- Challenges that are guessed at, and tickets that are presented.
use python_server.Base.{
  ℕ, ◌≡◌, refl, List, [], codes, arith, true, text_eq, Result, ok, err, bad_request,
}
use python_server.Base.Int.{ℤ, pos, ◌-ℤ◌}
use python_server.Captcha.{
  up, with_redis, Cache, CaptchaSettings, create_slider_challenge, verify_found,
  verify_slider_challenge, consume_slider_ticket,
}
use python_server.Captcha.Tickets.{consume_slider_ticket-Once}
use python_server.Captcha.Solved.{create_slider_challenge-Solved}

abbrev settings : CaptchaSettings
settings = record { enabled = true; tolerance = 6; expires_seconds = 120 }

abbrev empty : Cache
empty = record { redis = up; challenges = []; tickets = [] }

-- Opens the functions for a run.
captcha : Unit {0}
unfolding create_slider_challenge verify_found verify_slider_challenge consume_slider_ticket text_eq
    ◌-ℤ◌
captcha = tt

-- The state after a challenge with its target at 150, and after one, two and three guesses at 10.
abbrev created : Cache
unfolding captcha
created = (create_slider_challenge 0 settings (codes "c") 150 empty).1

abbrev guess : ℕ → ℤ → Cache → Result (List ℕ) × Cache
unfolding captcha
guess now x c = verify_slider_challenge now (codes "c") x (codes "user") (codes "t") c

abbrev once : Cache
unfolding captcha
once = (guess 1 (pos 10) created).1

abbrev twice : Cache
unfolding captcha
twice = (guess 2 (pos 10) once).1

abbrev thrice : Cache
unfolding captcha
thrice = (guess 3 (pos 10) twice).1

solved_at_last : (guess 3 (pos 155) twice).0 ≡ ok (codes "t")
unfolding captcha
solved_at_last = refl

too_late : (guess 4 (pos 155) thrice).0 ≡ err bad_request
unfolding captcha
too_late = refl

-- The state after the right guess.
abbrev verified : Cache
unfolding captcha
verified = (guess 5 (pos 148) created).1

consume_slider_ticket-Once_example :
    (consume_slider_ticket 9 settings
      (codes "t")
      (codes "user")
      (with_redis up (consume_slider_ticket 8 settings (codes "t") (codes "user") verified).1)).0
    ≡ err bad_request
unfolding captcha
consume_slider_ticket-Once_example =
    consume_slider_ticket-Once 8 9 settings settings (codes "t") (codes "user") (codes "user")
      verified up refl refl refl refl refl (omega arith)

create_slider_challenge-Solved_example :
    ((verify_slider_challenge 5 (codes "c") (pos 148) (codes "user") (codes "t") created).0
      ≡ ok (codes "t"))
    × ((consume_slider_ticket 9 settings (codes "t") (codes "user") verified).0 ≡ ok tt)
unfolding captcha
create_slider_challenge-Solved_example =
    create_slider_challenge-Solved 0 5 9 settings (codes "c") 150 (pos 148) (codes "user")
      (codes "t") empty refl refl refl refl (omega arith) (omega arith) (ground arith)
