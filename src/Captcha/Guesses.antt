-- ===== src/Captcha/Guesses.antt =====
-- Repeated guesses at one challenge.
use python_server.Base.{ℕ, ◌≤◌, ◌≡◌, some, Text, Result, ok, err}
use python_server.Captcha.{Challenge, Cache, find_key}

-- From `now` on, a challenge that is still there has been missed `n` times.
abbrev pub Worn : ℕ → ℕ → Text → Cache → Type 0
Worn n now id c =
    (later : ℕ) (ch : Challenge)
    → now ≤ later
    → find_key later id c.challenges ≡ some ch
    → n ≤ ch.attempts

-- A guess that is refused.
abbrev Refused : Result Text × Cache → (Cache → Type 0) → Type 0
Refused (ok t, c) P = Unit
Refused (err e, c) P = P c
