-- ===== src/Memory/Tests.antt =====
-- A counter that expires, and commands in time.
use python_server.Base.{ℕ, ◌≡◌, refl, ◌∷◌, [], List, none, some, true, false, codes, text_eq, arith}
use python_server.Base.Int.{pos, ◌+ℤ◌}
use python_server.Memory.{number, text, execute, op_incr, op_expire, an_int, a_bool}
use python_server.Base.{ok}
use python_server.Memory.Refines.{
  Command, get_it, set_it, delete_it, ttl_it, expire_it, incr_it, value, bool, int, run_command,
  replies, spec_replies, AllAccord, replies-Refine,
}

abbrev commands : List (ℕ × Command)
commands =
    (10, incr_it (codes "n") (pos 1))
    ∷ (10, expire_it (codes "n") 5)
    ∷ (14, ttl_it (codes "n"))
    ∷ (14, incr_it (codes "n") (pos 1))
    ∷ (20, get_it (codes "n"))
    ∷ (20, set_it (codes "m") (text (codes "x")) (some 3) true)
    ∷ (22, set_it (codes "m") (text (codes "y")) none true)
    ∷ (23, get_it (codes "m"))
    ∷ (24, delete_it (codes "n"))
    ∷ (24, get_it (codes "n"))
    ∷ []

-- The second increment took the expiry away, so the counter is still there at 20.
answers :
    replies commands []
    ≡ int (pos 1)
      ∷ bool true
      ∷ int (pos 1)
      ∷ int (pos 2)
      ∷ value (some (number (pos 2)))
      ∷ bool true
      ∷ bool false
      ∷ value none
      ∷ int (pos 1)
      ∷ value none
      ∷ []
unfolding replies run_command text_eq ◌+ℤ◌
answers = refl

pipeline :
    execute 3 (op_incr (codes "k") ∷ op_expire (codes "k") 9 ∷ []) []
    ≡ ok (
      an_int (pos 1) ∷ a_bool true ∷ [],
      (codes "k", record { value = number (pos 1); expires_at = some 12 }) ∷ [],
    )
unfolding text_eq ◌+ℤ◌
pipeline = refl

replies-Refine_example :
    AllAccord commands (replies commands []) (spec_replies commands (λ k. none))
replies-Refine_example =
    replies-Refine commands 0 [] (λ k. none) (λ k. refl)
      (
        omega arith,
        (
          omega arith,
          (
            omega arith,
            (
              omega arith,
              (
                omega arith,
                (omega arith, (omega arith, (omega arith, (omega arith, (omega arith, tt))))),
              ),
            ),
          ),
        ),
      )
