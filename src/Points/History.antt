-- ===== src/Points/History.antt =====
-- Histories of one user's points: calls of the service, each in a session of its own. A call that
-- raises leaves what was committed before it.
use python_server.Base.{ℕ, Option, List, [], ◌∷◌, Text, Result, ok, err}
use python_server.Base.Int.{ℤ}
use python_server.Points.Model.{Session, Posting}
use python_server.Points.Credit.{credit_locked, revoke_credit_locked}
use python_server.Points.Expire.{expire_due_locked}
use python_server.Points.Debit.{debit_locked}
use python_server.Points.Refund.{refund_locked}
use python_server.Points.Invariant.{IsSound}
use python_server.Points.Invariant.Methods.{
  Keeps, credit_locked-Keeps, revoke_credit_locked-Keeps, expire_due_locked-Keeps,
  debit_locked-Keeps, refund_locked-Keeps,
}

pub data Call : Type 0 where
  credits : ℤ → Posting → Option ℕ → Call
  revokes : Text → Posting → Call
  debits : ℕ → ℕ → ℕ → ℤ → Posting → Call
  refunds : ℕ → Text → Option ℕ → Posting → Call
  expires : ℕ → Call

abbrev pub committed : {A : Type 0} → Session → Result (A × Session) → Session
committed s (ok (_, t)) = t
committed s (err _) = s

unfoldable pub perform : Session → Call → Session
perform s (credits amount p e) = committed s (credit_locked s amount p e s)
perform s (revokes key p) = committed s (revoke_credit_locked key p s)
perform s (debits now now' now'' amount p) = committed s (debit_locked now now' now'' amount p s)
perform s (refunds now biz_type e p) = committed s (refund_locked now biz_type e p s)
perform s (expires now) = committed s (expire_due_locked now s)

unfoldable pub run : Session → List Call → Session
unfolding perform
run s [] = s
run s (c ∷ cs) = run (perform s c) cs

committed-IsSound :
    {A : Type 0} (s : Session) (m : Result (A × Session))
    → IsSound s
    → Keeps m
    → IsSound (committed s m)
committed-IsSound s (ok _) h k = k
committed-IsSound s (err e) h k = h

perform-IsSound : (s : Session) (c : Call) → IsSound s → IsSound (perform s c)
unfolding perform
perform-IsSound s (credits amount p e) h =
    committed-IsSound s (credit_locked s amount p e s) h (credit_locked-Keeps s amount p e s h h)
perform-IsSound s (revokes key p) h =
    committed-IsSound s (revoke_credit_locked key p s) h (revoke_credit_locked-Keeps key p s h)
perform-IsSound s (debits now now' now'' amount p) h =
    committed-IsSound s (debit_locked now now' now'' amount p s) h
      (debit_locked-Keeps now now' now'' amount p s h)
perform-IsSound s (refunds now biz_type e p) h =
    committed-IsSound s (refund_locked now biz_type e p s) h
      (refund_locked-Keeps now biz_type e p s h)
perform-IsSound s (expires now) h =
    committed-IsSound s (expire_due_locked now s) h (expire_due_locked-Keeps now s h)

-- After any history of credits, revocations, debits, refunds and expiries, each ledger row's balances
-- add up, the user's newest row shows the balance, lot ids are distinct, and ids and bookings stay
-- below the counters, if this held at the start.
pub run-IsSound : (s : Session) (cs : List Call) → IsSound s → IsSound (run s cs)
unfolding run
run-IsSound s [] h = h
run-IsSound s (c ∷ cs) h = run-IsSound (perform s c) cs (perform-IsSound s c h)
