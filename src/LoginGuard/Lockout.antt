-- ===== src/LoginGuard/Lockout.antt =====
-- After which failures a login is refused.
use python_server.Base.{
  ℕ, suc, ◌+◌, ◌<◌, ◌-◌, max, ◌≡◌, refl, ap, ◌∙◌, Bool, true, false, none, some, List, [], ◌∷◌,
  arith, Text, leb, if◌then◌else◌, Bool-cases, inl, inr, length, Result, ok, ◌>>=◌,
}
use python_server.Base.Int.{ℤ, pos, ◌+ℤ◌, ltb_ℤ}
use python_server.Memory.{
  Value, number, Entry, Store, lookup, put, live, purge, value_of, get, set, expire, expire_entry,
  int_of, incrby, execute, op_incr, op_expire, an_int, Answer,
}
use python_server.Memory.Maps.{lookup-put_same}
use python_server.Memory.Refines.{purge-live}
use python_server.LoginGuard.{
  Site, Request, login_key, client_ip, allowed, locked, judge, ensure_login_allowed,
  record_login_failure,
}

-- A counter of failures, until a time.
abbrev counter : ℕ → ℕ → Entry
counter n until = record { value = number (pos n); expires_at = some until }

incrby-ok :
    (now : ℕ) (k : Text) (s : Store) (n : ℕ)
    → int_of (value_of (live now (lookup k s))) ≡ ok (pos n)
    → incrby now k (pos 1) s
      ≡ ok (
        pos n +ℤ pos 1,
        put k
            (record { value = number (pos n +ℤ pos 1); expires_at = none })
            (purge now k (purge now k s)),
      )
incrby-ok now k s n h =
    ap
      (λ (m : Result ℤ).
        m >>= λ n. ok (n +ℤ pos 1, (set now k (number (n +ℤ pos 1)) none false (purge now k s)).1))
      (ap (λ e. int_of (value_of e)) (purge-live now k s) ∙ h)

expire-put :
    (now seconds : ℕ) (k : Text) (v : Value) (s : Store)
    → expire now k seconds (put k (record { value = v; expires_at = none }) s) ≡ (
      true,
      put k
          (record { value = v; expires_at = some (now + seconds) })
          (purge now k (put k (record { value = v; expires_at = none }) s)),
    )
expire-put now seconds k v s =
    let e : Entry = record { value = v; expires_at = none } in
    ap (λ w. expire_entry (now + seconds) k w (purge now k (put k e s)))
      (purge-live now k (put k e s) ∙ ap (live now) (lookup-put_same k e s))

pipeline-ok :
    (now seconds : ℕ) (k : Text) (s s' : Store) (i : ℤ)
    → incrby now k (pos 1) s ≡ ok (i, s')
    → (execute now (op_incr k ∷ op_expire k seconds ∷ []) s >>= λ r. ok r.1)
      ≡ ok (expire now k seconds s').1
pipeline-ok now seconds k s s' i e =
    let rest : ℤ × Store → Result (List Answer × Store) =
      λ r. execute now (op_expire k seconds ∷ []) r.1 >>= λ q. ok (an_int r.0 ∷ q.0, q.1) in
    ap (λ (m : Result (ℤ × Store)). m >>= rest >>= λ r. ok r.1) e

next_number : (n : ℕ) → pos n +ℤ pos 1 ≡ pos (suc n)
unfolding ◌+ℤ◌
next_number n = ground arith

-- A failure of a counter that stands at `n`, or at none for zero.
counted :
    (site : Site) (now : ℕ) (k : Text) (s : Store) (n : ℕ)
    → site.available ≡ true
    → int_of (value_of (live now (lookup k s))) ≡ ok (pos n)
    → (t : Store) × (record_login_failure site now k s ≡ ok t)
      × (lookup k t ≡ some (counter (suc n) (now + site.login_attempt_window_seconds)))
unfolding record_login_failure
counted site now k s n up h =
    let window = site.login_attempt_window_seconds in
    let raised : Value = number (pos n +ℤ pos 1) in
    let s' : Store =
      put k (record { value = raised; expires_at = none }) (purge now k (purge now k s)) in
    let e : Entry = record { value = raised; expires_at = some (now + window) } in
    (
      put k e (purge now k s'),
      rw (up, record_login_failure)
            (pipeline-ok now window k s s' (pos n +ℤ pos 1) (incrby-ok now k s n h))
          ∙ ap (λ (x : Bool × Store). ok x.1)
              (expire-put now window k raised (purge now k (purge now k s))),
      lookup-put_same k e (purge now k s')
          ∙ ap (λ i. some (record { value = number i; expires_at = some (now + window) }))
              (next_number n),
    )

-- Failures at the times given, each recorded in turn; a store that is out of service stops them.
abbrev pub failures : Site → Text → List ℕ → Store → Result Store
failures site k [] s = ok s
failures site k (t ∷ ts) s = record_login_failure site t k s >>= failures site k ts

-- Each time is within the window that the one before it opens.
abbrev Within : ℕ → ℕ → List ℕ → Type 0
Within window now [] = Unit
Within window now (t ∷ ts) = (t < now + window) × Within window t ts

abbrev pub last_of : ℕ → List ℕ → ℕ
last_of now [] = now
last_of now (t ∷ ts) = last_of t ts

alive : (n now until : ℕ) → now < until → live now (some (counter n until)) ≡ some (counter n until)
alive n now until h = ground arith

judged :
    (site : Site) (now : ℕ) (k : Text) (s : Store) (n until : ℕ)
    → lookup k (purge now k s) ≡ some (counter n until)
    → (judge site now k (ok (pos n)) s).0
      ≡ (if leb site.login_max_attempts n then locked (max 1 (until - now)) else allowed k)
judged site now k s n until found = elim (Bool-cases (leb site.login_max_attempts n)) [
  | inl many ↦
      let over : ltb_ℤ (pos n) (pos site.login_max_attempts) ≡ false = ground arith in
      rw (many, over, found) refl
  | inr few ↦
      let under : ltb_ℤ (pos n) (pos site.login_max_attempts) ≡ true = ground arith in
      rw (few, under) refl
]

counted_all :
    (site : Site) (k : Text) (ts : List ℕ) (s : Store) (n now : ℕ)
    → site.available ≡ true
    → Within site.login_attempt_window_seconds now ts
    → lookup k s ≡ some (counter n (now + site.login_attempt_window_seconds))
    → (t : Store) × (failures site k ts s ≡ ok t)
      × (lookup k t
          ≡ some (counter (n + length ts) (last_of now ts + site.login_attempt_window_seconds)))
counted_all site k [] s n now up w h = (
  s,
  refl,
  h ∙ ap (λ m. some (counter m (now + site.login_attempt_window_seconds))) (omega arith),
)
counted_all site k (t ∷ ts) s n now up w h =
    let window = site.login_attempt_window_seconds in
    let stands =
      ap (λ e. int_of (value_of (live t e))) h
      ∙ ap (λ e. int_of (value_of e)) (alive n t (now + window) w.0) in
    let (s', step, found) = counted site t k s n up stands in
    let (s'', rest, end) = counted_all site k ts s' (suc n) t up w.1 found in
    (
      s'',
      ap (λ m. m >>= failures site k ts) step ∙ rest,
      end ∙ ap (λ m. some (counter m (last_of t ts + window))) (omega arith),
    )

judge-counter :
    (site : Site) (now : ℕ) (k : Text) (s : Store) (n until : ℕ)
    → now < until
    → lookup k s ≡ some (counter n until)
    → (judge site now k (int_of (get now k s).0) (get now k s).1).0
      ≡ (if leb site.login_max_attempts n then locked (max 1 (until - now)) else allowed k)
judge-counter site now k s n until before found =
    let s' = purge now k s in
    let here : lookup k s' ≡ some (counter n until) =
      purge-live now k s ∙ ap (live now) found ∙ alive n now until before in
    let again : lookup k (purge now k s') ≡ some (counter n until) =
      purge-live now k s' ∙ ap (live now) here ∙ alive n now until before in
    ap (λ e. (judge site now k (int_of (value_of e)) s').0) here
    ∙ judged site now k s' n until again

-- Where a key has no live entry, a number of failures each within the window of the one before it are all
-- recorded, and while the last window is open a login is allowed exactly when they are fewer than the limit;
-- else it is told to wait for the rest of that window.
pub ensure_login_allowed-Locks :
    (site : Site) (scope account : Text) (r : Request) (first : ℕ) (ts : List ℕ) (now : ℕ)
    (s : Store)
    → site.available ≡ true
    → live first (lookup (login_key site scope account (client_ip site r)) s) ≡ none
    → Within site.login_attempt_window_seconds first ts
    → now < last_of first ts + site.login_attempt_window_seconds
    → let k = login_key site scope account (client_ip site r) in
      (t : Store) × (failures site k (first ∷ ts) s ≡ ok t)
      × ((ensure_login_allowed site now scope account r t).0 ≡ (
          if leb site.login_max_attempts (suc (length ts))
          then locked (max 1 (last_of first ts + site.login_attempt_window_seconds - now))
          else allowed k))
unfolding ensure_login_allowed
ensure_login_allowed-Locks site scope account r first ts now s up clear w open_window =
    let k = login_key site scope account (client_ip site r) in
    let window = site.login_attempt_window_seconds in
    let (s', step, found) = counted site first k s 0 up (ap (λ e. int_of (value_of e)) clear) in
    let (s'', rest, end) = counted_all site k ts s' 1 first up w found in
    (
      s'',
      ap (λ m. m >>= failures site k ts) step ∙ rest,
      rw (up, ensure_login_allowed)
          (judge-counter site now k s'' (suc (length ts)) (last_of first ts + window) open_window
            (end ∙ ap (λ m. some (counter m (last_of first ts + window))) (omega arith))),
    )
