-- ===== src/Travel/Journey/Lasting.antt =====
-- What no sequence of calls changes: orders stay in order, and a completed trip stays completed.
use python_server.Base.{
  ℕ, ◌≡◌, refl, Bool, true, false, ◌&&◌, ◌||◌, some, arith, List, [], ◌∷◌, ◌==◌, All, ==_iff,
  Bool-cases, inl, inr, subst, if_intro,
}
use python_server.Travel.Model.{TravelOrder, TravelDb, find_travel, set_travel}
use python_server.Travel.Journey.{is_approved}
use python_server.Travel.Journey.Trip.{is_completed}
use python_server.Travel.Journey.Calls.{Call, run_call, run_calls}
use python_server.Travel.Journey.Stages.{
  Stage, Kind, Step, settles, signs, approves, rejects, submits, schedules, confirms, issues,
  checks_in, starts, completes, fails, cancels, Reach, rests, takes, settled, InOrder, Evolves,
}
use python_server.Travel.Journey.Refines.{run_call-Evolves}

module _ {ℓ} (P : TravelOrder → Type ℓ) where
  All-find_travel :
      (id : ℕ) (os : List TravelOrder) (o : TravelOrder)
      → find_travel id os ≡ some o
      → All P os
      → P o
  All-find_travel id [] o found h = absurd (ground arith)
  All-find_travel id (p ∷ os) o found h = elim (Bool-cases (p.id == id)) [
    | inl e ↦ subst P (ground arith) h.0
    | inr e ↦ All-find_travel id os o (ground arith) h.1
  ]

  All-set_travel :
      (new : TravelOrder) (os : List TravelOrder) → P new → All P os → All P (set_travel new os)
  All-set_travel new [] n h = tt
  All-set_travel new (p ∷ os) n h =
      if_intro (All P) (p.id == new.id) (n, h.1) (h.0, All-set_travel new os n h.1)

Evolves-InOrder :
    {k : Kind} {os os' : List TravelOrder} → Evolves k os os' → All InOrder os → All InOrder os'
Evolves-InOrder Evolves.same h = h
Evolves-InOrder {k} {os} (Evolves.moved {o} {o'} found m) h =
    All-set_travel InOrder o' os (m.kept (All-find_travel InOrder o'.id os o found h)) h
Evolves-InOrder (Evolves.opened e start new) h = (new, h)

-- However the calls come, every order is in order: nothing past the contract without its approval, a code only under
-- an approved contract and from the traveller's confirmation to the check-in, or on an order marked as an exception,
-- nobody under way who was not checked in, and closed exactly when completed.
pub run_calls-InOrder :
    (cs : List Call) (db : TravelDb) → All InOrder db.orders → All InOrder (run_calls cs db).orders
unfolding run_calls
run_calls-InOrder [] db h = h
run_calls-InOrder (c ∷ cs) db h =
    run_calls-InOrder cs (run_call c db) (Evolves-InOrder (run_call-Evolves c db) h)

-- An order is at its end once it is completed under an approved contract.
abbrev IsEnd : Stage → Type 0
IsEnd s = (is_approved s.0 ≡ true) × (is_completed s.1 ≡ true)

Step-IsEnd : {k : Kind} {s t : Stage} → Step k s t → IsEnd s → IsEnd t
Step-IsEnd (settles a b) h = ground arith
Step-IsEnd (signs a b) h = ground arith
Step-IsEnd (approves a) h = ground arith
Step-IsEnd (rejects a) h = ground arith
Step-IsEnd (submits a b) h = ground arith
Step-IsEnd (schedules a b) h = ground arith
Step-IsEnd (confirms a b) h = ground arith
Step-IsEnd (issues a) h = ground arith
Step-IsEnd (checks_in a) h = ground arith
Step-IsEnd (starts a) h = ground arith
Step-IsEnd (completes a) h = (h.0, refl)
Step-IsEnd (fails a) h = ground arith
Step-IsEnd (cancels a) h = ground arith

Reach-IsEnd : {k : Kind} {s t : Stage} → Reach k s t → IsEnd s → IsEnd t
Reach-IsEnd rests h = h
Reach-IsEnd (takes e) h = Step-IsEnd e h
Reach-IsEnd (settled a b e) h = absurd (ground arith)

-- A row of the table is a completed trip.
abbrev pub has_completed : ℕ → List TravelOrder → Bool
has_completed id [] = false
has_completed id (o ∷ os) = (o.id == id && is_completed o.fulfillment_status) || has_completed id os

replaced :
    (a b b' c : Bool) → (b ≡ true → b' ≡ true) → ((a && b) || c) ≡ true → ((a && b') || c) ≡ true
replaced a b b' c k h = ground arith

kept_or : (a c c' : Bool) → (c ≡ true → c' ≡ true) → (a || c) ≡ true → (a || c') ≡ true
kept_or a c c' k h = ground arith

has_completed-set_travel :
    (id : ℕ) (o new : TravelOrder) (os : List TravelOrder)
    → find_travel new.id os ≡ some o
    → (is_completed o.fulfillment_status ≡ true → is_completed new.fulfillment_status ≡ true)
    → has_completed id os ≡ true
    → has_completed id (set_travel new os) ≡ true
has_completed-set_travel id o new [] found k h = h
has_completed-set_travel id o new (p ∷ os) found k h = elim (Bool-cases (p.id == new.id)) [
  | inl e ↦
      let same : p ≡ o = ground arith in
      rw e (
        subst
          (λ n. ((n == id && is_completed new.fulfillment_status) || has_completed id os) ≡ true)
          ((==_iff p.id new.id).0 e)
          (replaced (p.id == id) (is_completed p.fulfillment_status)
            (is_completed new.fulfillment_status) (has_completed id os)
            (λ done. k (subst (λ q. is_completed q.fulfillment_status ≡ true) same done)) h))
  | inr e ↦ rw e (
      kept_or (p.id == id && is_completed p.fulfillment_status) (has_completed id os)
        (has_completed id (set_travel new os))
        (has_completed-set_travel id o new os (ground arith) k) h)
]

Evolves-has_completed :
    {k : Kind} {os os' : List TravelOrder} (id : ℕ)
    → Evolves k os os'
    → All InOrder os
    → has_completed id os ≡ true
    → has_completed id os' ≡ true
Evolves-has_completed id Evolves.same all h = h
Evolves-has_completed {k} {os} id (Evolves.moved {o} {o'} found m) all h =
    let in_order = All-find_travel InOrder o'.id os o found all in
    has_completed-set_travel id o o' os found
      (λ done. (Reach-IsEnd m.path (in_order.contracted (ground arith), done)).1) h
Evolves-has_completed id (Evolves.opened e start new) all h = ground arith

-- A completed trip is completed for good: no call of the traveller or an administrator takes it back.
pub run_calls-Completed :
    (cs : List Call) (id : ℕ) (db : TravelDb)
    → All InOrder db.orders
    → has_completed id db.orders ≡ true
    → has_completed id (run_calls cs db).orders ≡ true
unfolding run_calls
run_calls-Completed [] id db all h = h
run_calls-Completed (c ∷ cs) id db all h =
    let moved = run_call-Evolves c db in
    run_calls-Completed cs id (run_call c db) (Evolves-InOrder moved all)
      (Evolves-has_completed id moved all h)
