-- ===== src/Orders/Routes/Lasting.antt =====
-- What no sequence of calls changes.
use python_server.Base.{
  ℕ, ◌≡◌, refl, sym, ap, subst, ◌∙◌, true, false, none, some, List, [], ◌∷◌, arith, ◌==◌,
  Bool-cases, inl, inr, ==_iff, All, if_intro,
}
use python_server.Orders.Model.{Order, find_order, set_order}
use python_server.Orders.Cancel.{World}
use python_server.Orders.Pay.Once.{set_order-found}
use python_server.Orders.Routes.Calls.{Call, run_call, run_calls}
use python_server.Orders.Routes.Stages.{
  stage, ◌⟶◌, ◌⟶*◌, stay, step, ⟶*-append, ⟶*-canceled, order_canceled, consistent, ⟶-consistent,
  SameOrder, Advances, same, writes,
}
use python_server.Orders.Routes.Payments.{Distinct}
use python_server.Orders.Routes.Refines.{run_call-Advances}

set_order-absent :
    (k : ℕ) (new : Order) (os : List Order)
    → find_order k os ≡ none
    → find_order k (set_order new os) ≡ none
set_order-absent k new [] h = refl
set_order-absent k new (x ∷ os) h = ground (arith, set_order-absent k new os)

set_order-Distinct : (new : Order) (os : List Order) → Distinct os → Distinct (set_order new os)
set_order-Distinct new [] h = tt
set_order-Distinct new (x ∷ os) h = elim (Bool-cases (x.id == new.id)) [
  | inl e ↦ ground arith
  | inr e ↦ ground (arith, set_order-absent x.id new os h.0, set_order-Distinct new os h.1)
]

set_order-other :
    (k : ℕ) (new : Order) (os : List Order)
    → new.id == k ≡ false
    → find_order k (set_order new os) ≡ find_order k os
set_order-other k new [] h = refl
set_order-other k new (x ∷ os) h = ground (arith, set_order-other k new os)

Advances-Distinct : {os ms : List Order} → Advances os ms → Distinct os → Distinct ms
Advances-Distinct same d = d
Advances-Distinct (writes {ms} o o' p found s e) d =
    set_order-Distinct o' ms (Advances-Distinct p d)

-- The order of that id is there later too, the same one, and at a stage that the diagram leads to.
abbrev pub Later : ℕ → Order → List Order → Type 0
Later id o ms = (o' : Order) × (find_order id ms ≡ some o') × SameOrder o o' × (stage o ⟶* stage o')

Later-write :
    (id : ℕ) (o x x' : Order) (ms : List Order)
    → Later id o ms
    → find_order x.id ms ≡ some x
    → SameOrder x x'
    → stage x ⟶ stage x'
    → Later id o (set_order x' ms)
Later-write id o x x' ms (o1, at, s, path) found s' e = elim (Bool-cases (x'.id == id)) [
  | inl here' ↦
      let own : x.id ≡ id = sym s'.0 ∙ (==_iff x'.id id).0 here' in
      let at' : find_order id ms ≡ some x = ap (λ n. find_order n ms) (sym own) ∙ found in
      let one : o1 ≡ x = ground arith in
      let before = subst (λ y. SameOrder o y) one s in
      (
        x',
        set_order-found id x' ms x s'.0 at',
        (s'.0 ∙ before.0, s'.1 ∙ before.1, s'.2 ∙ before.2, s'.3 ∙ before.3),
        step (subst (λ y. stage o ⟶* stage y) one path) e,
      )
  | inr elsewhere ↦ (o1, set_order-other id x' ms elsewhere ∙ at, s, path)
]

Advances-Later :
    {os ms : List Order} (id : ℕ) (o : Order)
    → Advances os ms
    → find_order id os ≡ some o
    → Later id o ms
Advances-Later id o same found = (o, found, (refl, refl, refl, refl), stay)
Advances-Later id o (writes {ms} x x' p at s e) found =
    Later-write id o x x' ms (Advances-Later id o p found) at s e

-- However the calls come, an order that is there stays, with its id, number, owner and amount, and its statuses have
-- gone along the diagram: from pending to paid or to canceled, and from paid to refunded. Each id is
-- the id of one order.
pub run_calls-Later :
    (cs : List Call) (w : World) (id : ℕ) (o : Order)
    → Distinct w.db.orders
    → find_order id w.db.orders ≡ some o
    → Later id o (run_calls cs w).db.orders
unfolding run_calls
run_calls-Later [] w id o d found = (o, found, (refl, refl, refl, refl), stay)
run_calls-Later (c ∷ cs) w id o d found =
    let moved = run_call-Advances c w d in
    let (o1, at, s, path) = Advances-Later id o moved found in
    let (o2, at', s', path') =
      run_calls-Later cs (run_call c w) id o1 (Advances-Distinct moved d) at in
    (o2, at', (s'.0 ∙ s.0, s'.1 ∙ s.1, s'.2 ∙ s.2, s'.3 ∙ s.3), ⟶*-append path path')

-- An order that is canceled or refunded has the same statuses after any calls, where each id is the id of one order.
pub run_calls-Final :
    (cs : List Call) (w : World) (id : ℕ) (o : Order)
    → Distinct w.db.orders
    → find_order id w.db.orders ≡ some o
    → order_canceled o.status ≡ true
    → (o' : Order) × (find_order id (run_calls cs w).db.orders ≡ some o') × (stage o' ≡ stage o)
run_calls-Final cs w id o d found closed =
    let (o', at, s, path) = run_calls-Later cs w id o d found in (o', at, ⟶*-canceled path closed)

module _ {ℓ} (P : Order → Type ℓ) where
  All-found : (id : ℕ) (os : List Order) (o : Order) → find_order id os ≡ some o → All P os → P o
  All-found id [] o found h = absurd (ground arith)
  All-found id (x ∷ os) o found h = elim (Bool-cases (x.id == id)) [
    | inl e ↦ subst P (ground arith) h.0
    | inr e ↦ All-found id os o (ground arith) h.1
  ]

  All-set_order : (new : Order) (os : List Order) → P new → All P os → All P (set_order new os)
  All-set_order new [] n h = tt
  All-set_order new (x ∷ os) n h =
      if_intro (All P) (x.id == new.id) (n, h.1) (h.0, All-set_order new os n h.1)

abbrev pub IsConsistent : Order → Type 0
IsConsistent o = consistent (stage o) ≡ true

Advances-IsConsistent :
    {os ms : List Order} → Advances os ms → All IsConsistent os → All IsConsistent ms
Advances-IsConsistent same h = h
Advances-IsConsistent (writes {ms} x x' p at s e) h =
    let before = Advances-IsConsistent p h in
    All-set_order IsConsistent x' ms (⟶-consistent e (All-found IsConsistent x.id ms x at before))
      before

-- However the calls come, each order is pending, paid, canceled or refunded in both of its statuses, where each was
-- before, and each id is the id of one order.
pub run_calls-IsConsistent :
    (cs : List Call) (w : World)
    → Distinct w.db.orders
    → All IsConsistent w.db.orders
    → All IsConsistent (run_calls cs w).db.orders
unfolding run_calls
run_calls-IsConsistent [] w d h = h
run_calls-IsConsistent (c ∷ cs) w d h =
    let moved = run_call-Advances c w d in
    run_calls-IsConsistent cs (run_call c w) (Advances-Distinct moved d)
      (Advances-IsConsistent moved h)
