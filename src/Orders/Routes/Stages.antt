-- ===== src/Orders/Routes/Stages.antt =====
-- The two statuses of an order, and how a call may move them.
use python_server.Base.{◌≡◌, refl, ap, Bool, true, false, some, List, ◌∙◌, arith}
use python_server.Orders.Model.{PaymentStatus, OrderStatus, is_paid, Order, find_order, set_order}

abbrev pub Stage : Type 0
Stage = PaymentStatus × OrderStatus

abbrev pub stage : Order → Stage
stage o = (o.payment_status, o.status)

infix 40 ◌⟶◌
pub data ◌⟶◌ : Stage → Stage → Type 0 where
  stays : {s : Stage} → s ⟶ s
  pays :
      {p : PaymentStatus}
      → is_paid p ≡ false
      → (p, OrderStatus.pending) ⟶ (PaymentStatus.paid, OrderStatus.paid)
  cancels :
      {p : PaymentStatus}
      → is_paid p ≡ false
      → (p, OrderStatus.pending) ⟶ (PaymentStatus.canceled, OrderStatus.canceled)
  refunds : (PaymentStatus.paid, OrderStatus.paid) ⟶ (PaymentStatus.refunded, OrderStatus.canceled)

-- What no call changes of an order.
abbrev pub SameOrder : Order → Order → Type 0
SameOrder o o' =
    (o'.id ≡ o.id)
    × (o'.order_no ≡ o.order_no)
    × (o'.user_id ≡ o.user_id)
    × (o'.payable_amount ≡ o.payable_amount)

-- The table of orders after a call: rows written over rows of before, each along the diagram.
pub data Advances (os : List Order) : List Order → Type 0 where
  same : Advances os os
  writes :
      {ms : List Order} (o o' : Order)
      → Advances os ms
      → find_order o.id ms ≡ some o
      → SameOrder o o'
      → stage o ⟶ stage o'
      → Advances os (set_order o' ms)

pub Advances-trans : {os ms ns : List Order} → Advances os ms → Advances ms ns → Advances os ns
Advances-trans p same = p
Advances-trans p (writes o o' q found s m) = writes o o' (Advances-trans p q) found s m

infix 40 ◌⟶*◌
pub data ◌⟶*◌ : Stage → Stage → Type 0 where
  stay : {s : Stage} → s ⟶* s
  step : {s t u : Stage} → s ⟶* t → t ⟶ u → s ⟶* u

pub ⟶*-append : {s t u : Stage} → s ⟶* t → t ⟶* u → s ⟶* u
⟶*-append p stay = p
⟶*-append p (step q e) = step (⟶*-append p q) e

-- Nothing leads on from an order that is canceled.
abbrev pub order_canceled : OrderStatus → Bool
order_canceled OrderStatus.canceled = true
order_canceled _ = false

⟶-canceled : {s t : Stage} → s ⟶ t → order_canceled s.1 ≡ true → t ≡ s
⟶-canceled stays h = refl
⟶-canceled (pays e) h = absurd (ground arith)
⟶-canceled (cancels e) h = absurd (ground arith)
⟶-canceled refunds h = absurd (ground arith)

pub ⟶*-canceled : {s t : Stage} → s ⟶* t → order_canceled s.1 ≡ true → t ≡ s
⟶*-canceled stay h = refl
⟶*-canceled (step p e) h =
    let back = ⟶*-canceled p h in
    ⟶-canceled e (ap (λ (x : Stage). order_canceled x.1) back ∙ h) ∙ back

-- The statuses that a row has outside of a call.
abbrev pub consistent : Stage → Bool
consistent (PaymentStatus.pending, OrderStatus.pending) = true
consistent (PaymentStatus.paid, OrderStatus.paid) = true
consistent (PaymentStatus.canceled, OrderStatus.canceled) = true
consistent (PaymentStatus.refunded, OrderStatus.canceled) = true
consistent _ = false

pub ⟶-consistent : {s t : Stage} → s ⟶ t → consistent s ≡ true → consistent t ≡ true
⟶-consistent stays h = h
⟶-consistent (pays e) h = refl
⟶-consistent (cancels e) h = refl
⟶-consistent refunds h = refl
