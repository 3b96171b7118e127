-- ===== src/Base/Outcome.antt =====
-- What a call of the program raises, and a call that returns or raises. The database session of a
-- request is closed without a commit when a call raises, so a raise carries no state.
use mathlib.Core.Bool.{Bool, true, false}
use mathlib.Core.Path.{◌≡◌, refl}
use mathlib.Core.Option.{Option, none, some}

-- The exceptions by their stable codes: core/exceptions.py, and the `code` of each BusinessError.
pub data Error : Type 0 where
  integrity_error : Error
  idempotency_conflict insufficient_stock redis_required : Error
  user_not_found invalid_point_amount insufficient_points : Error
  point_ledger_mismatch point_debit_not_found : Error
  order_not_found order_not_payable order_not_refundable invalid_order_amount : Error
  insufficient_balance product_not_available : Error
  travel_order_not_found travel_order_not_cancellable travel_order_requires_admin_cancel : Error
  bad_request unavailable too_many_requests not_found unprocessable unauthorized forbidden : Error
  value_error not_configured wechat_pay_not_success wechat_pay_order_mismatch : Error
  wechat_pay_amount_mismatch invalid_wechat_pay_amount : Error
  order_already_paid wechat_pay_order_not_exist wechat_pay_unavailable : Error
  wechat_refund_order_mismatch wechat_refund_amount_mismatch : Error

pub data Result {ℓ} (A : Type ℓ) : Type ℓ where
  ok : A → Result A
  err : Error → Result A

infixl 5 ◌>>=◌
abbrev pub ◌>>=◌ {ℓ κ} : {A : Type ℓ} {B : Type κ} → Result A → (A → Result B) → Result B
ok a >>= f = f a
err e >>= f = err e

abbrev pub guard {ℓ} : {A : Type ℓ} → Bool → Error → Result A → Result A
guard true e rest = rest
guard false e rest = err e

-- What holds of the value that a call returns; a raise meets every such condition.
abbrev pub Ensures {ℓ κ} : {A : Type ℓ} → (A → Type κ) → Result A → Type κ
Ensures P (ok a) = P a
Ensures P (err e) = Unit

pub Ensures-bind {ℓ κ ι υ} :
    {A : Type ℓ} {B : Type κ} (P : A → Type ι) (Q : B → Type υ) (m : Result A) (f : A → Result B)
    → Ensures P m
    → ((a : A) → P a → Ensures Q (f a))
    → Ensures Q (m >>= f)
Ensures-bind P Q (ok a) f h k = k a h
Ensures-bind P Q (err e) f h k = tt

pub Ensures-map {ℓ κ ι} :
    {A : Type ℓ} (P : A → Type κ) (Q : A → Type ι) (m : Result A)
    → ((a : A) → P a → Q a)
    → Ensures P m
    → Ensures Q m
Ensures-map P Q (ok a) f h = f a h
Ensures-map P Q (err e) f h = tt

pub returns_anything {ℓ} : {A : Type ℓ} (m : Result A) → Ensures (λ _. Unit {0}) m
returns_anything (ok a) = tt
returns_anything (err e) = tt

-- Two facts about one result hold of it together.
pub both {ℓ κ ι} :
    {A : Type ℓ} (P : A → Type κ) (Q : A → Type ι) (m : Result A)
    → Ensures P m
    → Ensures Q m
    → Ensures (λ a. P a × Q a) m
both P Q (ok a) p q = (p, q)
both P Q (err e) p q = tt

abbrev pub option_or {ℓ} : {A : Type ℓ} → A → Option A → A
option_or default (some a) = a
option_or default none = default

-- The value returned, for runs that are known to return.
abbrev pub value_or {ℓ} : {A : Type ℓ} → A → Result A → A
value_or default (ok a) = a
value_or default (err e) = default

pub result_intro {ℓ κ ι} :
    {A : Type ℓ} {B : Type κ} (P : B → Type ι) (m : Result A) {f : A → B} {g : Error → B}
    → ((a : A) → m ≡ ok a → P (f a))
    → ((e : Error) → m ≡ err e → P (g e))
    → P (elim m [ ok a ↦ f a | err e ↦ g e ])
result_intro P (ok a) p q = p a refl
result_intro P (err e) p q = q e refl

-- A call that does not raise.
abbrev pub Returns {ℓ} : {A : Type ℓ} → Result A → Type 0
Returns (ok a) = Unit
Returns (err e) = ⊥

pub returned {ℓ κ} :
    {A : Type ℓ} (P : A → Type κ) (m : Result A)
    → Returns m
    → Ensures P m
    → (a : A) × (m ≡ ok a) × P a
returned P (ok a) r h = (a, refl, h)
returned P (err e) r h = elim r [ ]

pub Returns-bind {ℓ κ} :
    {A : Type ℓ} {B : Type κ} (m : Result A) (f : A → Result B)
    → Returns m
    → ((a : A) → Returns (f a))
    → Returns (m >>= f)
Returns-bind (ok a) f h k = k a
Returns-bind (err e) f h k = absurd h
