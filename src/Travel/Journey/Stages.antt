-- ===== src/Travel/Journey/Stages.antt =====
-- The stages of a travel order, as the statuses of its contract and of the order itself: the diagram
-- that the calls follow.
use python_server.Base.{
  ◌≡◌, Bool, true, false, ◌||◌, if◌then◌else◌, Option, none, some, is_empty, ◌∷◌, List,
}
use python_server.Travel.Model.{
  Fulfillment, ContractStatus, TravelStatus, TravelOrder, set_travel, find_travel,
}
use python_server.Travel.Journey.{is_approved}
use python_server.Travel.Journey.Trip.{is_completed}

abbrev pub Stage : Type 0
Stage = ContractStatus × Fulfillment

abbrev pub stage : TravelOrder → Stage
stage o = (o.contract.status, o.fulfillment_status)

-- The statuses in which each step may be taken, on the diagram's own account.
abbrev pub agreed : ContractStatus → Bool
agreed ContractStatus.approved = true
agreed _ = false

abbrev pub under_review : ContractStatus → Bool
under_review ContractStatus.pending = true
under_review ContractStatus.rejected = true
under_review _ = false

abbrev pub before_approval : Fulfillment → Bool
before_approval Fulfillment.contract_pending = true
before_approval Fulfillment.contract_reviewing = true
before_approval _ = false

abbrev pub unsettled : Fulfillment → Bool
unsettled Fulfillment.contract_rejected = true
unsettled f = before_approval f

abbrev pub taking_info : Fulfillment → Bool
taking_info Fulfillment.info_pending = true
taking_info Fulfillment.info_submitted = true
taking_info Fulfillment.pickup_confirmed = true
taking_info _ = false

abbrev pub scheduled : Fulfillment → Bool
scheduled Fulfillment.pickup_confirmed = true
scheduled _ = false

abbrev pub accepted_by_user : Fulfillment → Bool
accepted_by_user Fulfillment.user_confirmed = true
accepted_by_user Fulfillment.qr_issued = true
accepted_by_user _ = false

abbrev pub travelling : Fulfillment → Bool
travelling Fulfillment.checked_in = true
travelling Fulfillment.in_trip = true
travelling _ = false

abbrev pub ended_trip : Fulfillment → Bool
ended_trip Fulfillment.completed = true
ended_trip _ = false

abbrev pub called_off : Fulfillment → Bool
called_off Fulfillment.cancelled = true
called_off _ = false

-- Where an approval leaves an order.
abbrev pub released : Fulfillment → Fulfillment
released f = if unsettled f then Fulfillment.info_pending else f

-- The calls by what they are for. Each has its own edges of the diagram; an approved contract that was not carried
-- over is carried over by any of them.
pub data Kind : Type 0 where
  exchanging signing submitting confirming cancelling reviewing scheduling issuing checking_in :
      Kind
  starting completing failing : Kind

pub data Step : Kind → Stage → Stage → Type 0 where
  settles :
      {k : Kind} {c : ContractStatus} {f : Fulfillment}
      → agreed c ≡ true
      → before_approval f ≡ true
      → Step k (c, f) (c, Fulfillment.info_pending)
  signs :
      {c : ContractStatus} {f : Fulfillment}
      → agreed c ≡ false
      → unsettled f ≡ true
      → Step Kind.signing (c, f) (ContractStatus.pending, Fulfillment.contract_reviewing)
  approves :
      {c : ContractStatus} {f : Fulfillment}
      → under_review c ≡ true
      → Step Kind.reviewing (c, f) (ContractStatus.approved, released f)
  rejects :
      {c : ContractStatus} {f : Fulfillment}
      → under_review c ≡ true
      → Step Kind.reviewing (c, f) (ContractStatus.rejected, Fulfillment.contract_rejected)
  submits :
      {c : ContractStatus} {f : Fulfillment}
      → agreed c ≡ true
      → taking_info f ≡ true
      → Step Kind.submitting (c, f) (c, Fulfillment.info_submitted)
  schedules :
      {c : ContractStatus} {f : Fulfillment}
      → agreed c ≡ true
      → (travelling f || ended_trip f || called_off f) ≡ false
      → Step Kind.scheduling (c, f) (c, Fulfillment.pickup_confirmed)
  confirms :
      {c : ContractStatus} {f : Fulfillment}
      → agreed c ≡ true
      → scheduled f ≡ true
      → Step Kind.confirming (c, f) (c, Fulfillment.user_confirmed)
  issues :
      {c : ContractStatus} {f : Fulfillment}
      → accepted_by_user f ≡ true
      → Step Kind.issuing (c, f) (c, Fulfillment.qr_issued)
  checks_in :
      {c : ContractStatus} {f : Fulfillment}
      → accepted_by_user f ≡ true
      → Step Kind.checking_in (c, f) (c, Fulfillment.checked_in)
  starts :
      {c : ContractStatus} {f : Fulfillment}
      → travelling f ≡ true
      → Step Kind.starting (c, f) (c, Fulfillment.in_trip)
  completes :
      {c : ContractStatus} {f : Fulfillment}
      → (travelling f || ended_trip f) ≡ true
      → Step Kind.completing (c, f) (c, Fulfillment.completed)
  fails :
      {c : ContractStatus} {f : Fulfillment}
      → ended_trip f ≡ false
      → Step Kind.failing (c, f) (c, Fulfillment.exception)
  cancels :
      {c : ContractStatus} {f : Fulfillment}
      → (travelling f || ended_trip f) ≡ false
      → Step Kind.cancelling (c, f) (c, Fulfillment.cancelled)

-- What one call may do to an order: nothing to its statuses; one edge; or one edge of an order whose approved
-- contract has been carried over first.
pub data Reach (k : Kind) : Stage → Stage → Type 0 where
  rests : {s : Stage} → Reach k s s
  takes : {s t : Stage} → Step k s t → Reach k s t
  settled :
      {c : ContractStatus} {f : Fulfillment} {t : Stage}
      → agreed c ≡ true
      → before_approval f ≡ true
      → Step k (c, Fulfillment.info_pending) t
      → Reach k (c, f) t

-- Past its contract's approval; with a code in hand; on the way.
abbrev pub past_contract : Fulfillment → Bool
past_contract Fulfillment.contract_pending = false
past_contract Fulfillment.contract_reviewing = false
past_contract Fulfillment.contract_rejected = false
past_contract Fulfillment.exception = false
past_contract Fulfillment.cancelled = false
past_contract _ = true

abbrev pub holds_code : Fulfillment → Bool
holds_code Fulfillment.user_confirmed = true
holds_code Fulfillment.qr_issued = true
holds_code Fulfillment.exception = true
holds_code _ = false

abbrev pub under_way : Fulfillment → Bool
under_way Fulfillment.checked_in = true
under_way Fulfillment.in_trip = true
under_way Fulfillment.completed = true
under_way _ = false

abbrev pub is_closed : TravelStatus → Bool
is_closed TravelStatus.completed = true
is_closed _ = false

abbrev pub is_set {ℓ} : {A : Type ℓ} → Option A → Bool
is_set none = false
is_set (some a) = true

-- What the columns of an order say of each other: `bare` of a code, `met` at check-in, `closed` as completed.
pub record Consistent (c : ContractStatus) (f : Fulfillment) (bare met closed : Bool) : Type 0 where
  pub contracted : past_contract f ≡ true → is_approved c ≡ true
  pub coded : bare ≡ false → (holds_code f ≡ true) × (is_approved c ≡ true)
  pub checked : under_way f ≡ true → met ≡ true
  pub ended : closed ≡ is_completed f

abbrev pub InOrder : TravelOrder → Type 0
InOrder o =
    Consistent o.contract.status o.fulfillment_status (is_empty o.qr_token) (is_set o.checked_in_at)
      (is_closed o.status)

pub record Moves (k : Kind) (o o' : TravelOrder) : Type 0 where
  pub path : Reach k (stage o) (stage o')
  pub kept : InOrder o → InOrder o'

-- The table of orders after a call.
pub data Evolves (k : Kind) (os : List TravelOrder) : List TravelOrder → Type 0 where
  same : Evolves k os os
  moved :
      {o o' : TravelOrder}
      → find_travel o'.id os ≡ some o
      → Moves k o o'
      → Evolves k os (set_travel o' os)
  opened :
      {o : TravelOrder}
      → k ≡ Kind.exchanging
      → stage o ≡ (ContractStatus.unsigned, Fulfillment.contract_pending)
      → InOrder o
      → Evolves k os (o ∷ os)
