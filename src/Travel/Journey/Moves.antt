-- ===== src/Travel/Journey/Moves.antt =====
-- Each change that a call makes to an order follows the diagram and leaves the order in order.
use python_server.Base.{
  ◌≡◌, refl, sym, subst, true, false, ◌&&◌, ◌||◌, arith, [], Text, Bool-cases, inl, inr, ℕ,
}
use python_server.Travel.Model.{Fulfillment, ContractStatus, TravelOrder, Actor, TravelDb}
use python_server.Travel.Cancel.{non_cancellable, cancelled_order}
use python_server.Travel.Journey.{
  Desk, is_approved, awaits_contract, normalize_fulfillment_status, issue_token,
}
use python_server.Travel.Journey.Traveller.{
  SignPayload, PickupPayload, may_sign, may_submit, signed_order, submitted_order, confirmed_order,
  is_pickup_confirmed,
}
use python_server.Travel.Journey.Office.{
  SchedulePayload, in_review, after_approval, past_schedule, may_check_in, approved_order,
  rejected_order, scheduled_order,
}
use python_server.Travel.Journey.Trip.{
  may_start, is_completed, checked_in_order, completed_order, exception_order,
}
use python_server.Travel.Journey.Stages.{
  Stage, stage, Kind, Step, settles, signs, approves, rejects, submits, schedules, confirms, issues,
  checks_in, starts, completes, fails, cancels, Reach, rests, takes, settled, InOrder, Moves,
  agreed, before_approval, released,
}

-- A change of other columns before a move, and one after it.
pub Moves-after :
    {k : Kind} (o p q : TravelOrder)
    → stage p ≡ stage o
    → (InOrder o → InOrder p)
    → Moves k p q
    → Moves k o q
Moves-after {k} o p q same kept m = record {
  path = subst (λ s. Reach k s (stage q)) same m.path;
  kept = λ h. m.kept (kept h);
}

pub Moves-before :
    {k : Kind} (o p q : TravelOrder)
    → Moves k o p
    → stage q ≡ stage p
    → (InOrder p → InOrder q)
    → Moves k o q
Moves-before {k} o p q m same kept = record {
  path = subst (λ s. Reach k (stage o) s) (sym same) m.path;
  kept = λ h. kept (m.kept h);
}

-- A move from where an approved contract leaves the order.
carried :
    {k : Kind} (c : ContractStatus) (f g : Fulfillment) (t : Stage)
    → agreed c ≡ true
    → before_approval f ≡ true
    → g ≡ Fulfillment.info_pending
    → Reach k (c, g) t
    → Reach k (c, f) t
carried {k} c f g t a b e rests = subst (λ x. Reach k (c, f) (c, x)) (sym e) (takes (settles a b))
carried {k} c f g t a b e (takes edge) = settled a b (subst (λ x. Step k (c, x) t) e edge)
carried c f g t a b e (settled a' waits edge) = absurd (ground arith)

after_approval-released : (f : Fulfillment) → after_approval f ≡ released f
after_approval-released f = ground arith

pub normalize-Moves :
    {k : Kind} (o q : TravelOrder) → Moves k (normalize_fulfillment_status o) q → Moves k o q
normalize-Moves o q =
    elim (Bool-cases (is_approved o.contract.status && awaits_contract o.fulfillment_status)) [
      | inl e ↦ rw e (λ m. record {
        path =
            carried o.contract.status o.fulfillment_status Fulfillment.info_pending (stage q)
              (ground arith) (ground arith) refl m.path;
        kept = λ h. m.kept (ground arith);
      })
      | inr e ↦ rw e (λ m. m)
    ]

module _ (o : TravelOrder) where
  pub signed-Moves :
      (desk : Desk) (p : SignPayload) (actor : Actor) (url : Text)
      → is_approved o.contract.status ≡ false
      → may_sign o.fulfillment_status ≡ true
      → Moves Kind.signing o (signed_order desk p actor url o)
  signed-Moves desk p actor url a b = record {
    path = takes (signs (ground arith) (ground arith));
    kept = λ h. ground arith;
  }

  pub submitted-Moves :
      (p : PickupPayload)
      → is_approved o.contract.status ≡ true
      → may_submit o.fulfillment_status ≡ true
      → Moves Kind.submitting o (submitted_order p o)
  submitted-Moves p a b = record {
    path = takes (submits (ground arith) (ground arith));
    kept = λ h. ground arith;
  }

  pub approved-Moves :
      (desk : Desk)
      → in_review o.contract.status ≡ true
      → Moves Kind.reviewing o (approved_order desk o)
  approved-Moves desk a = record {
    path =
        subst (λ f. Reach Kind.reviewing (stage o) (ContractStatus.approved, f))
          (sym (after_approval-released o.fulfillment_status)) (takes (approves (ground arith)));
    kept = λ h. ground arith;
  }

  pub rejected-Moves :
      (desk : Desk) (reason : Text)
      → in_review o.contract.status ≡ true
      → Moves Kind.reviewing o (rejected_order desk reason o)
  rejected-Moves desk reason a = record {
    path = takes (rejects (ground arith));
    kept = λ h. ground arith;
  }

  pub scheduled-Moves :
      (p : SchedulePayload)
      → is_approved o.contract.status ≡ true
      → past_schedule o.fulfillment_status ≡ false
      → Moves Kind.scheduling o (scheduled_order p o)
  scheduled-Moves p a b = record {
    path = takes (schedules (ground arith) (ground arith));
    kept = λ h. ground arith;
  }

  pub checked_in-Moves :
      (desk : Desk)
      → may_check_in o.fulfillment_status ≡ true
      → Moves Kind.checking_in o (checked_in_order desk o)
  checked_in-Moves desk a = record {
    path = takes (checks_in (ground arith));
    kept = λ h. ground arith;
  }

  -- A code that has expired is taken back.
  pub withdrawn-Moves : Moves Kind.checking_in o (record o { qr_token = [] })
  withdrawn-Moves = record { path = rests; kept = λ h. ground arith }

  pub started-Moves :
      may_start o.fulfillment_status ≡ true
      → Moves Kind.starting o (record o { fulfillment_status = Fulfillment.in_trip })
  started-Moves a = record { path = takes (starts (ground arith)); kept = λ h. ground arith }

  pub exception-Moves :
      (reason : Text)
      → is_completed o.fulfillment_status ≡ false
      → Moves Kind.failing o (exception_order reason o)
  exception-Moves reason a = record {
    path = takes (fails (ground arith));
    kept = λ h. ground arith;
  }

  pub cancelled-Moves :
      (now : ℕ) (reason : Text)
      → non_cancellable o.fulfillment_status ≡ false
      → Moves Kind.cancelling o (cancelled_order now reason o)
  cancelled-Moves now reason a = record {
    path = takes (cancels (ground arith));
    kept = λ h. ground arith;
  }

  pub confirmed-Moves :
      (desk : Desk)
      → is_approved o.contract.status ≡ true
      → is_pickup_confirmed o.fulfillment_status ≡ true
      → Moves Kind.confirming o (confirmed_order desk o)
  confirmed-Moves desk a b = record {
    path = takes (confirms (ground arith) (ground arith));
    kept = λ h. ground arith;
  }

  -- A code for an order that may check in.
  pub issued-Moves :
      (desk : Desk) (actor : Actor) (db : TravelDb)
      → may_check_in o.fulfillment_status ≡ true
      → (InOrder o → InOrder (issue_token desk actor o db).0)
  issued-Moves desk actor db a h = ground arith

  pub qr_issued-Moves :
      may_check_in o.fulfillment_status ≡ true
      → Moves Kind.issuing o (record o { fulfillment_status = Fulfillment.qr_issued })
  qr_issued-Moves a = record { path = takes (issues (ground arith)); kept = λ h. ground arith }

  pub completed-Moves :
      (desk : Desk)
      → (may_start o.fulfillment_status || is_completed o.fulfillment_status) ≡ true
      → Moves Kind.completing o (completed_order desk o)
  completed-Moves desk a = record {
    path = takes (completes (ground arith));
    kept = λ h. ground arith;
  }
