-- ===== src/Snowflake/Tests.antt =====
-- Three ids over a step back of the clock.
use python_server.Base.{ℕ, ◌≡◌, ◌≢◌, refl, inl, List, [], ◌∷◌, All, arith, codes, decimal}
use python_server.Base.Int.{pos, negsuc}
use python_server.Snowflake.{Generator, wait_next_millis, next_id, next_order_no, ids}
use python_server.Snowflake.Increasing.{IsValid, Increasing, ids-Increasing}
use python_server.Snowflake.Apart.{ids-Apart}
use python_server.Snowflake.Fits.{Fits, ids-Fits}

abbrev first_worker : Generator
first_worker = record { worker_id = 1; datacenter_id = 0; sequence = 0; last_timestamp = negsuc 0 }

abbrev second_worker : Generator
second_worker = record first_worker { worker_id = 2 }

abbrev readings : List ℕ
readings = 1704067200005 ∷ 1704067200004 ∷ 1704067200005 ∷ 1704067200006 ∷ []

first_worker-IsValid : IsValid first_worker
first_worker-IsValid = record {
  worker = omega arith;
  datacenter = omega arith;
  sequence = omega arith;
}

second_worker-IsValid : IsValid second_worker
second_worker-IsValid = record {
  worker = omega arith;
  datacenter = omega arith;
  sequence = omega arith;
}

three_ids : ids 4 readings first_worker ≡ pos 20975616 ∷ pos 20975617 ∷ pos 25169920 ∷ []
unfolding ids next_id wait_next_millis
three_ids = refl

order_no : next_order_no (codes "TR") (pos 20975616) ≡ codes "TR20975616"
unfolding decimal
order_no = refl

-- A millisecond whose numbers have run out is waited for.
full :
    ids 1 (5 ∷ 5 ∷ 6 ∷ []) (record first_worker { sequence = 4095; last_timestamp = pos 5 })
    ≡ ids 1 (6 ∷ []) first_worker
unfolding ids next_id wait_next_millis
full = refl

ids-Increasing_example : Increasing (ids 4 readings first_worker)
ids-Increasing_example = ids-Increasing 4 readings first_worker first_worker-IsValid

ids-Apart_example :
    All (λ i. All (λ j. i ≢ j) (ids 4 readings second_worker)) (ids 4 readings first_worker)
ids-Apart_example =
    ids-Apart 4 4 readings readings first_worker second_worker first_worker-IsValid
      second_worker-IsValid (inl (λ e. absurd (omega arith)))

ids-Fits_example : All Fits (ids 4 readings first_worker)
ids-Fits_example = ids-Fits 4 readings first_worker first_worker-IsValid (
  (omega arith, omega arith),
  ((omega arith, omega arith), ((omega arith, omega arith), ((omega arith, omega arith), tt))),
)
