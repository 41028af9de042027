-- ===== src/Simulator/Tests.antt =====
-- Runs of the simulator on the fixture.
use breakroom.Base.{
  ap, pos, String, [], ◌∷◌, false, some, suc, ◌⊎◌, ◌≤◌, ◌≡◌, refl, length, ℕ, arith,
}
use breakroom.Simulator.Calls.{Call, RefundArguments}
use breakroom.Simulator.Safety.Tickets.{ticket_retry}
use breakroom.Simulator.Rows.{Ticket, TicketView, Order, Refund, Registration, Value, succeeded}
use breakroom.Simulator.State.{Context, Db}
use breakroom.Simulator.Context.{context_sleep}
use breakroom.Simulator.Clock.{due}
use breakroom.Simulator.Queries.{
  find_ticket, find_order, find_registration, reserved, parameters_of,
}
use breakroom.Simulator.Refund.{refund}
use breakroom.Simulator.Refund.Checks.{Checked}
use breakroom.Simulator.Operation.{operation}
use breakroom.Simulator.Ticket.{
  Change, append_note, ticket_write, find_operation, operation_key, same_value,
}
use breakroom.Simulator.Dispatch.{admit, dispatch, total_calls}
use breakroom.Simulator.Initialize.{initialize}
use breakroom.Simulator.Fixture.{fixture, session, refund_arguments, refund_call}
use breakroom.Simulator.Evolution.{Evolves, ledger}
use breakroom.Simulator.Safety.Fresh.{IsValidFixture, initialize-IsSound}
use breakroom.Simulator.Safety.Interleaving.{
  Run, start, step, admitted, operated, Run-Evolves, no_over_refund, refund_once,
}
use breakroom.Simulator.Safety.Replay.{refund_replays}
use breakroom.Simulator.Safety.Retry.{refund_retry, refund_conflict}
use breakroom.Simulator.Safety.Budget.{admit-budget}
use breakroom.Simulator.Monad.{transaction, ok, raised, tool_error, budget_exceeded}
use breakroom.Simulator.Opened.{opened}
use breakroom.Ledger.Invariant.{IsSound, Reach-IsSound, key_count, refund_parameters}

abbrev lost : Db
lost = (dispatch session (refund_call "key_1") (initialize fixture)).1

lost_first :
    (dispatch session (refund_call "key_1") (initialize fixture)).0
    ≡ raised (tool_error "transport_timeout" 0)
unfolding opened
lost_first = refl

retry_same : ◌≡◌ {A = ℕ} (length (dispatch session (refund_call "key_1") lost).1.refunds) 1
unfolding opened
retry_same = refl

retry_fresh : ◌≡◌ {A = ℕ} (length (dispatch session (refund_call "key_2") lost).1.refunds) 2
unfolding opened
retry_fresh = refl

fixture-IsValid : IsValidFixture fixture
unfolding reserved
fixture-IsValid = record { distinct = tt; covered = λ id o found. omega arith }

abbrev counted : Db
counted = (admit session (refund_call "key_1") (initialize fixture)).1

abbrev paid : Db
paid = (transaction (operation session (refund_call "key_1")) counted).1

abbrev later : Db
later = (transaction (operation session (refund_call "key_2")) paid).1

two_refunds : Run (initialize fixture) later
two_refunds =
    step
      (step (step start (admitted session (refund_call "key_1") refl))
        (operated session (refund_call "key_1") refl))
      (operated session (refund_call "key_2") refl)

abbrev the_order : Order
the_order = record {
  id = "ord_1";
  customer_id = "cus_1";
  amount_minor = 500000;
  currency = "INR";
  status = "paid";
}

two_taken : reserved "ord_1" later.refunds ≡ 200000
unfolding opened reserved
two_taken = refl

Run-Evolves_example : Evolves (initialize fixture) later
Run-Evolves_example = Run-Evolves two_refunds

no_over_refund_example : reserved "ord_1" later.refunds ≤ 500000
unfolding opened find_order
no_over_refund_example =
    no_over_refund fixture later "ord_1" the_order fixture-IsValid two_refunds refl

refund_once_example : key_count "key_1" later.refunds ≤ 1
refund_once_example = refund_once fixture later "key_1" fixture-IsValid two_refunds

abbrev checked : Checked
checked = record {
  order = the_order;
  parameters = parameters_of "ord_1" 100000 "INR" "req_1";
  operation_key = "key_1";
}

abbrev named : Registration
named = record {
  operation_key = "key_1";
  parameters = parameters_of "ord_1" 100000 "INR" "req_1";
  refund_id = "rf_000001";
}

abbrev after_refund : Db
after_refund = (refund session (refund_arguments "key_1") (initialize fixture)).1

abbrev the_refund : Refund
the_refund = record {
  id = "rf_000001";
  order_id = "ord_1";
  amount_minor = 100000;
  currency = "INR";
  logical_request_id = "req_1";
  operation_key = "key_1";
  status = succeeded;
  created_at = 0;
}

paid-IsSound : IsSound (ledger paid)
paid-IsSound = Reach-IsSound (Run-Evolves paying).pays (initialize-IsSound fixture fixture-IsValid)
  where
    paying : Run (initialize fixture) paid
    paying =
        step (step start (admitted session (refund_call "key_1") refl))
          (operated session (refund_call "key_1") refl)

refund_replays_example :
    (r : Refund) × ((refund session (refund_arguments "key_1") paid).0 ≡ ok r)
    × (r.id ≡ "rf_000001")
    × (refund_parameters r ≡ parameters_of "ord_1" 100000 "INR" "req_1")
    × (ledger (refund session (refund_arguments "key_1") paid).1 ≡ ledger paid)
unfolding opened find_registration find_order
refund_replays_example =
    refund_replays session (refund_arguments "key_1") paid checked named paid-IsSound refl refl refl

refund_retry_example :
    (again : Refund) × ((refund session (refund_arguments "key_1") after_refund).0 ≡ ok again)
    × (again.id ≡ "rf_000001")
    × (ledger (refund session (refund_arguments "key_1") after_refund).1 ≡ ledger after_refund)
unfolding opened find_registration find_order
refund_retry_example =
    refund_retry session session (refund_arguments "key_1") (initialize fixture) after_refund
      after_refund the_refund checked (initialize-IsSound fixture fixture-IsValid) refl start refl

abbrev other_amount : RefundArguments
other_amount = record (refund_arguments "key_1") { amount_minor = Value.int (pos 7) }

refund_conflict_example :
    refund session other_amount after_refund
    ≡ (raised (tool_error "idempotency_conflict" 0), after_refund)
unfolding opened find_registration find_order
refund_conflict_example =
    refund_conflict session session (refund_arguments "key_1") other_amount (initialize fixture)
      after_refund after_refund the_refund checked
      (record checked { parameters = parameters_of "ord_1" 7 "INR" "req_1" }) refl start refl refl
      refl (λ e. absurd (omega (arith, ap (λ p. p.amount_minor) e)))

admit-budget_example :
    ((n : ℕ) × ((admit session (refund_call "key_1") (initialize fixture)).0 ≡ ok n)
      × (total_calls (admit session (refund_call "key_1") (initialize fixture)).1.invocations
          ≡ suc (total_calls (initialize fixture).invocations))
      × (total_calls (admit session (refund_call "key_1") (initialize fixture)).1.invocations ≤ 20))
    ⊎ ((admit session (refund_call "key_1") (initialize fixture)
          ≡ (raised budget_exceeded, initialize fixture))
        × (20 ≤ total_calls (initialize fixture).invocations))
admit-budget_example = admit-budget session (refund_call "key_1") (initialize fixture)

abbrev note : Change
note = append_note (Value.text "Refunded rf_000001.")

abbrev noted : Db
noted = (ticket_write session note "tic_1" (Value.text "op_1") (some 1) (initialize fixture)).1

-- Another write of the same ticket, behind which the note is retried.
abbrev resolve : Call
resolve = Call.update_ticket "tic_1" "resolved" (Value.text "op_2") (some 2)

abbrev edited : Db
edited = (transaction (operation session resolve) noted).1

abbrev ticket : ℕ → String → Ticket
ticket version status = record {
  id = "tic_1";
  customer_id = "cus_1";
  order_id = "ord_1";
  version = version;
  status = status;
}

abbrev view : Ticket → TicketView
view t = record {
  ticket = t;
  messages =
      record {
        id = "note_000001";
        ticket_id = "tic_1";
        text = "Refunded rf_000001.";
        operation_id = "op_1";
      }
      ∷ [];
}

ticket_retry_example :
    (ticket_write session note "tic_1" (Value.text "op_1") (some 1) edited
      ≡ (ok (view (ticket 3 "resolved")), edited))
    × (2 ≤ 3)
unfolding opened find_operation operation_key find_ticket same_value
ticket_retry_example =
    ticket_retry session session note "tic_1" "op_1" (some 1) (some 1) (initialize fixture) noted
      edited (view (ticket 2 "open")) (view (ticket 3 "resolved")) refl
      (step start (operated session resolve refl)) refl refl

abbrev patience : Context
patience = record { deadline = 60; cancelled = false; wall_expired = false }

slept :
    ((context_sleep session patience 5 noted).0 ≡ ok tt)
    × ((context_sleep session patience 5 noted).1.clock ≡ 5)
unfolding opened context_sleep due
slept = (refl, refl)

refused : (context_sleep session patience 61 noted).0 ≡ raised budget_exceeded
unfolding opened context_sleep due
refused = refl
