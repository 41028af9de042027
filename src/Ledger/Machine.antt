-- ===== src/Ledger/Machine.antt =====
-- The steps of the abstract payment machine: one refund is committed with its registration, or a
-- pending refund settles. It specifies packages/breakroom-core/src/breakroom/simulator.py.
use breakroom.Base.{◌+◌, ◌≤◌, ◌<◌, ◌≡◌, String, none, some, List, [], ◌∷◌, ◌++◌}
use breakroom.Simulator.Rows.{Order, Refund, RefundStatus, Registration}
use breakroom.Simulator.Queries.{find_order, find_refund, find_registration, reserved}
use breakroom.Simulator.Clock.{settle}
use breakroom.Simulator.Initialize.{registration_of}

pub record Ledger : Type 0 where
  pub orders : List Order
  pub refunds : List Refund
  pub registry : List Registration

-- What has to hold for a refund to be committed.
pub record Allowed (l : Ledger) (r : Refund) : Type 0 where
  pub order : Order
  pub owned : find_order r.order_id l.orders ≡ some order
  pub paid : order.status ≡ "paid"
  pub positive : 0 < r.amount_minor
  pub covered : r.amount_minor + reserved r.order_id l.refunds ≤ order.amount_minor
  pub currency : r.currency ≡ order.currency
  pub fresh_id : find_refund r.id l.refunds ≡ none
  pub fresh_key : find_registration r.operation_key l.registry ≡ none

abbrev pub committed : Ledger → Refund → Ledger
committed l r = record l {
  refunds = l.refunds ++ r ∷ [];
  registry = l.registry ++ registration_of r ∷ [];
}

abbrev pub settled : Ledger → String → RefundStatus → Ledger
settled l id status = record l { refunds = settle id status l.refunds }

-- Only the simulator's clock settles refunds; a call commits one at most.
pub data Step (l m : Ledger) : Type 0 where
  commit : (r : Refund) → Allowed l r → m ≡ committed l r → Step l m
  settling : (id : String) (status : RefundStatus) → m ≡ settled l id status → Step l m

pub data Reach (l : Ledger) : Ledger → Type 0 where
  here : Reach l l
  next : {m n : Ledger} → Reach l m → Step m n → Reach l n

pub Reach-trans : {l m n : Ledger} → Reach l m → Reach m n → Reach l n
Reach-trans p here = p
Reach-trans p (next q s) = next (Reach-trans p q) s

pub Reach-one : {l m : Ledger} → Step l m → Reach l m
Reach-one s = next here s
