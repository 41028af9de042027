-- ===== src/Control/Billing/Snapshot.antt =====
-- `apply_snapshot`: a subscription as the provider shows it now, checked and projected on the
-- account (apps/api/breakroom_api/team_billing.py).
use breakroom.Base.{
  ℕ, ◌+◌, ◌*◌, String, Bool, true, false, not, ◌&&◌, ◌||◌, Option, none, some, List, [], ◌∷◌,
  filter, leb, ltb, same_option, ◌==◌, if◌then◌else◌,
}
use breakroom.Control.Rows.{Account, ready, unsure, Settings, Store, Checkout}
use breakroom.Control.Monad.{
  Act, Answer, ok, problem, unavailable, invalid_request, gets, reply, modify, pure, fail, require,
  ◌>>=◌, ◌>>◌,
}
use breakroom.Control.Billing.Provider.{
  BillingCall, Snapshot, Item, Line, Invoice, Expandable, plain, expanded, identifier, stamp,
  is_status, is_false, is_number, is_text, is_identifier,
}
use breakroom.Control.Billing.Account.{account_of, update_account}
use breakroom.Control.Billing.Operation.{is_completed, is_checkout_of, latest, checkout_of}

-- `isinstance(selected, dict)`: the identifier of an expanded object.
abbrev pub selected_id : Option Expandable → Option String
selected_id none = none
selected_id (some (plain t)) = some t
selected_id (some (expanded id)) = id

-- The latest completed checkout of the project.
unfoldable pub latest_completed : String → Store → Option Checkout
unfolding latest
latest_completed project_id db =
    elim (latest (filter (λ o. is_checkout_of project_id o && is_completed o) db.operations)) [
      | none ↦ none
      | some o ↦ checkout_of o
    ]

-- Whether the snapshot belongs to the account: a false answer is ignored.
unfoldable pub is_own : BillingCall → String → Account → String → Act Bool
unfolding latest_completed
is_own c project_id account snapshot_id = elim account.subscription_id [
  | some current ↦ pure (current == snapshot_id)
  | none ↦ do
    found ← gets (latest_completed project_id)
    elim found [
      | none ↦ fail unavailable
      | some result ↦ do
        checkout ← reply (c.provider.retrieve_checkout result.checkout_id)
        let own = same_option (selected_id checkout.subscription) (some snapshot_id)
        require
            (not own
              || (same_option checkout.customer account.customer_id && is_false checkout.livemode))
            invalid_request
        pure own
    ]
]

unfoldable pub is_price : Settings → Item → Bool
is_price s i =
    is_text i.price.id s.price_id
    && is_number i.price.unit_amount s.unit_amount
    && is_text i.price.currency s.currency
    && is_text i.price.interval "month"
    && is_number i.price.interval_count 1
    && is_number i.quantity 1

-- `item`, where the snapshot has exactly one
unfoldable pub only_item : Snapshot → Answer Item
only_item snapshot = elim snapshot.items [
  | some (i ∷ []) ↦ if snapshot.has_more then problem invalid_request else ok i
  | _ ↦ problem invalid_request
]

unfoldable pub is_paid_period : Settings → String → Item → ℕ → ℕ → List Line → Bool
unfolding identifier
is_paid_period s id i start end (l ∷ []) =
    is_number l.period_start start
    && is_number l.period_end end
    && is_text l.parent_type "subscription_item_details"
    && is_text l.subscription id
    && same_option l.subscription_item i.id
    && is_identifier i.id "si"
    && is_false l.proration
    && is_text l.pricing_type "price_details"
    && is_text l.price s.price_id
    && is_number l.quantity 1
    && is_number l.amount s.unit_amount
    && is_text l.currency s.currency
is_paid_period s id i start end _ = false

-- A paid invoice of the account for exactly this period.
unfoldable pub is_invoice : Settings → Account → String → Item → ℕ → ℕ → Invoice → Bool
unfolding is_paid_period
is_invoice s account id i start end v =
    is_text v.parent id
    && same_option v.customer account.customer_id
    && is_text v.currency s.currency
    && is_false v.livemode
    && not v.has_more
    && is_paid_period s id i start end v.lines
    && is_number v.amount_paid s.unit_amount
    && is_number v.amount_due s.unit_amount
    && is_number v.amount_remaining 0

-- max(end, paid_through) if paid_through else end
abbrev pub later_of : ℕ → Option ℕ → ℕ
later_of end none = end
later_of end (some t) = if leb end t then t else end

abbrev is_paid_status : Invoice → Bool
is_paid_status v = is_text v.status "paid"

-- The paid period that the snapshot proves, or the one on record.
unfoldable pub paid_through :
    Settings → Account → String → Item → ℕ → ℕ → Option Invoice → Answer (Option ℕ)
unfolding is_invoice
paid_through s account id i start end none = ok account.paid_through
paid_through s account id i start end (some v) =
    if is_paid_status v
    then (if is_invoice s account id i start end v
        then ok (some (later_of end account.paid_through))
        else problem invalid_request)
    else ok account.paid_through

abbrev is_known_status : Option String → Bool
is_known_status none = false
is_known_status (some t) = is_status t

-- `snapshot["id"]` and `snapshot["status"]`, where they are valid
unfoldable pub check_snapshot : Account → Snapshot → Answer (String × String)
unfolding identifier is_status
check_snapshot account snapshot = elim snapshot.id [
  | none ↦ problem invalid_request
  | some id ↦ elim snapshot.status [
    | none ↦ problem invalid_request
    | some status ↦
        if identifier "sub" id
          && same_option snapshot.customer account.customer_id
          && is_false snapshot.livemode
          && is_status status
        then ok (id, status)
        else problem invalid_request
  ]
]

-- The period of the item, at most forty days.
unfoldable pub period : Item → Answer (ℕ × ℕ)
unfolding stamp
period i = elim (stamp i.current_period_end) [
  | problem e ↦ problem e
  | ok end ↦ elim (stamp i.current_period_start) [
    | problem e ↦ problem e
    | ok start ↦
        if ltb start end && leb end (start + 40 * 86400)
        then ok (start, end)
        else problem invalid_request
  ]
]

abbrev flag : Option Bool → Answer Bool
flag none = problem invalid_request
flag (some b) = ok b

-- The projection of a snapshot that is the account's own.
unfoldable pub project_snapshot :
    BillingCall → String → Account → Snapshot → String → String → Act Bool
unfolding only_item is_price period paid_through
project_snapshot c project_id account snapshot id status = do
  i ← reply (only_item snapshot)
  require (is_price c.settings i) invalid_request
  bounds ← reply (period i)
  cancels ← reply (flag snapshot.cancel_at_period_end)
  through ← reply (paid_through c.settings account id i bounds.0 bounds.1 snapshot.latest_invoice)
  modify (
      update_account project_id (λ a. record a {
        subscription_id = some id;
        status = status;
        sync_state = if snapshot.pause_collection then unsure else ready;
        current_period_end = some bounds.1;
        cancel_at_period_end = cancels;
        paid_through = through;
      }))
  pure true

-- `apply_snapshot`
unfoldable pub apply_snapshot : BillingCall → String → Snapshot → Act Bool
unfolding check_snapshot is_own
apply_snapshot c project_id snapshot = do
  account ← gets (λ db. account_of db project_id)
  named ← reply (check_snapshot account snapshot)
  own ← is_own c project_id account named.0
  if own then project_snapshot c project_id account snapshot named.0 named.1 else pure false
