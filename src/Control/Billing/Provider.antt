-- ===== src/Control/Billing/Provider.antt =====
-- What the payment provider answers, as `BillingService` reads it, and what a handler is given
-- (apps/api/breakroom_api/team_billing.py). The provider is an argument of the source; a field that
-- may be missing or of another type is an option.
use breakroom.Base.{
  ℕ, String, Bool, true, false, ◌&&◌, ◌||◌, Option, none, some, List, [], ◌∷◌, member, leb, ltb,
  ◌==◌, ◌=ℕ=◌, if◌then◌else◌,
}
use Prim.Native.Char.{Char, code}
use Prim.Native.String.{count, ◌++◌ as join}
use text.Mathlib.Text.{starts_with}
use breakroom.Control.Rows.{Settings}
use breakroom.Control.Monad.{Answer, ok, problem, invalid_request}

-- An identifier, or the object that it names.
pub data Expandable : Type 0 where
  plain : String → Expandable
  expanded : Option String → Expandable

pub record CustomerObject : Type 0 where
  pub id : Option String
  pub livemode : Option Bool

pub record CheckoutObject : Type 0 where
  pub id : Option String
  pub mode : Option String
  pub livemode : Option Bool
  pub customer : Option String
  pub url : Option String
  pub expires_at : Option ℕ
  pub status : Option String
  pub subscription : Option Expandable

pub record Price : Type 0 where
  pub id : Option String
  pub unit_amount : Option ℕ
  pub currency : Option String
  pub interval : Option String
  pub interval_count : Option ℕ

pub record Item : Type 0 where
  pub id : Option String
  pub price : Price
  pub quantity : Option ℕ
  pub current_period_start : Option ℕ
  pub current_period_end : Option ℕ

pub record Line : Type 0 where
  pub period_start : Option ℕ
  pub period_end : Option ℕ
  pub parent_type : Option String
  pub subscription : Option String
  pub subscription_item : Option String
  pub proration : Option Bool
  pub pricing_type : Option String
  pub price : Option String
  pub quantity : Option ℕ
  pub amount : Option ℕ
  pub currency : Option String

pub record Invoice : Type 0 where
  pub status : Option String
  pub parent : Option String
  pub lines : List Line
  pub has_more : Bool
  pub customer : Option String
  pub currency : Option String
  pub livemode : Option Bool
  pub amount_paid : Option ℕ
  pub amount_due : Option ℕ
  pub amount_remaining : Option ℕ

-- A subscription with its items and its latest invoice.
pub record Snapshot : Type 0 where
  pub id : Option String
  pub customer : Option String
  pub livemode : Option Bool
  pub status : Option String
  pub items : Option (List Item)
  pub has_more : Bool
  pub cancel_at_period_end : Option Bool
  pub latest_invoice : Option Invoice
  pub pause_collection : Bool

pub record Provider : Type 0 where
  pub create_customer : (project_id key : String) → Answer CustomerObject
  pub create_checkout : (customer_id project_id key : String) → Answer CheckoutObject
  pub retrieve_checkout : (checkout_id : String) → Answer CheckoutObject
  pub retrieve_subscription : (subscription_id : String) → Answer Snapshot
  pub cancel_subscription :
      (subscription_id key : String) → (at_period_end : Bool) → Answer (Unit {0})

-- The parameters whose digest an operation keeps.
pub data Request : Type 0 where
  plan_team : Request
  at_period_end : Bool → Request

-- One call of a handler: the clock, `opaque_id()`, SHA-256 and the provider's answers.
pub record BillingCall : Type 0 where
  pub settings : Settings
  pub now : ℕ
  pub opaque_id : String
  pub digest : Request → String
  pub provider : Provider

abbrev word_char : Char → Bool
word_char c =
    (leb 65 (code c) && leb (code c) 90)
    || (leb 97 (code c) && leb (code c) 122)
    || (leb 48 (code c) && leb (code c) 57)
    || code c =ℕ= 95

abbrev hex_char : Char → Bool
hex_char c = (leb 97 (code c) && leb (code c) 102) || (leb 48 (code c) && leb (code c) 57)

abbrev all_chars : (Char → Bool) → String → Bool
all_chars p String.[] = true
all_chars p (String.◌∷◌ c s) = p c && all_chars p s

abbrev after_char : ℕ → String → String
after_char n String.[] = ""
after_char n (String.◌∷◌ c s) = let rest = after_char n s in if code c =ℕ= n then s else rest

-- prefix + "_[A-Za-z0-9_]{1,120}", where the prefix has no underscore
unfoldable pub identifier : String → String → Bool
identifier prefix value =
    starts_with value (join prefix "_")
    && all_chars word_char (after_char 95 value)
    && leb 1 (count (after_char 95 value))
    && leb (count (after_char 95 value)) 120

-- "[a-f0-9]{64}"
unfoldable pub is_key : String → Bool
is_key key = count key =ℕ= 64 && all_chars hex_char key

-- `stamp`, in seconds
unfoldable pub stamp : Option ℕ → Answer ℕ
stamp none = problem invalid_request
stamp (some t) = if ltb 0 t && ltb t 32503680000 then ok t else problem invalid_request

-- `x is False`
abbrev pub is_false : Option Bool → Bool
is_false (some false) = true
is_false _ = false

abbrev pub is_number : Option ℕ → ℕ → Bool
is_number none k = false
is_number (some n) k = n =ℕ= k

abbrev pub is_text : Option String → String → Bool
is_text none k = false
is_text (some t) k = t == k

abbrev pub is_identifier : Option String → String → Bool
is_identifier none prefix = false
is_identifier (some t) prefix = identifier prefix t

-- `TERMINAL` and `STATUSES`
unfoldable pub is_terminal : String → Bool
is_terminal status = member status ("canceled" ∷ "incomplete_expired" ∷ [])

unfoldable pub is_status : String → Bool
is_status status = member status (
    "active" ∷ "trialing" ∷ "past_due" ∷ "canceled" ∷ "unpaid" ∷ "incomplete" ∷ "incomplete_expired"
    ∷ "paused" ∷ [])
