-- ===== src/Control/Rows.antt =====
-- The rows of the control plane's tables and its settings (apps/api/breakroom_api/team_db.py,
-- billing_db.py, password_db.py and team_config.py). Times are seconds since the epoch.
use breakroom.Base.{ℕ, String, Bool, Option, List}

pub record User : Type 0 where
  pub id : String
  pub issuer : String
  pub subject : String
  pub email : String
  pub display_name : String

pub record UserSession : Type 0 where
  pub token_hash : String
  pub user_id : String
  pub csrf_token : String
  pub expires_at : ℕ

pub record Credential : Type 0 where
  pub user_id : String
  pub password_hash : String
  pub verified_at : Option ℕ
  pub changed_at : ℕ

pub data Purpose : Type 0 where
  verification reset : Purpose

pub record AccountToken : Type 0 where
  pub token_hash : String
  pub user_id : String
  pub purpose : Purpose
  pub expires_at : ℕ

pub record AuthLimit : Type 0 where
  pub bucket_hash : String
  pub attempts : ℕ
  pub expires_at : ℕ

pub data Role : Type 0 where
  viewer developer owner : Role

pub record Membership : Type 0 where
  pub project_id : String
  pub user_id : String
  pub role : Role

pub record Invitation : Type 0 where
  pub id : String
  pub project_id : String
  pub invited_by : String
  pub email : String
  pub role : Role
  pub token_hash : String
  pub created_at : ℕ
  pub expires_at : ℕ
  pub revoked_at : Option ℕ
  pub accepted_at : Option ℕ

-- The project and the size of an imported report.
pub record StoredReport : Type 0 where
  pub id : String
  pub project_id : String
  pub octets : ℕ

-- "ready", "pending", "retrying" and "unknown".
pub data SyncState : Type 0 where
  ready syncing resyncing unsure : SyncState

pub record Account : Type 0 where
  pub project_id : String
  pub customer_id : Option String
  pub subscription_id : Option String
  pub status : String
  pub sync_state : SyncState
  pub cancel_at_period_end : Bool
  pub current_period_end : Option ℕ
  pub paid_through : Option ℕ

pub data OperationKind : Type 0 where
  checkout_kind cancel_kind : OperationKind

pub data OperationStatus : Type 0 where
  pending completed unknown : OperationStatus

pub record Checkout : Type 0 where
  pub checkout_id : String
  pub url : String
  pub expires_at : ℕ
  pub confirmed_expired : Bool

pub data OperationResult : Type 0 where
  checkout_result : Checkout → OperationResult
  cancel_result : (subscription_id : String) → (at_period_end : Bool) → OperationResult

pub record Operation : Type 0 where
  pub id : String
  pub project_id : String
  pub kind : OperationKind
  pub idempotency_key : String
  pub request_hash : String
  pub status : OperationStatus
  pub result : Option OperationResult
  pub created_at : ℕ

-- "pending" is `waiting`; the others have the names of the source.
pub data EventStatus : Type 0 where
  waiting processing retrying processed ignored failed : EventStatus

pub data TargetKind : Type 0 where
  checkout_target subscription_target : TargetKind

pub record BillingEvent : Type 0 where
  pub event_id : String
  pub project_id : String
  pub payload_hash : String
  pub event_type : String
  pub target_id : String
  pub target_kind : TargetKind
  pub provider_created : ℕ
  pub status : EventStatus
  pub attempts : ℕ
  pub lease_token : Option String
  pub lease_until : Option ℕ
  pub retry_at : ℕ
  pub created_at : ℕ

-- The database.
pub record Store : Type 0 where
  pub users : List User
  pub sessions : List UserSession
  pub credentials : List Credential
  pub account_tokens : List AccountToken
  pub auth_limits : List AuthLimit
  pub projects : List String
  pub memberships : List Membership
  pub invitations : List Invitation
  pub reports : List StoredReport
  pub accounts : List Account
  pub operations : List Operation
  pub events : List BillingEvent

pub record Settings : Type 0 where
  pub environment : String
  pub dev_login : Bool
  pub password_enabled : Bool
  pub mail_available : Bool
  pub session_ttl_seconds : ℕ
  pub public_origin : String
  pub billing_enabled : Bool
  pub price_id : String
  pub unit_amount : ℕ
  pub currency : String
  pub seat_limit : ℕ
  pub report_limit : ℕ
  pub storage_limit : ℕ
