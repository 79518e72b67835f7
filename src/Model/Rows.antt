-- ===== src/Model/Rows.antt =====
-- The models of packages/database/prisma/schema.prisma, a record for each. A UUID is a text, a
-- DateTime a count of milliseconds, and a Decimal(18, 6) a signed count of millionths. Left out
-- are `updatedAt`, the relation fields, and the columns that no modelled code reads or writes.
use nexus_hub_contract.Prelude.{ℕ, String, Bool, Option, List}
use nexus_hub_contract.Prelude.Int.{ℤ}
use nexus_hub_contract.Model.Decimal.{Decimal}
use nexus_hub_contract.Model.Enums.{
  UserRole, UserStatus, TransactionType, TransactionStatus, EscrowStatus, DisputeStatus,
  DisputeReason, WebhookEvent, WebhookDeliveryStatus,
}

-- Values of the Json columns and of webhook payloads; `missing` is `undefined`.
pub data Json : Type 0 where
  text : String → Json
  number : ℕ → Json
  decimal : ℤ → Json
  exact : Decimal → Json
  flag : Bool → Json
  missing : Json

abbrev pub Payload : Type 0
Payload = List (String × Json)

pub record User : Type 0 where
  pub id : String
  pub email : String
  pub password_hash : String
  pub role : UserRole
  pub status : UserStatus
  pub first_name : String
  pub last_name : String
  pub stellar_public_key : Option String
  pub stellar_secret_encrypted : Option String

pub record RefreshToken : Type 0 where
  pub id : String
  pub token : String
  pub user_id : String
  pub expires_at : ℕ
  pub is_revoked : Bool

pub record Balance : Type 0 where
  pub user_id : String
  pub available_amount : ℤ
  pub reserved_amount : ℤ
  pub version : ℕ

pub record Transaction : Type 0 where
  pub idempotency_key : String
  pub user_id : String
  pub type : TransactionType
  pub status : TransactionStatus
  pub amount : ℤ
  pub fee : ℤ
  pub description : Option String
  pub reference : Option String
  pub escrow_id : Option String
  pub created_at : ℕ

pub record Escrow : Type 0 where
  pub id : String
  pub client_id : String
  pub freelancer_id : String
  pub amount : ℤ
  pub fee : ℤ
  pub status : EscrowStatus
  pub description : String
  pub milestone_title : Option String
  pub milestone_hash : Option String
  pub stellar_contract_id : Option String
  pub stellar_tx_hash : Option String
  pub milestones_total : ℕ
  pub milestones_completed : ℕ
  pub expiry_ledger : ℕ
  pub client_approved : Bool
  pub freelancer_approved : Bool
  pub released_at : Option ℕ
  pub refunded_at : Option ℕ
  pub funded_at : Option ℕ
  pub expired_at : Option ℕ
  pub created_at : ℕ

pub record Dispute : Type 0 where
  pub id : String
  pub escrow_id : String
  pub raised_by_id : String
  pub reason : DisputeReason
  pub status : DisputeStatus
  pub description : String
  pub evidence : List String
  pub resolution : Option String
  pub resolved_at : Option ℕ
  pub created_at : ℕ

pub record WebhookEndpoint : Type 0 where
  pub id : String
  pub user_id : String
  pub url : String
  pub secret : String
  pub events : List WebhookEvent
  pub is_active : Bool
  pub description : Option String
  pub created_at : ℕ

pub record WebhookDelivery : Type 0 where
  pub id : String
  pub endpoint_id : String
  pub event : WebhookEvent
  pub payload : Payload
  pub status : WebhookDeliveryStatus
  pub response_code : Option ℕ
  pub response_body : Option String
  pub attempts : ℕ
  pub next_retry_at : Option ℕ
  pub delivered_at : Option ℕ
  pub created_at : ℕ

pub record AuditLog : Type 0 where
  pub user_id : Option String
  pub action : String
  pub entity : String
  pub entity_id : Option String
  pub new_values : Payload
