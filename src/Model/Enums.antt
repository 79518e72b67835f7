-- ===== src/Model/Enums.antt =====
-- The enums of packages/shared/src/enums/index.ts, and WebhookDeliveryStatus of
-- packages/database/prisma/schema.prisma. `open` is a reserved word here: DisputeStatus.OPEN is
-- `opened`. Two values of an enum are compared by the numbers of their constructors.
use nexus_hub_contract.Prelude.{ℕ, String, Bool, false, ◌||◌, List, [], ◌∷◌, nat_eq}

pub data UserRole : Type 0 where
  admin client freelancer marketplace : UserRole

pub data UserStatus : Type 0 where
  active suspended pending_verification : UserStatus

pub data TransactionType : Type 0 where
  topup payment withdrawal escrow_lock escrow_release escrow_refund fee adjustment : TransactionType

pub data TransactionStatus : Type 0 where
  pending processing completed failed cancelled : TransactionStatus

pub data EscrowStatus : Type 0 where
  pending funded active disputed released refunded cancelled : EscrowStatus

pub data DisputeStatus : Type 0 where
  opened under_review resolved_client resolved_freelancer closed : DisputeStatus

pub data DisputeReason : Type 0 where
  work_not_delivered quality_not_as_agreed payment_issue fraud other : DisputeReason

pub data WebhookEvent : Type 0 where
  topup_completed topup_failed payment_completed escrow_funded escrow_released escrow_refunded
        escrow_expired milestone_completed withdrawal_completed withdrawal_failed dispute_opened
        dispute_resolved :
      WebhookEvent

pub data WebhookDeliveryStatus : Type 0 where
  pending delivered failed retrying : WebhookDeliveryStatus

abbrev pub user_role_text : UserRole → String
user_role_text UserRole.admin = "ADMIN"
user_role_text UserRole.client = "CLIENT"
user_role_text UserRole.freelancer = "FREELANCER"
user_role_text UserRole.marketplace = "MARKETPLACE"

abbrev pub user_role_index : UserRole → ℕ
user_role_index UserRole.admin = 0
user_role_index UserRole.client = 1
user_role_index UserRole.freelancer = 2
user_role_index UserRole.marketplace = 3

abbrev pub user_status_index : UserStatus → ℕ
user_status_index UserStatus.active = 0
user_status_index UserStatus.suspended = 1
user_status_index UserStatus.pending_verification = 2

abbrev pub transaction_type_index : TransactionType → ℕ
transaction_type_index TransactionType.topup = 0
transaction_type_index TransactionType.payment = 1
transaction_type_index TransactionType.withdrawal = 2
transaction_type_index TransactionType.escrow_lock = 3
transaction_type_index TransactionType.escrow_release = 4
transaction_type_index TransactionType.escrow_refund = 5
transaction_type_index TransactionType.fee = 6
transaction_type_index TransactionType.adjustment = 7

abbrev pub transaction_status_index : TransactionStatus → ℕ
transaction_status_index TransactionStatus.pending = 0
transaction_status_index TransactionStatus.processing = 1
transaction_status_index TransactionStatus.completed = 2
transaction_status_index TransactionStatus.failed = 3
transaction_status_index TransactionStatus.cancelled = 4

abbrev pub escrow_status_text : EscrowStatus → String
escrow_status_text EscrowStatus.pending = "PENDING"
escrow_status_text EscrowStatus.funded = "FUNDED"
escrow_status_text EscrowStatus.active = "ACTIVE"
escrow_status_text EscrowStatus.disputed = "DISPUTED"
escrow_status_text EscrowStatus.released = "RELEASED"
escrow_status_text EscrowStatus.refunded = "REFUNDED"
escrow_status_text EscrowStatus.cancelled = "CANCELLED"

abbrev pub escrow_status_index : EscrowStatus → ℕ
escrow_status_index EscrowStatus.pending = 0
escrow_status_index EscrowStatus.funded = 1
escrow_status_index EscrowStatus.active = 2
escrow_status_index EscrowStatus.disputed = 3
escrow_status_index EscrowStatus.released = 4
escrow_status_index EscrowStatus.refunded = 5
escrow_status_index EscrowStatus.cancelled = 6

abbrev pub dispute_status_text : DisputeStatus → String
dispute_status_text DisputeStatus.opened = "OPEN"
dispute_status_text DisputeStatus.under_review = "UNDER_REVIEW"
dispute_status_text DisputeStatus.resolved_client = "RESOLVED_CLIENT"
dispute_status_text DisputeStatus.resolved_freelancer = "RESOLVED_FREELANCER"
dispute_status_text DisputeStatus.closed = "CLOSED"

abbrev pub dispute_status_index : DisputeStatus → ℕ
dispute_status_index DisputeStatus.opened = 0
dispute_status_index DisputeStatus.under_review = 1
dispute_status_index DisputeStatus.resolved_client = 2
dispute_status_index DisputeStatus.resolved_freelancer = 3
dispute_status_index DisputeStatus.closed = 4

abbrev pub webhook_event_text : WebhookEvent → String
webhook_event_text WebhookEvent.topup_completed = "TOPUP_COMPLETED"
webhook_event_text WebhookEvent.topup_failed = "TOPUP_FAILED"
webhook_event_text WebhookEvent.payment_completed = "PAYMENT_COMPLETED"
webhook_event_text WebhookEvent.escrow_funded = "ESCROW_FUNDED"
webhook_event_text WebhookEvent.escrow_released = "ESCROW_RELEASED"
webhook_event_text WebhookEvent.escrow_refunded = "ESCROW_REFUNDED"
webhook_event_text WebhookEvent.escrow_expired = "ESCROW_EXPIRED"
webhook_event_text WebhookEvent.milestone_completed = "MILESTONE_COMPLETED"
webhook_event_text WebhookEvent.withdrawal_completed = "WITHDRAWAL_COMPLETED"
webhook_event_text WebhookEvent.withdrawal_failed = "WITHDRAWAL_FAILED"
webhook_event_text WebhookEvent.dispute_opened = "DISPUTE_OPENED"
webhook_event_text WebhookEvent.dispute_resolved = "DISPUTE_RESOLVED"

abbrev pub webhook_event_index : WebhookEvent → ℕ
webhook_event_index WebhookEvent.topup_completed = 0
webhook_event_index WebhookEvent.topup_failed = 1
webhook_event_index WebhookEvent.payment_completed = 2
webhook_event_index WebhookEvent.escrow_funded = 3
webhook_event_index WebhookEvent.escrow_released = 4
webhook_event_index WebhookEvent.escrow_refunded = 5
webhook_event_index WebhookEvent.escrow_expired = 6
webhook_event_index WebhookEvent.milestone_completed = 7
webhook_event_index WebhookEvent.withdrawal_completed = 8
webhook_event_index WebhookEvent.withdrawal_failed = 9
webhook_event_index WebhookEvent.dispute_opened = 10
webhook_event_index WebhookEvent.dispute_resolved = 11

abbrev pub webhook_delivery_status_index : WebhookDeliveryStatus → ℕ
webhook_delivery_status_index WebhookDeliveryStatus.pending = 0
webhook_delivery_status_index WebhookDeliveryStatus.delivered = 1
webhook_delivery_status_index WebhookDeliveryStatus.failed = 2
webhook_delivery_status_index WebhookDeliveryStatus.retrying = 3

-- `[…].includes(status)`
abbrev pub includes : List EscrowStatus → EscrowStatus → Bool
includes [] s = false
includes (t ∷ ts) s = nat_eq (escrow_status_index t) (escrow_status_index s) || includes ts s

-- `events: { has: event }`
abbrev pub has : List WebhookEvent → WebhookEvent → Bool
has [] e = false
has (f ∷ fs) e = nat_eq (webhook_event_index f) (webhook_event_index e) || has fs e

-- `requiredRoles.includes(user.role)`
abbrev pub includes_role : List UserRole → UserRole → Bool
includes_role [] r = false
includes_role (q ∷ qs) r = nat_eq (user_role_index q) (user_role_index r) || includes_role qs r
