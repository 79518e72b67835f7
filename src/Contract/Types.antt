-- ===== src/Contract/Types.antt =====
-- types.rs, errors.rs and the events of events.rs.
use nexus_hub_contract.Prelude.{ℕ, String, Bool, nat_eq}
use nexus_hub_contract.Prelude.Int.{ℤ}
use nexus_hub_contract.Contract.Bytes.{Bytes}

abbrev pub Address : Type 0
Address = String

pub data EscrowError : Type 0 where
  unauthorized escrow_not_found invalid_status transfer_failed invalid_amount : EscrowError
  already_exists dispute_not_ready fee_too_high milestone_hash_mismatch : EscrowError
  contract_paused invalid_milestone all_milestones_complete escrow_not_expired : EscrowError
  invalid_expiry invalid_delay : EscrowError

pub data EscrowStatus : Type 0 where
  pending funded active disputed released refunded cancelled : EscrowStatus

-- The discriminants.
abbrev pub status_index : EscrowStatus → ℕ
status_index EscrowStatus.pending = 0
status_index EscrowStatus.funded = 1
status_index EscrowStatus.active = 2
status_index EscrowStatus.disputed = 3
status_index EscrowStatus.released = 4
status_index EscrowStatus.refunded = 5
status_index EscrowStatus.cancelled = 6

-- `a == b`
abbrev pub is_status : EscrowStatus → EscrowStatus → Bool
is_status a b = nat_eq (status_index a) (status_index b)

pub record EscrowRecord : Type 0 where
  pub escrow_id : Bytes
  pub client : Address
  pub freelancer : Address
  pub admin : Address
  pub token : Address
  pub amount : ℤ
  pub platform_fee : ℤ
  pub status : EscrowStatus
  pub milestone_hash : Bytes
  pub dispute_deadline_ledger : ℕ
  pub funded_ledger : ℕ
  pub milestones_total : ℕ
  pub milestones_completed : ℕ
  pub expiry_ledger : ℕ
  pub client_approved : Bool
  pub freelancer_approved : Bool
  pub description : String

pub data Event : Type 0 where
  initialized : (escrow_id : Bytes) (client freelancer : Address) (amount : ℤ) → Event
  funded : (escrow_id : Bytes) (client : Address) (amount : ℤ) (ledger : ℕ) → Event
  activated : (escrow_id : Bytes) (ledger : ℕ) → Event
  released : (escrow_id : Bytes) (freelancer : Address) (amount fee : ℤ) → Event
  refunded : (escrow_id : Bytes) (client : Address) (amount : ℤ) → Event
  disputed : (escrow_id : Bytes) (raised_by : Address) → Event
  dispute_resolved : (escrow_id : Bytes) (in_favour_of : Address) → Event
  cancelled : (escrow_id : Bytes) → Event
  milestone_completed : (escrow_id : Bytes) (completed total : ℕ) → Event
  admin_transferred : (old_admin new_admin : Address) → Event
  approval_recorded :
      (escrow_id : Bytes) (approver : Address) (client_approved freelancer_approved : Bool) → Event
