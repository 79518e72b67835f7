-- ===== src/Contract/Progress.antt =====
-- The entry points of lib.rs that pay nothing out: init_escrow, fund, activate, cancel, raise_dispute
-- and complete_milestone.
use nexus_hub_contract.Prelude.{
  ℕ, ◌+◌, String, Bool, false, not, ◌&&◌, Option, none, some, ⊤, ltb, leb, nat_eq, ◌==◌,
  if◌then◌else◌,
}
use nexus_hub_contract.Prelude.Int.{ℤ, pos, ltb_ℤ}
use nexus_hub_contract.Contract.Bytes.{Bytes}
use nexus_hub_contract.Contract.Types.{
  Address, EscrowError, EscrowStatus, is_status, EscrowRecord, Event,
}
use nexus_hub_contract.Contract.Host.{
  Env, Tokens, Action, ◌>>=◌, ◌>>◌, fail_if, checked, require_auth, emit, transfer_token,
}
use nexus_hub_contract.Contract.Storage.{
  get_admin, get_fee_bps, is_paused, save_escrow, load_escrow, escrow_exists,
}
use nexus_hub_contract.Contract.Admin.{compute_fee}

abbrev pub min_dispute_delay : ℕ
min_dispute_delay = 43_200

abbrev pub max_extra_dispute_delay : ℕ
max_extra_dispute_delay = 2_592_000

-- A sum of numbers of 32 bits; `none` where it overflows.
abbrev pub add_u32 : ℕ → ℕ → Option ℕ
add_u32 a b = if ltb (a + b) 0x100000000 then some (a + b) else none

-- The arguments of init_escrow.
pub record NewEscrow : Type 0 where
  pub escrow_id : Bytes
  pub client : Address
  pub freelancer : Address
  pub token : Address
  pub amount : ℤ
  pub milestone_hash : Bytes
  pub description : String
  pub dispute_delay : ℕ
  pub milestones_total : ℕ
  pub expiry_ledger : ℕ

-- The record of a new escrow.
abbrev pub new_record : NewEscrow → Address → ℤ → ℕ → EscrowRecord
new_record n admin platform_fee deadline = record {
  escrow_id = n.escrow_id;
  client = n.client;
  freelancer = n.freelancer;
  admin = admin;
  token = n.token;
  amount = n.amount;
  platform_fee = platform_fee;
  status = EscrowStatus.pending;
  milestone_hash = n.milestone_hash;
  dispute_deadline_ledger = deadline;
  funded_ledger = 0;
  milestones_total = n.milestones_total;
  milestones_completed = 0;
  expiry_ledger = n.expiry_ledger;
  client_approved = false;
  freelancer_approved = false;
  description = n.description;
}

-- `status != Funded && status != Active`
abbrev pub not_open : EscrowRecord → Bool
not_open r =
    not (is_status r.status EscrowStatus.funded) && not (is_status r.status EscrowStatus.active)

module _ {t : Tokens} (env : Env) where
  abbrev pub fail_if_paused : Action t ⊤
  fail_if_paused = do paused ← is_paused; fail_if paused EscrowError.contract_paused

  unfoldable pub init_escrow : NewEscrow → Action t ⊤
  init_escrow n = do
    fail_if_paused
    fail_if (not (ltb_ℤ (pos 0) n.amount)) EscrowError.invalid_amount
    fail_if (ltb max_extra_dispute_delay n.dispute_delay) EscrowError.invalid_delay
    fail_if (ltb 0 n.expiry_ledger && leb n.expiry_ledger env.sequence) EscrowError.invalid_expiry
    exists ← escrow_exists n.escrow_id
    fail_if exists EscrowError.already_exists
    require_auth env n.client
    fee_bps ← get_fee_bps
    platform_fee ← checked (compute_fee n.amount fee_bps)
    fail_if (not (ltb_ℤ platform_fee n.amount)) EscrowError.fee_too_high
    admin ← get_admin
    earliest ← checked (add_u32 env.sequence min_dispute_delay)
    deadline ← checked (add_u32 earliest n.dispute_delay)
    save_escrow (new_record n admin platform_fee deadline)
    emit (Event.initialized n.escrow_id n.client n.freelancer n.amount)

  unfoldable pub fund : Bytes → Action t ⊤
  fund escrow_id = do
    fail_if_paused
    r ← load_escrow escrow_id
    fail_if (not (is_status r.status EscrowStatus.pending)) EscrowError.invalid_status
    require_auth env r.client
    transfer_token env r.token r.client env.current_contract_address r.amount
    save_escrow (record r { status = EscrowStatus.funded; funded_ledger = env.sequence })
    emit (Event.funded escrow_id r.client r.amount env.sequence)

  unfoldable pub activate : Bytes → Action t ⊤
  activate escrow_id = do
    fail_if_paused
    r ← load_escrow escrow_id
    fail_if (not (is_status r.status EscrowStatus.funded)) EscrowError.invalid_status
    require_auth env r.client
    save_escrow (record r { status = EscrowStatus.active })
    emit (Event.activated escrow_id env.sequence)

  unfoldable pub cancel : Bytes → Address → Action t ⊤
  cancel escrow_id caller = do
    r ← load_escrow escrow_id
    fail_if (not (is_status r.status EscrowStatus.pending)) EscrowError.invalid_status
    require_auth env caller
    fail_if (not (caller == r.client) && not (caller == r.admin)) EscrowError.unauthorized
    save_escrow (record r { status = EscrowStatus.cancelled })
    emit (Event.cancelled escrow_id)

  unfoldable pub raise_dispute : Bytes → Address → Action t ⊤
  raise_dispute escrow_id caller = do
    fail_if_paused
    r ← load_escrow escrow_id
    fail_if (not_open r) EscrowError.invalid_status
    require_auth env caller
    let is_client = caller == r.client
    let is_freelancer = caller == r.freelancer
    fail_if (not is_client && not is_freelancer) EscrowError.unauthorized
    fail_if (is_freelancer && ltb env.sequence r.dispute_deadline_ledger)
        EscrowError.dispute_not_ready
    save_escrow (record r {
      client_approved = false;
      freelancer_approved = false;
      status = EscrowStatus.disputed;
    })
    emit (Event.disputed escrow_id caller)

  -- The count stays below the total, a number of 32 bits, so that the addition does not overflow.
  unfoldable pub complete_milestone : Bytes → Action t ⊤
  complete_milestone escrow_id = do
    fail_if_paused
    r ← load_escrow escrow_id
    fail_if (not_open r) EscrowError.invalid_status
    require_auth env r.freelancer
    fail_if (nat_eq r.milestones_total 0) EscrowError.invalid_milestone
    fail_if (leb r.milestones_total r.milestones_completed) EscrowError.all_milestones_complete
    let completed = r.milestones_completed + 1
    save_escrow (record r { milestones_completed = completed })
    emit (Event.milestone_completed escrow_id completed r.milestones_total)
