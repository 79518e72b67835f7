-- ===== src/Contract/Settlement.antt =====
-- The entry points of lib.rs that pay out: release, refund, resolve_dispute, claim_expired and
-- approve_release. A fee lies between 0 and its amount, so that no subtraction overflows.
use nexus_hub_contract.Prelude.{
  Bool, true, false, not, ◌&&◌, ◌||◌, Option, none, some, ⊤, ltb, nat_eq, ◌==◌, if◌then◌else◌,
}
use nexus_hub_contract.Prelude.Int.{pos, ◌-ℤ◌, ltb_ℤ}
use nexus_hub_contract.Contract.Bytes.{Bytes, same_bytes}
use nexus_hub_contract.Contract.Types.{
  Address, EscrowError, EscrowStatus, is_status, EscrowRecord, Event,
}
use nexus_hub_contract.Contract.Host.{
  Env, Tokens, Action, ◌>>=◌, ◌>>◌, fail_if, when, require_auth, emit, transfer_token,
}
use nexus_hub_contract.Contract.Storage.{save_escrow, load_escrow}
use nexus_hub_contract.Contract.Progress.{not_open, fail_if_paused}

-- `matches!(status, Funded | Active | Disputed)`
abbrev pub is_held : EscrowStatus → Bool
is_held EscrowStatus.funded = true
is_held EscrowStatus.active = true
is_held EscrowStatus.disputed = true
is_held _ = false

-- Does `expected_hash` differ from the one that was committed?
abbrev pub mismatches : Option Bytes → Bytes → Bool
mismatches none milestone_hash = false
mismatches (some hash) milestone_hash = not (same_bytes hash milestone_hash)

-- The record with the approver's flag, if the approver is a party.
abbrev pub approved_by : Address → EscrowRecord → Option EscrowRecord
approved_by approver r =
    if approver == r.client
    then some (record r { client_approved = true })
    else if approver == r.freelancer
    then some (record r { freelancer_approved = true })
    else none

module _ {t : Tokens} (env : Env) where
  unfoldable pub do_release : EscrowRecord → Action t ⊤
  do_release r = do
    transfer_token env r.token env.current_contract_address r.freelancer
        (r.amount -ℤ r.platform_fee)
    when (ltb_ℤ (pos 0) r.platform_fee)
        (transfer_token env r.token env.current_contract_address r.admin r.platform_fee)

  abbrev pub give_back : EscrowRecord → Action t ⊤
  give_back r = transfer_token env r.token env.current_contract_address r.client r.amount

  unfoldable pub release : Bytes → Option Bytes → Action t ⊤
  release escrow_id expected_hash = do
    fail_if_paused env
    r ← load_escrow escrow_id
    fail_if (not_open r) EscrowError.invalid_status
    require_auth env r.client
    fail_if (mismatches expected_hash r.milestone_hash) EscrowError.milestone_hash_mismatch
    do_release r
    save_escrow (record r { status = EscrowStatus.released })
    emit (Event.released escrow_id r.freelancer (r.amount -ℤ r.platform_fee) r.platform_fee)

  unfoldable pub refund : Bytes → Action t ⊤
  refund escrow_id = do
    fail_if_paused env
    r ← load_escrow escrow_id
    fail_if (not (is_held r.status)) EscrowError.invalid_status
    require_auth env r.admin
    give_back r
    save_escrow (record r { status = EscrowStatus.refunded })
    emit (Event.refunded escrow_id r.client r.amount)

  abbrev pub resolve : Bytes → EscrowRecord → (release_to_freelancer : Bool) → Action t ⊤
  resolve escrow_id r true = do
    do_release r
    save_escrow (record r { status = EscrowStatus.released })
    emit (Event.dispute_resolved escrow_id r.freelancer)
  resolve escrow_id r false = do
    give_back r
    save_escrow (record r { status = EscrowStatus.refunded })
    emit (Event.dispute_resolved escrow_id r.client)

  unfoldable pub resolve_dispute : Bytes → Bool → Action t ⊤
  resolve_dispute escrow_id release_to_freelancer = do
    fail_if_paused env
    r ← load_escrow escrow_id
    fail_if (not (is_status r.status EscrowStatus.disputed)) EscrowError.invalid_status
    require_auth env r.admin
    resolve escrow_id r release_to_freelancer

  unfoldable pub claim_expired : Bytes → Action t ⊤
  claim_expired escrow_id = do
    r ← load_escrow escrow_id
    fail_if (not_open r) EscrowError.invalid_status
    fail_if (nat_eq r.expiry_ledger 0 || ltb env.sequence r.expiry_ledger)
        EscrowError.escrow_not_expired
    give_back r
    save_escrow (record r { status = EscrowStatus.refunded })
    emit (Event.refunded escrow_id r.client r.amount)

  abbrev pub approve : Bytes → Address → Option EscrowRecord → Action t ⊤
  approve escrow_id approver none = fail_if true EscrowError.unauthorized
  approve escrow_id approver (some r) = do
    save_escrow r
    emit (Event.approval_recorded escrow_id approver r.client_approved r.freelancer_approved)
    when (r.client_approved && r.freelancer_approved) do
      do_release r
      save_escrow (record r { status = EscrowStatus.released })
      emit (Event.released escrow_id r.freelancer (r.amount -ℤ r.platform_fee) r.platform_fee)

  unfoldable pub approve_release : Bytes → Address → Action t ⊤
  approve_release escrow_id approver = do
    fail_if_paused env
    r ← load_escrow escrow_id
    fail_if (not_open r) EscrowError.invalid_status
    require_auth env approver
    approve escrow_id approver (approved_by approver r)
