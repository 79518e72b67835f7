-- ===== src/Contract/Pause.antt =====
-- What a pause stops.
use nexus_hub_contract.Prelude.{◌≡◌, Bool, true, false, some, arith}
use nexus_hub_contract.Contract.Types.{EscrowError}
use nexus_hub_contract.Contract.Host.{Env, Tokens, Machine, failed}
use nexus_hub_contract.Contract.Progress.{
  init_escrow, fund, activate, raise_dispute, complete_milestone,
}
use nexus_hub_contract.Contract.Settlement.{release, refund, resolve_dispute, approve_release}
use nexus_hub_contract.Contract.Calls.{Call, perform}

-- All calls on an escrow but cancel and claim_expired.
abbrev pub is_pausable : Call → Bool
is_pausable (Call.initialize _ _) = false
is_pausable (Call.set_fee _) = false
is_pausable (Call.set_paused _) = false
is_pausable (Call.transfer_admin _) = false
is_pausable (Call.cancel _ _) = false
is_pausable (Call.claim_expired _) = false
is_pausable _ = true

module _ (t : Tokens) where
  -- While the contract is paused every call on an escrow fails as ContractPaused, whatever its
  -- arguments, except cancel and claim_expired.
  pub perform_paused :
      (env : Env) (c : Call) (s : Machine t)
      → s.paused ≡ some true
      → is_pausable c ≡ true
      → perform env c s ≡ failed EscrowError.contract_paused
  unfolding perform init_escrow fund activate raise_dispute complete_milestone release refund
      resolve_dispute approve_release
  perform_paused env c s paused pausable = ground arith
