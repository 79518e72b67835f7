-- ===== src/Tests/ContractTests.antt =====
-- The contract at concrete inputs.
use nexus_hub_contract.Prelude.{
  ℕ, ◌≡◌, refl, true, false, not, none, some, [], ◌∷◌, arith, ◌==◌, ◌⊎◌, if◌then◌else◌,
  String-discrete,
}
use nexus_hub_contract.Prelude.Int.{ℤ, pos, ◌+ℤ◌, ◌-ℤ◌, ◌≤ℤ◌, times}
use nexus_hub_contract.Contract.Bytes.{Bytes-discrete, lookup}
use nexus_hub_contract.Contract.Types.{Address, EscrowError, EscrowRecord, EscrowStatus}
use nexus_hub_contract.Contract.Host.{Env, Machine, returned, failed, panicked}
use nexus_hub_contract.Contract.Memory.{ledgers, ledgers-IsLedger, ledgers-IsPaying, ledgers-Takes}
use nexus_hub_contract.Contract.Admin.{initialize, set_paused}
use nexus_hub_contract.Contract.Progress.{NewEscrow, init_escrow, fund}
use nexus_hub_contract.Contract.Settlement.{claim_expired, release, do_release}
use nexus_hub_contract.Contract.Calls.{Call, perform, Reaches, start, after, Step, called, deployed}
use nexus_hub_contract.Contract.Lifecycle.{IsOpen, Governs, Creates, Updates}
use nexus_hub_contract.Contract.Lifecycle.Refinement.{perform_refines}
use nexus_hub_contract.Contract.Solvency.{IsSolvent}
use nexus_hub_contract.Contract.Solvency.Invariant.{Reaches-IsSolvent}
use nexus_hub_contract.Contract.History.{IsKept, Reaches-IsKept}
use nexus_hub_contract.Contract.Payout.{MayRelease, IsPaid, perform_releases}
use nexus_hub_contract.Contract.Expiry.{claim_expired_lem}
use nexus_hub_contract.Contract.Fees.{fee_bounds}
use nexus_hub_contract.Contract.Pause.{perform_paused}
use nexus_hub_contract.Tests.Fixtures.{apart}

-- Everyone but the contract has signed.
abbrev signed_at : ℕ → Env
signed_at n = record {
  sequence = n;
  current_contract_address = "C";
  authorizes = λ a. not (a == "C");
}

abbrev purse_of : (token holder : Address) → ℤ
purse_of token holder = if holder == "alice" then pos 9000 else pos 0

abbrev empty : Machine ledgers
empty = deployed ledgers "C" purse_of

-- The machine after a call.
abbrev next : Env → Call → Machine ledgers → Machine ledgers
next env c s = elim (perform env c s) [ returned _ v ↦ v | failed e ↦ s | panicked ↦ s ]

abbrev offer : NewEscrow
offer = record {
  escrow_id = 7 ∷ [];
  client = "alice";
  freelancer = "bob";
  token = "T";
  amount = pos 1000;
  milestone_hash = 1 ∷ 2 ∷ [];
  description = "logo";
  dispute_delay = 0;
  milestones_total = 0;
  expiry_ledger = 50;
}

abbrev ruled : Machine ledgers
ruled = next (signed_at 10) (Call.initialize "root" 100) empty

abbrev offered : Machine ledgers
offered = next (signed_at 10) (Call.init_escrow offer) ruled

abbrev held : Machine ledgers
held = next (signed_at 11) (Call.fund (7 ∷ [])) offered

abbrev entry : EscrowStatus → ℕ → EscrowRecord
entry status ledger = record {
  escrow_id = 7 ∷ [];
  client = "alice";
  freelancer = "bob";
  admin = "root";
  token = "T";
  amount = pos 1000;
  platform_fee = pos 10;
  status = status;
  milestone_hash = 1 ∷ 2 ∷ [];
  dispute_deadline_ledger = 43_210;
  funded_ledger = ledger;
  milestones_total = 0;
  milestones_completed = 0;
  expiry_ledger = 50;
  client_approved = false;
  freelancer_approved = false;
  description = "logo";
}

purse_nonneg : (token : Address) → pos 0 ≤ℤ purse_of token "C"
unfolding String-discrete
purse_nonneg token = omega arith

offered_reached : Reaches ledgers "C" empty offered
unfolding perform initialize init_escrow String-discrete Bytes-discrete ◌+ℤ◌ ◌-ℤ◌ times
offered_reached =
    after (after start (called (signed_at 10) (Call.initialize "root" 100) refl refl refl))
      (called (signed_at 10) (Call.init_escrow offer) refl refl refl)

funding : Step ledgers "C" offered held
unfolding perform initialize init_escrow fund String-discrete Bytes-discrete ◌+ℤ◌ ◌-ℤ◌ times
funding = called (signed_at 11) (Call.fund (7 ∷ [])) refl refl refl

held_reached : Reaches ledgers "C" empty held
held_reached = after offered_reached funding

perform_refines_example :
    Governs ledgers (signed_at 11) offered held
    ⊎ Creates ledgers (signed_at 11) offered held
    ⊎ Updates ledgers (signed_at 11) offered held
unfolding perform initialize init_escrow fund String-discrete Bytes-discrete ◌+ℤ◌ ◌-ℤ◌ times
perform_refines_example =
    perform_refines ledgers (signed_at 11) offered held (Call.fund (7 ∷ [])) refl

Reaches-IsSolvent_example : IsSolvent ledgers "C" held
Reaches-IsSolvent_example =
    Reaches-IsSolvent ledgers ledgers-IsLedger "C" purse_of purse_nonneg held_reached

Reaches-IsKept_example :
    IsKept ledgers ledgers-IsLedger "C" (7 ∷ []) (entry EscrowStatus.pending 0) held
unfolding perform initialize init_escrow fund String-discrete Bytes-discrete ◌+ℤ◌ ◌-ℤ◌ times
Reaches-IsKept_example =
    Reaches-IsKept ledgers ledgers-IsLedger "C" purse_of (7 ∷ []) (entry EscrowStatus.pending 0)
      purse_nonneg offered_reached refl (after start funding)

abbrev settled : Machine ledgers
settled = next (signed_at 12) (Call.release (7 ∷ []) none) held

perform_releases_example :
    MayRelease (signed_at 12) (entry EscrowStatus.funded 11)
    × IsPaid ledgers ledgers-IsLedger
        (signed_at 12)
        (entry EscrowStatus.funded 11)
        held.tokens
        settled.tokens
unfolding perform initialize init_escrow fund release do_release String-discrete Bytes-discrete ◌+ℤ◌
    ◌-ℤ◌ times
perform_releases_example =
    perform_releases ledgers ledgers-IsLedger (signed_at 12) "C" purse_of
      (Call.release (7 ∷ []) none) (7 ∷ []) (entry EscrowStatus.funded 11)
      (entry EscrowStatus.released 11) held settled purse_nonneg held_reached refl refl refl
      (λ e. cc) refl (apart "bob" "C" refl) (apart "root" "C" refl) (apart "bob" "root" refl)

claim_expired_lem_example :
    (s' : Machine ledgers) × (claim_expired (signed_at 60) (7 ∷ []) held ≡ returned tt s')
    × (lookup (7 ∷ []) s'.escrows ≡ some (entry EscrowStatus.refunded 11))
    × (s'.tokens "T" "alice" ≡ held.tokens "T" "alice" +ℤ pos 1000)
unfolding perform initialize init_escrow fund String-discrete Bytes-discrete ◌+ℤ◌ ◌-ℤ◌ times
claim_expired_lem_example =
    claim_expired_lem ledgers ledgers-IsLedger ledgers-IsPaying (signed_at 60) purse_of (7 ∷ [])
      (entry EscrowStatus.funded 11) held purse_nonneg held_reached refl IsOpen.funded
      (λ e. omega arith) (omega arith) (apart "alice" "C" refl)
      (ledgers-Takes _ "T" "alice" (pos 1000))

fee_bounds_example : times 10 (pos 10) ≤ℤ pos 1000
unfolding perform initialize init_escrow fund String-discrete Bytes-discrete ◌+ℤ◌ ◌-ℤ◌ times
fee_bounds_example =
    fee_bounds ledgers "C" purse_of (7 ∷ []) (entry EscrowStatus.funded 11) held_reached refl

abbrev stopped : Machine ledgers
stopped = next (signed_at 11) (Call.set_paused true) held

perform_paused_example :
    perform (signed_at 12) (Call.refund (7 ∷ [])) stopped ≡ failed EscrowError.contract_paused
unfolding perform initialize init_escrow fund set_paused String-discrete Bytes-discrete ◌+ℤ◌ ◌-ℤ◌
    times
perform_paused_example =
    perform_paused ledgers (signed_at 12) (Call.refund (7 ∷ [])) stopped refl refl
