-- ===== src/Contract/Lifecycle.antt =====
-- What the contract promises of an escrow: who may move it on, from which state to which, and what is
-- paid then.
pub mod Progress
pub mod Payment
pub mod Refinement
pub mod Terms
use nexus_hub_contract.Prelude.{
  ℕ, ◌+◌, ◌<◌, ◌≤◌, ◌≡◌, ◌≢◌, Bool, true, false, ◌⊎◌, Option, none, some, ltb, or_default,
  if◌then◌else◌,
}
use nexus_hub_contract.Prelude.Int.{ℤ, pos, ◌-ℤ◌, ◌≤ℤ◌, ltb_ℤ}
use nexus_hub_contract.Contract.Bytes.{Bytes, lookup, insert}
use nexus_hub_contract.Contract.Types.{Address, EscrowStatus, EscrowRecord}
use nexus_hub_contract.Contract.Admin.{compute_fee, max_fee_bps}
use nexus_hub_contract.Contract.Host.{Env, Tokens, Machine}
use nexus_hub_contract.Contract.Progress.{min_dispute_delay, max_extra_dispute_delay}

-- Funds are held, and no dispute is open.
pub data IsOpen : EscrowStatus → Type 0 where
  funded : IsOpen EscrowStatus.funded
  active : IsOpen EscrowStatus.active

-- What a move does with the tokens.
pub data Flow : Type 0 where
  stay deposit pay give_back : Flow

-- The moves of an escrow, with the authority that each needs.
pub data Moves (env : Env) (r : EscrowRecord) : EscrowRecord → Flow → Type 0 where
  fund :
      r.status ≡ EscrowStatus.pending
      → env.authorizes r.client ≡ true
      → Moves env r
          (record r { status = EscrowStatus.funded; funded_ledger = env.sequence })
          Flow.deposit
  activate :
      r.status ≡ EscrowStatus.funded
      → env.authorizes r.client ≡ true
      → Moves env r (record r { status = EscrowStatus.active }) Flow.stay
  cancel :
      r.status ≡ EscrowStatus.pending
      → (env.authorizes r.client ≡ true) ⊎ (env.authorizes r.admin ≡ true)
      → Moves env r (record r { status = EscrowStatus.cancelled }) Flow.stay
  dispute :
      IsOpen r.status
      → (env.authorizes r.client ≡ true)
        ⊎ ((env.authorizes r.freelancer ≡ true) × (r.dispute_deadline_ledger ≤ env.sequence))
      → Moves env r
          (record r {
            client_approved = false;
            freelancer_approved = false;
            status = EscrowStatus.disputed;
          })
          Flow.stay
  complete :
      IsOpen r.status
      → env.authorizes r.freelancer ≡ true
      → r.milestones_completed < r.milestones_total
      → Moves env r (record r { milestones_completed = r.milestones_completed + 1 }) Flow.stay
  release :
      IsOpen r.status
      → env.authorizes r.client ≡ true
      → Moves env r (record r { status = EscrowStatus.released }) Flow.pay
  refund :
      IsOpen r.status ⊎ (r.status ≡ EscrowStatus.disputed)
      → env.authorizes r.admin ≡ true
      → Moves env r (record r { status = EscrowStatus.refunded }) Flow.give_back
  award :
      r.status ≡ EscrowStatus.disputed
      → env.authorizes r.admin ≡ true
      → Moves env r (record r { status = EscrowStatus.released }) Flow.pay
  expire :
      IsOpen r.status
      → r.expiry_ledger ≢ 0
      → r.expiry_ledger ≤ env.sequence
      → Moves env r (record r { status = EscrowStatus.refunded }) Flow.give_back
  client_approves :
      IsOpen r.status
      → env.authorizes r.client ≡ true
      → r.freelancer_approved ≡ false
      → Moves env r (record r { client_approved = true }) Flow.stay
  freelancer_approves :
      IsOpen r.status
      → env.authorizes r.freelancer ≡ true
      → r.client_approved ≡ false
      → Moves env r (record r { freelancer_approved = true }) Flow.stay
  client_agrees :
      IsOpen r.status
      → env.authorizes r.client ≡ true
      → r.freelancer_approved ≡ true
      → Moves env r (record r { client_approved = true; status = EscrowStatus.released }) Flow.pay
  freelancer_agrees :
      IsOpen r.status
      → env.authorizes r.freelancer ≡ true
      → r.client_approved ≡ true
      → Moves env r
          (record r { freelancer_approved = true; status = EscrowStatus.released })
          Flow.pay

-- A new escrow, made under its client's authority, with the fee at the rate of that time: it has
-- not expired, and the freelancer can dispute it after three days or more, and 183 days or less, of
-- ledgers.
pub record IsNew (env : Env) (fee_bps : ℕ) (r : EscrowRecord) : Type 0 where
  pub waits : r.status ≡ EscrowStatus.pending
  pub signed : env.authorizes r.client ≡ true
  pub positive : ltb_ℤ (pos 0) r.amount ≡ true
  pub fee_nonneg : pos 0 ≤ℤ r.platform_fee
  pub charged : compute_fee r.amount fee_bps ≡ some r.platform_fee
  pub fee_less : ltb_ℤ r.platform_fee r.amount ≡ true
  pub earliest : env.sequence + min_dispute_delay ≤ r.dispute_deadline_ledger
  pub latest :
      r.dispute_deadline_ledger ≤ env.sequence + (min_dispute_delay + max_extra_dispute_delay)
  pub unexpired : (r.expiry_ledger ≡ 0) ⊎ (env.sequence < r.expiry_ledger)
  pub untouched :
      (r.client_approved ≡ false) × (r.freelancer_approved ≡ false) × (r.milestones_completed ≡ 0)

-- The administrator, the fee and the pause.
abbrev pub SameSettings : {t : Tokens} → Machine t → Machine t → Type 0
SameSettings s s' = (s'.admin ≡ s.admin) × (s'.fee_bps ≡ s.fee_bps) × (s'.paused ≡ s.paused)

module _ (t : Tokens) (env : Env) where
  -- The transfers of a flow: a release pays the freelancer what is left after the fee, and the
  -- escrow's own administrator the fee.
  abbrev pub Flows : EscrowRecord → Flow → t.Ledger → t.Ledger → Type 0
  Flows r Flow.stay l l' = l' ≡ l
  Flows r Flow.deposit l l' =
      t.transfer env r.token r.client env.current_contract_address r.amount l ≡ some l'
  Flows r Flow.pay l l' =
      (m : t.Ledger) × (t.transfer env r.token env.current_contract_address r.freelancer
          (r.amount -ℤ r.platform_fee) l
        ≡ some m)
      × ((if ltb_ℤ (pos 0) r.platform_fee
            then t.transfer env r.token env.current_contract_address r.admin r.platform_fee m
            else some m)
          ≡ some l')
  Flows r Flow.give_back l l' =
      t.transfer env r.token env.current_contract_address r.client r.amount l ≡ some l'

  -- One escrow moves on, and nothing else changes but the tokens.
  abbrev pub Updates : Machine t → Machine t → Type 0
  Updates s s' =
      (id : Bytes) × (r : EscrowRecord) × (r' : EscrowRecord) × (flow : Flow) × (lookup id s.escrows
        ≡ some r)
      × Moves env r r' flow
      × (s'.escrows ≡ insert r.escrow_id r' s.escrows)
      × Flows r flow s.tokens s'.tokens
      × SameSettings s s'

  -- One escrow is new, of the administrator of that time.
  abbrev pub Creates : Machine t → Machine t → Type 0
  Creates s s' =
      (r : EscrowRecord) × IsNew env (or_default s.fee_bps 100) r
      × (s.admin ≡ some r.admin)
      × (lookup r.escrow_id s.escrows ≡ none)
      × (s'.escrows ≡ insert r.escrow_id r s.escrows)
      × (s'.tokens ≡ s.tokens)
      × SameSettings s s'

  -- The administrator, or the first one, changes a setting: the fee stays within its cap.
  abbrev pub Governs : Machine t → Machine t → Type 0
  Governs s s' =
      (s'.escrows ≡ s.escrows)
      × (s'.tokens ≡ s.tokens)
      × (admin : Address) × (env.authorizes admin ≡ true)
      × ((s.admin ≡ some admin) ⊎ ((s.admin ≡ none) × (s'.admin ≡ some admin)))
      × ((s'.fee_bps ≡ s.fee_bps) ⊎ ((bps : ℕ) × (s'.fee_bps ≡ some bps) × (bps ≤ max_fee_bps)))
