-- ===== src/Contract/Lifecycle/Progress.antt =====
-- The entry points that release no funds do what the contract promises.
use nexus_hub_contract.Prelude.{◌≡◌, refl, true, false, inl, inr, ◌⊎◌, arith, Option-cases, ◌+◌}
use nexus_hub_contract.Contract.Bytes.{Bytes, lookup}
use nexus_hub_contract.Contract.Types.{Address, EscrowStatus, EscrowRecord}
use nexus_hub_contract.Contract.Host.{Env, Tokens, Machine, returned}
use nexus_hub_contract.Contract.Progress.{
  fund, activate, cancel, raise_dispute, complete_milestone, not_open,
}
use nexus_hub_contract.Contract.Settlement.{refund, claim_expired, is_held}
use nexus_hub_contract.Contract.Lifecycle.{IsOpen, Flow, Moves, Updates}

open_of : (st : EscrowStatus) → (st ≡ EscrowStatus.funded) ⊎ (st ≡ EscrowStatus.active) → IsOpen st
open_of st (inl e) = rw e IsOpen.funded
open_of st (inr e) = rw e IsOpen.active

pub not_open-IsOpen : (r : EscrowRecord) → not_open r ≡ false → IsOpen r.status
not_open-IsOpen r h = open_of r.status (ground arith)

pub is_held-IsOpen :
    (r : EscrowRecord)
    → is_held r.status ≡ true
    → IsOpen r.status ⊎ (r.status ≡ EscrowStatus.disputed)
is_held-IsOpen r h = held r.status h
  where
    held : (st : EscrowStatus) → is_held st ≡ true → IsOpen st ⊎ (st ≡ EscrowStatus.disputed)
    held EscrowStatus.funded h = inl IsOpen.funded
    held EscrowStatus.active h = inl IsOpen.active
    held EscrowStatus.disputed h = inr refl
    held EscrowStatus.pending h = cc
    held EscrowStatus.released h = cc
    held EscrowStatus.refunded h = cc
    held EscrowStatus.cancelled h = cc

module _ (t : Tokens) (env : Env) (s s' : Machine t) where
  pub fund-Updates : (id : Bytes) → fund env id s ≡ returned tt s' → Updates t env s s'
  unfolding fund
  fund-Updates id h = elim (Option-cases (lookup id s.escrows)) [
    | inl gone ↦ absurd (ground arith)
    | inr (r, there) ↦ (
      id,
      r,
      record r { status = EscrowStatus.funded; funded_ledger = env.sequence },
      Flow.deposit,
      there,
      Moves.fund (ground arith) (ground arith),
      ground arith,
      ground arith,
      ground arith,
    )
  ]

  pub activate-Updates : (id : Bytes) → activate env id s ≡ returned tt s' → Updates t env s s'
  unfolding activate
  activate-Updates id h = elim (Option-cases (lookup id s.escrows)) [
    | inl gone ↦ absurd (ground arith)
    | inr (r, there) ↦ (
      id,
      r,
      record r { status = EscrowStatus.active },
      Flow.stay,
      there,
      Moves.activate (ground arith) (ground arith),
      ground arith,
      ground arith,
      ground arith,
    )
  ]

  pub cancel-Updates :
      (id : Bytes) (caller : Address) → cancel env id caller s ≡ returned tt s' → Updates t env s s'
  unfolding cancel
  cancel-Updates id caller h = elim (Option-cases (lookup id s.escrows)) [
    | inl gone ↦ absurd (ground arith)
    | inr (r, there) ↦ (
      id,
      r,
      record r { status = EscrowStatus.cancelled },
      Flow.stay,
      there,
      Moves.cancel (ground arith) (ground arith),
      ground arith,
      ground arith,
      ground arith,
    )
  ]

  pub raise_dispute-Updates :
      (id : Bytes) (caller : Address)
      → raise_dispute env id caller s ≡ returned tt s'
      → Updates t env s s'
  unfolding raise_dispute
  raise_dispute-Updates id caller h = elim (Option-cases (lookup id s.escrows)) [
    | inl gone ↦ absurd (ground arith)
    | inr (r, there) ↦ (
      id,
      r,
      record r {
        client_approved = false;
        freelancer_approved = false;
        status = EscrowStatus.disputed;
      },
      Flow.stay,
      there,
      Moves.dispute (not_open-IsOpen r (ground arith)) (ground arith),
      ground arith,
      ground arith,
      ground arith,
    )
  ]

  pub complete_milestone-Updates :
      (id : Bytes) → complete_milestone env id s ≡ returned tt s' → Updates t env s s'
  unfolding complete_milestone
  complete_milestone-Updates id h = elim (Option-cases (lookup id s.escrows)) [
    | inl gone ↦ absurd (ground arith)
    | inr (r, there) ↦ (
      id,
      r,
      record r { milestones_completed = r.milestones_completed + 1 },
      Flow.stay,
      there,
      Moves.complete (not_open-IsOpen r (ground arith)) (ground arith) (ground arith),
      ground arith,
      ground arith,
      ground arith,
    )
  ]

  pub refund-Updates : (id : Bytes) → refund env id s ≡ returned tt s' → Updates t env s s'
  unfolding refund
  refund-Updates id h = elim (Option-cases (lookup id s.escrows)) [
    | inl gone ↦ absurd (ground arith)
    | inr (r, there) ↦ (
      id,
      r,
      record r { status = EscrowStatus.refunded },
      Flow.give_back,
      there,
      Moves.refund (is_held-IsOpen r (ground arith)) (ground arith),
      ground arith,
      ground arith,
      ground arith,
    )
  ]

  pub claim_expired-Updates :
      (id : Bytes) → claim_expired env id s ≡ returned tt s' → Updates t env s s'
  unfolding claim_expired
  claim_expired-Updates id h = elim (Option-cases (lookup id s.escrows)) [
    | inl gone ↦ absurd (ground arith)
    | inr (r, there) ↦ (
      id,
      r,
      record r { status = EscrowStatus.refunded },
      Flow.give_back,
      there,
      Moves.expire (not_open-IsOpen r (ground arith)) (ground arith) (ground arith),
      ground arith,
      ground arith,
      ground arith,
    )
  ]
