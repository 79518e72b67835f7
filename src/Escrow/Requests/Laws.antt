-- ===== src/Escrow/Requests/Laws.antt =====
-- When each request is accepted, and what it leaves: one job more, or the world as it was.
use nexus_hub_contract.Prelude.{
  ◌<◌, String, ◌≡◌, ◌≢◌, refl, ◌⊎◌, inl, inr, Option-cases, Option, some, none, ◌∷◌, arith,
}
use nexus_hub_contract.Model.Enums.{EscrowStatus}
use nexus_hub_contract.Model.Rows.{Escrow}
use nexus_hub_contract.Model.Jobs.{EscrowJob, Party}
use nexus_hub_contract.Prisma.Client.{Client}
use nexus_hub_contract.Prisma.World.{World, escrow_of}
use nexus_hub_contract.Prisma.Action.{Exception, Result, ok, throws}
use nexus_hub_contract.Escrow.Create.{escrow_job_options}
use nexus_hub_contract.Escrow.Requests.{
  release_escrow, refund_escrow, approve_release, complete_milestone, claim_expired,
}

abbrev pub IsOpen : EscrowStatus → Type 0
IsOpen s = (s ≡ EscrowStatus.funded) ⊎ (s ≡ EscrowStatus.active)

abbrev pub party_of : Party → Escrow → String
party_of Party.client e = e.client_id
party_of Party.freelancer e = e.freelancer_id

module _ {c : Client} (w : World c) where
  -- Accepted exactly if the stored escrow satisfies `P`: then the job is added and nothing else
  -- changes; otherwise nothing does.
  abbrev pub Decides : (Escrow → Type 0) → String → EscrowJob → Result String × World c → Type 0
  Decides P id job (ok _, v) =
      ((e : Escrow) × (escrow_of w id ≡ some e) × P e)
      × (v ≡ record w { escrow_queue = (job, escrow_job_options) ∷ w.escrow_queue })
  Decides P id job (throws _, v) = ((e : Escrow) → escrow_of w id ≡ some e → ¬ P e) × (v ≡ w)

Decides-intro :
    {c : Client} (w : World c) (P : Escrow → Type 0) (id : String) (job : EscrowJob)
    (res : Result String × World c)
    → ((m : String) → escrow_of w id ≡ none → res.0 ≢ ok m)
    → ((e : Escrow) (m : String)
        → escrow_of w id ≡ some e
        → res.0 ≡ ok m
        → P e × (res.1 ≡ record w { escrow_queue = (job, escrow_job_options) ∷ w.escrow_queue }))
    → ((e : Escrow) (x : Exception) → escrow_of w id ≡ some e → res.0 ≡ throws x → ¬ P e)
    → ((x : Exception) → res.0 ≡ throws x → res.1 ≡ w)
    → Decides w P id job res
Decides-intro w P id job (ok m, v) missing found refused same =
    elim (Option-cases (escrow_of w id)) [
      | inl gone ↦ absurd (missing m gone refl)
      | inr (e, stored) ↦ let (holds, added) = found e m stored refl in ((e, stored, holds), added)
    ]
Decides-intro w P id job (throws x, v) missing found refused same =
    (λ e stored. refused e x stored refl, same x refl)

module _ (c : Client) (id user : String) (w : World c) where
  -- A release is accepted exactly from the client of an escrow that is FUNDED or ACTIVE: then one
  -- job is queued and nothing else changes; otherwise nothing does.
  pub release_escrow_Decides :
      (feedback : Option String)
      → Decides w
          (λ e. (e.client_id ≡ user) × IsOpen e.status)
          id
          (EscrowJob.release_escrow id user feedback)
          (release_escrow c user id feedback w)
  unfolding release_escrow
  release_escrow_Decides feedback =
      Decides-intro w _ id _ (release_escrow c user id feedback w) (λ m gone. ground arith)
        (λ e m stored done. ground arith) (λ e x stored refused holds. ground arith)
        (λ x refused. ground arith)

  -- A refund is accepted exactly while the escrow is FUNDED, ACTIVE or DISPUTED: then one job is
  -- queued and nothing else changes; otherwise nothing does.
  pub refund_escrow_Decides :
      (reason : String)
      → Decides w
          (λ e. IsOpen e.status ⊎ (e.status ≡ EscrowStatus.disputed))
          id
          (EscrowJob.refund_escrow id user reason)
          (refund_escrow c user id reason w)
  unfolding refund_escrow
  refund_escrow_Decides reason =
      Decides-intro w _ id _ (refund_escrow c user id reason w) (λ m gone. ground arith)
        (λ e m stored done. ground arith) (λ e x stored refused holds. ground arith)
        (λ x refused. ground arith)

  -- An approval is accepted exactly from a party in its own role, while the escrow is FUNDED or
  -- ACTIVE: then one job is queued and nothing else changes; otherwise nothing does.
  pub approve_release_Decides :
      (role : Party)
      → Decides w
          (λ e. (party_of role e ≡ user) × IsOpen e.status)
          id
          (EscrowJob.approve_release id user role)
          (approve_release c user id role w)
  unfolding approve_release
  approve_release_Decides Party.client =
      Decides-intro w _ id _ (approve_release c user id Party.client w) (λ m gone. ground arith)
        (λ e m stored done. ground arith) (λ e x stored refused holds. ground arith)
        (λ x refused. ground arith)
  approve_release_Decides Party.freelancer =
      Decides-intro w _ id _ (approve_release c user id Party.freelancer w) (λ m gone. ground arith)
        (λ e m stored done. ground arith) (λ e x stored refused holds. ground arith)
        (λ x refused. ground arith)

  -- A milestone is accepted exactly from the freelancer of an open escrow with a milestone left:
  -- then one job is queued and nothing else changes; otherwise nothing does.
  pub complete_milestone_Decides :
      Decides w
        (λ e.
          (e.freelancer_id ≡ user)
          × IsOpen e.status
          × (e.milestones_completed < e.milestones_total))
        id
        (EscrowJob.complete_milestone id user)
        (complete_milestone c user id w)
  unfolding complete_milestone
  complete_milestone_Decides =
      Decides-intro w _ id _ (complete_milestone c user id w) (λ m gone. ground arith)
        (λ e m stored done. ground arith) (λ e x stored refused holds. ground arith)
        (λ x refused. ground arith)

  -- An expiry claim is accepted, from anyone, exactly for an open escrow with an expiry ledger:
  -- then one job is queued and nothing else changes; otherwise nothing does.
  pub claim_expired_Decides :
      Decides w
        (λ e. IsOpen e.status × (e.expiry_ledger ≢ 0))
        id
        (EscrowJob.claim_expired id (some user))
        (claim_expired c user id w)
  unfolding claim_expired
  claim_expired_Decides =
      Decides-intro w _ id _ (claim_expired c user id w) (λ m gone. ground arith)
        (λ e m stored done. ground arith) (λ e x stored refused holds. ground arith)
        (λ x refused. ground arith)
