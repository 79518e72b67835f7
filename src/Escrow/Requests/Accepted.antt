-- ===== src/Escrow/Requests/Accepted.antt =====
-- The five requests at once, against a table of what each requires.
use nexus_hub_contract.Prelude.{
  String, ◌≡◌, Bool, true, false, not, ◌&&◌, Option, none, some, ◌∷◌, nat_eq, ltb, ◌==◌, arith,
  if◌then◌else◌,
}
use nexus_hub_contract.Model.Enums.{EscrowStatus}
use nexus_hub_contract.Model.Rows.{Escrow}
use nexus_hub_contract.Model.Jobs.{EscrowJob, Party}
use nexus_hub_contract.Prisma.Client.{Client}
use nexus_hub_contract.Prisma.World.{World, escrow_of}
use nexus_hub_contract.Prisma.Action.{Action, Result, ok, throws}
use nexus_hub_contract.Escrow.Create.{escrow_job_options}
use nexus_hub_contract.Escrow.Requests.{
  release_escrow, refund_escrow, approve_release, complete_milestone, claim_expired,
}

pub data Request : Type 0 where
  release : (feedback : Option String) → Request
  refund : (reason : String) → Request
  approval : (role : Party) → Request
  milestone claim : Request

abbrev pub is_open : EscrowStatus → Bool
is_open EscrowStatus.funded = true
is_open EscrowStatus.active = true
is_open _ = false

abbrev pub is_refundable : EscrowStatus → Bool
is_refundable EscrowStatus.disputed = true
is_refundable s = is_open s

-- Whether a request of a user is to be accepted, given the stored escrow.
abbrev pub accepts : Request → String → Option Escrow → Bool
accepts q user none = false
accepts (Request.release _) user (some e) = e.client_id == user && is_open e.status
accepts (Request.refund _) user (some e) = is_refundable e.status
accepts (Request.approval Party.client) user (some e) = e.client_id == user && is_open e.status
accepts (Request.approval Party.freelancer) user (some e) =
    e.freelancer_id == user && is_open e.status
accepts Request.milestone user (some e) =
    e.freelancer_id == user && is_open e.status && ltb e.milestones_completed e.milestones_total
accepts Request.claim user (some e) = is_open e.status && not (nat_eq e.expiry_ledger 0)

abbrev pub job_of : Request → String → String → EscrowJob
job_of (Request.release feedback) user id = EscrowJob.release_escrow id user feedback
job_of (Request.refund reason) user id = EscrowJob.refund_escrow id user reason
job_of (Request.approval role) user id = EscrowJob.approve_release id user role
job_of Request.milestone user id = EscrowJob.complete_milestone id user
job_of Request.claim user id = EscrowJob.claim_expired id (some user)

abbrev pub is_ok : {A : Type 0} → Result A → Bool
is_ok (ok _) = true
is_ok (throws _) = false

module _ (c : Client) where
  unfoldable pub submit : Request → String → String → Action c String
  unfolding release_escrow refund_escrow approve_release complete_milestone claim_expired
  submit (Request.release feedback) user id = release_escrow c user id feedback
  submit (Request.refund reason) user id = refund_escrow c user id reason
  submit (Request.approval role) user id = approve_release c user id role
  submit Request.milestone user id = complete_milestone c user id
  submit Request.claim user id = claim_expired c user id

  -- Each of the five requests is accepted exactly as the table says, from whom and in which state
  -- of the stored escrow: then its job is queued and nothing else changes, and otherwise nothing
  -- does.
  pub submit_lem :
      (q : Request) (user id : String) (w : World c)
      → let (r, v) = submit q user id w in
        let accepted = accepts q user (escrow_of w id) in
        (is_ok r ≡ accepted)
        × (v ≡ (
            if accepted
            then record w { escrow_queue = (job_of q user id, escrow_job_options) ∷ w.escrow_queue }
            else w))
  unfolding submit
  submit_lem (Request.release feedback) user id w = ground arith
  submit_lem (Request.refund reason) user id w = ground arith
  submit_lem (Request.approval Party.client) user id w = ground arith
  submit_lem (Request.approval Party.freelancer) user id w = ground arith
  submit_lem Request.milestone user id w = ground arith
  submit_lem Request.claim user id w = ground arith
