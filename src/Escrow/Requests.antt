-- ===== src/Escrow/Requests.antt =====
-- releaseEscrow, refundEscrow, approveRelease, completeMilestone and claimExpired: each checks the
-- stored escrow and queues a job for the worker, and changes no row.
pub mod Laws
pub mod Closed
pub mod Accepted
use nexus_hub_contract.Prelude.{
  String, ◌<>◌, Bool, not, ◌&&◌, Option, some, List, [], ◌∷◌, nat_eq, leb, ◌==◌,
}
use nexus_hub_contract.Model.Enums.{EscrowStatus, escrow_status_text, includes}
use nexus_hub_contract.Model.Rows.{Escrow}
use nexus_hub_contract.Model.Jobs.{EscrowJob, Party}
use nexus_hub_contract.Prisma.Client.{Client}
use nexus_hub_contract.Prisma.World.{escrows}
use nexus_hub_contract.Prisma.Action.{
  Action, not_found, bad_request, forbidden, ◌>>=◌, ◌>>◌, pure, throw_if, or_throw, find_unique,
  add_escrow_job,
}
use nexus_hub_contract.Escrow.Create.{escrow_job_options}

-- `['FUNDED', 'ACTIVE']`
abbrev pub open_statuses : List EscrowStatus
open_statuses = EscrowStatus.funded ∷ EscrowStatus.active ∷ []

abbrev pub is_client_role : Party → Bool
is_client_role Party.client = Bool.true
is_client_role Party.freelancer = Bool.false

module _ (c : Client) where
  abbrev stored_escrow : String → Action c Escrow
  stored_escrow escrow_id = do
    found ← find_unique (escrows c) escrow_id
    or_throw found (not_found "Escrow not found")

  abbrev enqueue : EscrowJob → String → Action c String
  enqueue job message = do add_escrow_job job escrow_job_options; pure message

  unfoldable pub release_escrow : String → String → Option String → Action c String
  release_escrow client_id escrow_id feedback = do
    escrow ← stored_escrow escrow_id
    throw_if (not (escrow.client_id == client_id)) (forbidden "Not your escrow")
    throw_if (not (includes open_statuses escrow.status))
        (bad_request ("Cannot release escrow in status: " <> escrow_status_text escrow.status))
    enqueue (EscrowJob.release_escrow escrow_id client_id feedback)
        "Release initiated. Funds will be transferred to the freelancer."

  unfoldable pub refund_escrow : String → String → String → Action c String
  refund_escrow admin_id escrow_id reason = do
    escrow ← stored_escrow escrow_id
    throw_if
        (not (
          includes (EscrowStatus.funded ∷ EscrowStatus.active ∷ EscrowStatus.disputed ∷ [])
            escrow.status))
        (bad_request ("Cannot refund escrow in status: " <> escrow_status_text escrow.status))
    enqueue (EscrowJob.refund_escrow escrow_id admin_id reason) "Refund initiated."

  unfoldable pub approve_release : String → String → Party → Action c String
  approve_release user_id escrow_id role = do
    escrow ← stored_escrow escrow_id
    throw_if (is_client_role role && not (escrow.client_id == user_id))
        (forbidden "Not your escrow")
    throw_if (not (is_client_role role) && not (escrow.freelancer_id == user_id))
        (forbidden "Not your escrow")
    throw_if (not (includes open_statuses escrow.status)) (
        bad_request (
          "Cannot approve release for escrow in status: "
          <> escrow_status_text escrow.status
          <> ". Disputed escrows must be resolved by the admin first."))
    enqueue (EscrowJob.approve_release escrow_id user_id role)
        "Approval recorded. Release triggers when both parties have approved."

  unfoldable pub complete_milestone : String → String → Action c String
  complete_milestone freelancer_id escrow_id = do
    escrow ← stored_escrow escrow_id
    throw_if (not (escrow.freelancer_id == freelancer_id)) (forbidden "Not your escrow")
    throw_if (not (includes open_statuses escrow.status)) (
        bad_request
          ("Cannot complete milestone for escrow in status: " <> escrow_status_text escrow.status))
    throw_if (nat_eq escrow.milestones_total 0)
        (bad_request "This escrow has no milestone tracking enabled")
    throw_if (leb escrow.milestones_total escrow.milestones_completed)
        (bad_request "All milestones are already completed")
    enqueue (EscrowJob.complete_milestone escrow_id freelancer_id)
        "Milestone completion submitted for on-chain recording."

  unfoldable pub claim_expired : String → String → Action c String
  claim_expired user_id escrow_id = do
    escrow ← stored_escrow escrow_id
    throw_if (not (includes open_statuses escrow.status))
        (bad_request ("Escrow is not in a claimable status: " <> escrow_status_text escrow.status))
    throw_if (nat_eq escrow.expiry_ledger 0) (bad_request "This escrow has no expiry set")
    enqueue (EscrowJob.claim_expired escrow_id (some user_id))
        "Expiry claim submitted. Funds will be returned to the client if the ledger has passed."
