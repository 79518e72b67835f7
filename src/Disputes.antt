-- ===== src/Disputes.antt =====
-- DisputesService of apps/api/src/disputes/disputes.service.ts. Disputes are stored under their id;
-- the escrow's id is their second unique column.
pub mod Opening
pub mod Resolution
pub mod Notice
use nexus_hub_contract.Prelude.{
  ℕ, String, ◌<>◌, Bool, true, false, not, ◌&&◌, ◌||◌, Option, none, some, List, [], ◌∷◌, ⊤, nat_eq,
  ◌==◌, or_default, is_some,
}
use nexus_hub_contract.Model.Enums.{
  EscrowStatus, escrow_status_text, includes, DisputeStatus, dispute_status_text,
  dispute_status_index, DisputeReason,
}
use nexus_hub_contract.Model.Rows.{Escrow, Dispute, Json, Payload}
use nexus_hub_contract.Model.Jobs.{WebhookJob, JobOptions}
use nexus_hub_contract.Prisma.Client.{Client}
use nexus_hub_contract.Prisma.World.{escrows, disputes}
use nexus_hub_contract.Prisma.Action.{
  Action, not_found, bad_request, conflict, ◌>>=◌, ◌>>◌, pure, throw_if, or_throw, find_unique,
  find_first, find_many, create_unique, update, transaction, fresh_id, new_date, audit,
  add_webhook_job, count, error,
}
use nexus_hub_contract.Escrow.Requests.{open_statuses}
use nexus_hub_contract.Paging.{Page, to_page}

pub record OpenDisputeDto : Type 0 where
  pub escrow_id : String
  pub reason : DisputeReason
  pub description : String
  pub evidence : Option (List String)

pub record ResolveDisputeDto : Type 0 where
  pub resolution : DisputeStatus
  pub notes : String

-- `{ id, OR: [{ clientId: userId }, { freelancerId: userId }] }`
abbrev pub is_party : String → String → Escrow → Bool
is_party escrow_id user_id e =
    e.id == escrow_id && (e.client_id == user_id || e.freelancer_id == user_id)

abbrev pub has_status : DisputeStatus → DisputeStatus → Bool
has_status s t = nat_eq (dispute_status_index s) (dispute_status_index t)

-- The DELIVER_WEBHOOK jobs of this service have an event and a payload, and no options.
abbrev pub event_job : String → Payload → WebhookJob
event_job event payload = record {
  delivery_id = none;
  url = none;
  secret = none;
  event = event;
  payload = payload;
}

abbrev pub no_options : JobOptions
no_options = record { attempts = none; delay = none }

abbrev pub new_dispute : String → ℕ → String → OpenDisputeDto → Dispute
new_dispute id now user_id dto = record {
  id = id;
  escrow_id = dto.escrow_id;
  raised_by_id = user_id;
  reason = dto.reason;
  status = DisputeStatus.opened;
  description = dto.description;
  evidence = or_default dto.evidence [];
  resolution = none;
  resolved_at = none;
  created_at = now;
}

module _ (c : Client) where
  -- The transaction: the new dispute, and the escrow's status.
  unfoldable pub record_dispute : String → OpenDisputeDto → Action c Dispute
  record_dispute user_id dto = transaction do
    id ← fresh_id
    now ← new_date
    opened ←
        create_unique (disputes c) id (λ d. d.escrow_id == dto.escrow_id)
          (new_dispute id now user_id dto)
    update (escrows c) dto.escrow_id λ e. record e { status = EscrowStatus.disputed }
    pure opened

  unfoldable pub open_dispute : String → OpenDisputeDto → Action c Dispute
  open_dispute user_id dto = do
    found ← find_first (escrows c) (is_party dto.escrow_id user_id)
    escrow ← or_throw found (not_found "Escrow not found or access denied")
    throw_if (not (includes open_statuses escrow.status))
        (bad_request ("Cannot dispute escrow in status: " <> escrow_status_text escrow.status))
    existing ← find_first (disputes c) (λ d. d.escrow_id == dto.escrow_id)
    throw_if (is_some existing) (conflict "A dispute already exists for this escrow")
    dispute ← record_dispute user_id dto
    add_webhook_job
        (event_job "DISPUTE_OPENED" (
          ("disputeId", Json.text dispute.id)
          ∷ ("escrowId", Json.text dto.escrow_id)
          ∷ ("raisedById", Json.text user_id)
          ∷ []))
        no_options
    pure dispute

  -- What the resolution does to the escrow.
  unfoldable pub resolve_escrow : DisputeStatus → String → Action c ⊤
  resolve_escrow DisputeStatus.resolved_client escrow_id = do
    update (escrows c) escrow_id λ e. record e { status = EscrowStatus.refunded }
    pure tt
  resolve_escrow DisputeStatus.resolved_freelancer escrow_id = do
    update (escrows c) escrow_id λ e. record e { status = EscrowStatus.released }
    pure tt
  resolve_escrow _ escrow_id = pure tt

  unfoldable pub resolve_dispute : String → String → ResolveDisputeDto → Action c Dispute
  unfolding resolve_escrow
  resolve_dispute admin_id dispute_id dto = do
    found ← find_unique (disputes c) dispute_id
    dispute ← or_throw found (not_found "Dispute not found")
    throw_if
        (not (has_status dispute.status DisputeStatus.opened)
          && not (has_status dispute.status DisputeStatus.under_review))
        (bad_request "Dispute is not open for resolution")
    resolved ← transaction do
      now ← new_date
      updated ← update (disputes c) dispute_id λ d. record d {
        status = dto.resolution;
        resolution = some dto.notes;
        resolved_at = some now;
      }
      resolve_escrow dto.resolution dispute.escrow_id
      audit (record {
        user_id = some admin_id;
        action = "RESOLVE_DISPUTE";
        entity = "Dispute";
        entity_id = some dispute_id;
        new_values =
            ("resolution", Json.text (dispute_status_text dto.resolution))
            ∷ ("notes", Json.text dto.notes)
            ∷ [];
      })
      pure updated
    add_webhook_job
        (event_job "DISPUTE_RESOLVED" (
          ("disputeId", Json.text dispute_id)
          ∷ ("resolution", Json.text (dispute_status_text dto.resolution))
          ∷ []))
        no_options
    pure resolved

  unfoldable pub set_under_review : String → String → Action c Dispute
  set_under_review admin_id dispute_id = do
    found ← find_unique (disputes c) dispute_id
    dispute ← or_throw found (not_found "Dispute not found")
    throw_if (not (has_status dispute.status DisputeStatus.opened))
        (bad_request "Dispute is not open")
    update (disputes c) dispute_id λ d. record d { status = DisputeStatus.under_review }

  -- The `where` of both reads: an administrator sees every dispute, others those they raised.
  abbrev pub visible : String → String → Dispute → Bool
  visible user_id role d = role == "ADMIN" || d.raised_by_id == user_id

  unfoldable pub get_dispute : String → String → String → Action c Dispute
  get_dispute user_id role dispute_id = do
    found ← find_first (disputes c) (λ d. d.id == dispute_id && visible user_id role d)
    or_throw found (not_found "Dispute not found")

  unfoldable pub list_disputes : String → String → ℕ → ℕ → Action c (Page Dispute)
  list_disputes user_id role page limit = do
    all ← find_many (disputes c) (visible user_id role)
    total ← count (disputes c) (visible user_id role)
    pure (to_page all total page limit)
