-- ===== src/Disputes/Notice.antt =====
-- The webhook jobs of the dispute service, as the worker's processor takes them.
use nexus_hub_contract.Prelude.{ℕ, String, ◌≡◌, refl, Option, none, [], ◌∷◌, arith}
use nexus_hub_contract.Model.Enums.{DisputeStatus, dispute_status_text}
use nexus_hub_contract.Model.Rows.{Dispute, Json}
use nexus_hub_contract.Model.Jobs.{WebhookJob, JobOptions}
use nexus_hub_contract.Prisma.Client.{Client}
use nexus_hub_contract.Prisma.World.{World}
use nexus_hub_contract.Prisma.Action.{Action, Exception, ok, throws, error}
use nexus_hub_contract.Disputes.{
  OpenDisputeDto, ResolveDisputeDto, record_dispute, open_dispute, resolve_escrow, resolve_dispute,
  event_job, no_options,
}
use nexus_hub_contract.Delivery.{Http, deliver_webhook}

-- The requests that announce an event, with their user or administrator.
pub data Announced : Type 0 where
  opened : (user_id : String) → OpenDisputeDto → Announced
  resolved : (admin_id dispute_id : String) → ResolveDisputeDto → Announced

module _ (c : Client) where
  abbrev pub announce : Announced → Action c Dispute
  announce (Announced.opened user_id dto) = open_dispute c user_id dto
  announce (Announced.resolved admin_id dispute_id dto) = resolve_dispute c admin_id dispute_id dto

  -- No run of the job delivers anything: whatever the endpoints answer, it throws, and leaves the
  -- world as it was.
  abbrev pub IsLost : WebhookJob → Type 0
  IsLost work =
      (http : Http) (attempts_made : ℕ) (max_attempts : Option ℕ) (v : World c)
      → (x : Exception) × (deliver_webhook c http
            (record { work = work; attempts_made = attempts_made; max_attempts = max_attempts }) v
          ≡ (throws x, v))

  unsigned-IsLost : (work : WebhookJob) → work.secret ≡ none → IsLost work
  unfolding deliver_webhook
  unsigned-IsLost work unsigned http attempts_made max_attempts v =
      (error "The \"key\" argument must be of type string", rw unsigned refl)

  resolve_escrow-queue :
      (s : DisputeStatus) (id : String) (w : World c)
      → (resolve_escrow c s id w).1.webhook_queue ≡ w.webhook_queue
  unfolding resolve_escrow
  resolve_escrow-queue DisputeStatus.resolved_client id w = ground arith
  resolve_escrow-queue DisputeStatus.resolved_freelancer id w = ground arith
  resolve_escrow-queue DisputeStatus.opened id w = refl
  resolve_escrow-queue DisputeStatus.under_review id w = refl
  resolve_escrow-queue DisputeStatus.closed id w = refl

  resolved-queue :
      (admin_id dispute_id : String) (dto : ResolveDisputeDto) (w : World c) (d : Dispute)
      → (resolve_dispute c admin_id dispute_id dto w).0 ≡ ok d
      → (resolve_dispute c admin_id dispute_id dto w).1.webhook_queue
        ≡ (
          event_job "DISPUTE_RESOLVED" (
              ("disputeId", Json.text dispute_id)
              ∷ ("resolution", Json.text (dispute_status_text dto.resolution))
              ∷ []),
          no_options,
        )
          ∷ w.webhook_queue
  unfolding resolve_dispute
  resolved-queue admin_id dispute_id dto w d h = grind (arith, resolve_escrow-queue)

  -- When a dispute is opened or resolved, one job is added to the queue of the webhooks, and every
  -- run of it throws, whatever the endpoints answer, and leaves everything as it was.
  pub announce-IsLost :
      (a : Announced) (w : World c) (d : Dispute)
      → (announce a w).0 ≡ ok d
      → (work : WebhookJob) × (o : JobOptions) × ((announce a w).1.webhook_queue
          ≡ (work, o) ∷ w.webhook_queue)
        × IsLost work
  unfolding open_dispute record_dispute
  announce-IsLost (Announced.opened user_id dto) w d h = (
    event_job "DISPUTE_OPENED" (
        ("disputeId", Json.text d.id)
        ∷ ("escrowId", Json.text dto.escrow_id)
        ∷ ("raisedById", Json.text user_id)
        ∷ []),
    no_options,
    grind arith,
    unsigned-IsLost _ refl,
  )
  announce-IsLost (Announced.resolved admin_id dispute_id dto) w d h = (
    event_job "DISPUTE_RESOLVED" (
        ("disputeId", Json.text dispute_id)
        ∷ ("resolution", Json.text (dispute_status_text dto.resolution))
        ∷ []),
    no_options,
    resolved-queue admin_id dispute_id dto w d h,
    unsigned-IsLost _ refl,
  )
