-- ===== src/System/History.antt =====
-- What may happen, in any order and any number: a call of a service with any arguments, a job of
-- either queue with any answers of the chain and of the endpoint, and the passing of time. A call
-- that only reads has no constructor.
pub mod Laws
use nexus_hub_contract.Prelude.{ℕ, ◌+◌, String, Option}
use nexus_hub_contract.Model.Enums.{WebhookEvent}
use nexus_hub_contract.Model.Rows.{Payload}
use nexus_hub_contract.Model.Jobs.{EscrowJob, Party}
use nexus_hub_contract.Prisma.Client.{Client}
use nexus_hub_contract.Prisma.World.{World}
use nexus_hub_contract.Escrow.Create
use nexus_hub_contract.Escrow.Create.{CreateEscrowDto}
use nexus_hub_contract.Escrow.Requests
use nexus_hub_contract.Escrow.Queries
use nexus_hub_contract.Disputes
use nexus_hub_contract.Disputes.{OpenDisputeDto, ResolveDisputeDto}
use nexus_hub_contract.Webhooks
use nexus_hub_contract.Webhooks.{RegisterWebhookDto, UpdateWebhookDto}
use nexus_hub_contract.Auth
use nexus_hub_contract.Auth.{RegisterDto, LoginDto, Crypto}
use nexus_hub_contract.Worker.Chain.{Stellar}
use nexus_hub_contract.Worker.Process
use nexus_hub_contract.Delivery
use nexus_hub_contract.Delivery.{Http, Job}

pub data Event : Type 0 where
  create_escrow : (client_id : String) (dto : CreateEscrowDto) (idempotency_key : String) → Event
  release_escrow : (client_id escrow_id : String) (feedback : Option String) → Event
  refund_escrow : (admin_id escrow_id reason : String) → Event
  approve_release : (user_id escrow_id : String) (role : Party) → Event
  complete_milestone : (freelancer_id escrow_id : String) → Event
  claim_expired : (user_id escrow_id : String) → Event
  transfer_admin : (admin_id escrow_id : String) → Event
  open_dispute : (user_id : String) (dto : OpenDisputeDto) → Event
  resolve_dispute : (admin_id dispute_id : String) (dto : ResolveDisputeDto) → Event
  set_under_review : (admin_id dispute_id : String) → Event
  register_webhook : (user_id : String) (dto : RegisterWebhookDto) → Event
  update_endpoint : (user_id endpoint_id : String) (dto : UpdateWebhookDto) → Event
  delete_endpoint : (user_id endpoint_id : String) → Event
  rotate_secret : (user_id endpoint_id : String) → Event
  dispatch_event : (event : WebhookEvent) (payload : Payload) → Event
  register : Crypto → RegisterDto → Event
  login : Crypto → LoginDto → Event
  refresh : Crypto → (refresh_token : String) → Event
  logout : (refresh_token : String) → Event
  process : Stellar → EscrowJob → Event
  deliver_webhook : Http → Job → Event
  wait : (milliseconds : ℕ) → Event

module _ (c : Client) where
  unfoldable pub perform : Event → World c → World c
  perform (Event.create_escrow client dto key) w = (Create.create_escrow c client dto key w).1
  perform (Event.release_escrow client id feedback) w =
      (Requests.release_escrow c client id feedback w).1
  perform (Event.refund_escrow admin id reason) w = (Requests.refund_escrow c admin id reason w).1
  perform (Event.approve_release user id role) w = (Requests.approve_release c user id role w).1
  perform (Event.complete_milestone freelancer id) w =
      (Requests.complete_milestone c freelancer id w).1
  perform (Event.claim_expired user id) w = (Requests.claim_expired c user id w).1
  perform (Event.transfer_admin admin id) w = (Queries.transfer_admin c admin id w).1
  perform (Event.open_dispute user dto) w = (Disputes.open_dispute c user dto w).1
  perform (Event.resolve_dispute admin id dto) w = (Disputes.resolve_dispute c admin id dto w).1
  perform (Event.set_under_review admin id) w = (Disputes.set_under_review c admin id w).1
  perform (Event.register_webhook user dto) w = (Webhooks.register c user dto w).1
  perform (Event.update_endpoint user id dto) w = (Webhooks.update_endpoint c user id dto w).1
  perform (Event.delete_endpoint user id) w = (Webhooks.delete_endpoint c user id w).1
  perform (Event.rotate_secret user id) w = (Webhooks.rotate_secret c user id w).1
  perform (Event.dispatch_event event payload) w = (Webhooks.dispatch_event c event payload w).1
  perform (Event.register crypto dto) w = (Auth.register c crypto dto w).1
  perform (Event.login crypto dto) w = (Auth.login c crypto dto w).1
  perform (Event.refresh crypto token) w = (Auth.refresh c crypto token w).1
  perform (Event.logout token) w = (Auth.logout c token w).1
  perform (Event.process stellar job) w = (Process.process c stellar job w).1
  perform (Event.deliver_webhook http job) w = (Delivery.deliver_webhook c http job w).1
  perform (Event.wait milliseconds) w = record w { now = w.now + milliseconds }

-- The worlds that some sequence of events leads to from `w`.
pub data History {c : Client} (w : World c) : World c → Type 1 where
  start : History w w
  next : {v : World c} → History w v → (event : Event) → History w (perform c event v)
