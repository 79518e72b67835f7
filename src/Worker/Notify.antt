-- ===== src/Worker/Notify.antt =====
-- fireWebhook: a pending delivery and a job for each active endpoint of the user that subscribes to
-- the event.
pub mod Laws
use nexus_hub_contract.Prelude.{String, Bool, ◌&&◌, none, some, List, [], ◌∷◌, ⊤, ◌==◌}
use nexus_hub_contract.Model.Enums.{WebhookEvent, webhook_event_text, has, WebhookDeliveryStatus}
use nexus_hub_contract.Model.Rows.{Payload, WebhookEndpoint}
use nexus_hub_contract.Model.Jobs.{JobOptions}
use nexus_hub_contract.Prisma.Client.{Client}
use nexus_hub_contract.Prisma.World.{webhook_endpoints, webhook_deliveries}
use nexus_hub_contract.Prisma.Action.{
  Action, ◌>>=◌, ◌>>◌, pure, find_many, create, fresh_id, new_date, add_webhook_job,
}

-- `{ attempts: 5, backoff: { type: 'exponential', delay: 10_000 } }`
abbrev pub webhook_job_options : JobOptions
webhook_job_options = record { attempts = some 5; delay = some 10_000 }

-- The `where` of the query.
abbrev pub subscribes : WebhookEvent → String → WebhookEndpoint → Bool
subscribes event user_id endpoint =
    endpoint.user_id == user_id && endpoint.is_active && has endpoint.events event

module _ (c : Client) (event : WebhookEvent) (payload : Payload) where
  -- The body of the loop.
  unfoldable pub notify : WebhookEndpoint → Action c ⊤
  notify endpoint = do
    id ← fresh_id
    now ← new_date
    delivery ← create (webhook_deliveries c) id (record {
      id = id;
      endpoint_id = endpoint.id;
      event = event;
      payload = payload;
      status = WebhookDeliveryStatus.pending;
      response_code = none;
      response_body = none;
      attempts = 0;
      next_retry_at = none;
      delivered_at = none;
      created_at = now;
    })
    add_webhook_job
        (record {
          delivery_id = some delivery.id;
          url = some endpoint.url;
          secret = some endpoint.secret;
          event = webhook_event_text event;
          payload = payload;
        })
        webhook_job_options

  -- `for (const endpoint of endpoints)`
  unfoldable pub notify_all : List WebhookEndpoint → Action c ⊤
  notify_all [] = pure tt
  notify_all (endpoint ∷ endpoints) = do notify endpoint; notify_all endpoints

  unfoldable pub fire_webhook : String → Action c ⊤
  fire_webhook user_id = do
    endpoints ← find_many (webhook_endpoints c) (subscribes event user_id)
    notify_all endpoints
