-- ===== src/Webhooks.antt =====
-- WebhooksService of apps/api/src/webhooks/webhooks.service.ts.
pub mod Laws
use nexus_hub_contract.Prelude.{
  ℕ, String, Bool, true, false, not, ◌&&◌, Option, none, some, List, [], ◌∷◌, ⊤, nat_eq, ◌==◌,
  or_default, if◌then◌else◌,
}
use Prim.Native.String.{len}
use nexus_hub_contract.Model.Enums.{WebhookEvent, webhook_event_text, has, WebhookDeliveryStatus}
use nexus_hub_contract.Model.Rows.{Payload, WebhookEndpoint, WebhookDelivery}
use nexus_hub_contract.Prisma.Client.{Client}
use nexus_hub_contract.Prisma.World.{webhook_endpoints, webhook_deliveries}
use nexus_hub_contract.Prisma.Action.{
  Action, Result, ok, throws, not_found, forbidden, error, ◌>>=◌, ◌>>◌, pure, throw_if, or_throw,
  find_unique, find_many, create, update, delete, count, fresh_id, fresh_secret, new_date,
}
use nexus_hub_contract.Worker.Notify.{notify_all}
use nexus_hub_contract.Paging.{Page, to_page}

pub record RegisterWebhookDto : Type 0 where
  pub url : String
  pub events : List WebhookEvent
  pub description : Option String

-- A field that the request leaves out is `none`, and the column keeps its value.
pub record UpdateWebhookDto : Type 0 where
  pub url : Option String
  pub events : Option (List WebhookEvent)
  pub description : Option String
  pub is_active : Option Bool

-- The columns that `list` selects.
pub record EndpointView : Type 0 where
  pub id : String
  pub url : String
  pub events : List WebhookEvent
  pub is_active : Bool
  pub description : Option String
  pub created_at : ℕ

abbrev view : WebhookEndpoint → EndpointView
view e = record {
  id = e.id;
  url = e.url;
  events = e.events;
  is_active = e.is_active;
  description = e.description;
  created_at = e.created_at;
}

abbrev views : List WebhookEndpoint → List EndpointView
views [] = []
views (e ∷ es) = view e ∷ views es

abbrev or_else : {A : Type 0} → Option A → Option A → Option A
or_else none old = old
or_else (some new) old = some new

abbrev pub updated : UpdateWebhookDto → WebhookEndpoint → WebhookEndpoint
updated dto e = record e {
  url = or_default dto.url e.url;
  events = or_default dto.events e.events;
  description = or_else dto.description e.description;
  is_active = or_default dto.is_active e.is_active;
}

module _ (c : Client) where
  unfoldable pub find_and_verify_ownership : String → String → Action c WebhookEndpoint
  find_and_verify_ownership user_id endpoint_id = do
    found ← find_unique (webhook_endpoints c) endpoint_id
    endpoint ← or_throw found (not_found "Webhook endpoint not found")
    throw_if (not (endpoint.user_id == user_id)) (forbidden "Access denied")
    pure endpoint

  -- The stored endpoint holds the secret, so the result shows it.
  unfoldable pub register : String → RegisterWebhookDto → Action c WebhookEndpoint
  register user_id dto = do
    secret ← fresh_secret
    id ← fresh_id
    now ← new_date
    create (webhook_endpoints c) id (record {
      id = id;
      user_id = user_id;
      url = dto.url;
      secret = secret;
      events = dto.events;
      is_active = true;
      description = dto.description;
      created_at = now;
    })

  unfoldable pub update_endpoint : String → String → UpdateWebhookDto → Action c WebhookEndpoint
  unfolding find_and_verify_ownership
  update_endpoint user_id endpoint_id dto = do
    find_and_verify_ownership user_id endpoint_id
    update (webhook_endpoints c) endpoint_id (updated dto)

  unfoldable pub delete_endpoint : String → String → Action c String
  unfolding find_and_verify_ownership
  delete_endpoint user_id endpoint_id = do
    find_and_verify_ownership user_id endpoint_id
    delete (webhook_endpoints c) endpoint_id
    pure "Webhook endpoint deleted"

  unfoldable pub list_endpoints : String → Action c (List EndpointView)
  list_endpoints user_id = do
    endpoints ← find_many (webhook_endpoints c) (λ e. e.user_id == user_id)
    pure (views endpoints)

  unfoldable pub get_deliveries : String → String → ℕ → ℕ → Action c (Page WebhookDelivery)
  unfolding find_and_verify_ownership
  get_deliveries user_id endpoint_id page limit = do
    find_and_verify_ownership user_id endpoint_id
    all ← find_many (webhook_deliveries c) (λ d. d.endpoint_id == endpoint_id)
    total ← count (webhook_deliveries c) (λ d. d.endpoint_id == endpoint_id)
    pure (to_page all total page limit)

  unfoldable pub rotate_secret : String → String → Action c (String × String)
  unfolding find_and_verify_ownership
  rotate_secret user_id endpoint_id = do
    find_and_verify_ownership user_id endpoint_id
    new_secret ← fresh_secret
    update (webhook_endpoints c) endpoint_id λ e. record e { secret = new_secret }
    pure (new_secret, "Secret rotated. Update your integration.")

  -- The loop is that of the worker's fireWebhook, over all users' endpoints.
  unfoldable pub dispatch_event : WebhookEvent → Payload → Action c ⊤
  dispatch_event event payload = do
    endpoints ← find_many (webhook_endpoints c) (λ e. has e.events event && e.is_active)
    notify_all c event payload endpoints

-- `timingSafeEqual` throws on two buffers of different lengths.
unfoldable pub timing_safe_equal : String → String → Result Bool
timing_safe_equal a b =
    if nat_eq (len a) (len b)
    then ok (a == b)
    else throws (error "Input buffers must have the same byte length")

-- `hmac secret payload` stands for the hex digest of Node's HMAC-SHA256.
unfoldable pub verify_signature :
    (hmac : String → String → String) (payload signature secret : String) → Result Bool
unfolding timing_safe_equal
verify_signature hmac payload signature secret = timing_safe_equal signature (hmac secret payload)
