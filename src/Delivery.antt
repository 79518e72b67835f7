-- ===== src/Delivery.antt =====
-- WebhookProcessor of apps/worker/src/processors/webhook.processor.ts. The HTTP exchange, the
-- signature and the text of the body are not the program's code: they are parameters.
pub mod Laws
use nexus_hub_contract.Prelude.{
  ℕ, ◌+◌, ◌*◌, ◌^◌, String, ◌<>◌, Bool, true, false, ◌&&◌, Option, none, some, List, [], ◌∷◌, ⊤,
  leb, if◌then◌else◌, or_default,
}
use nexus_hub_contract.Model.Enums.{WebhookDeliveryStatus}
use nexus_hub_contract.Model.Rows.{Payload, WebhookDelivery}
use nexus_hub_contract.Model.Jobs.{WebhookJob}
use nexus_hub_contract.Prisma.Client.{Client}
use nexus_hub_contract.Prisma.World.{World, webhook_deliveries}
use nexus_hub_contract.Prisma.Action.{
  Action, Exception, Result, ok, throws, error, ◌>>=◌, ◌>>◌, pure, throw, or_throw, update,
  new_date,
}

-- What is sent: the body and the three X-NexusHub headers.
pub record Request : Type 0 where
  pub url : Option String
  pub body : String
  pub signature : String
  pub event : String
  pub delivery : Option String

-- What `fetch` gives. `response.text()` may throw after the status has come.
pub record Response : Type 0 where
  pub status : ℕ
  pub text : Result String

pub record Http : Type 0 where
  -- `JSON.stringify({ event, data, timestamp })`
  pub stringify : String → Payload → ℕ → String
  -- The hex digest of HMAC-SHA256, of a key and a text.
  pub hmac : String → String → String
  -- `fetch`, which throws also when the timeout aborts it.
  pub fetch : Request → Result Response
  -- `${status}`
  pub show_number : ℕ → String
  -- `String(error)`
  pub show_error : Exception → String

-- A job of BullMQ: its data, and how often it has been tried.
pub record Job : Type 0 where
  pub work : WebhookJob
  pub attempts_made : ℕ
  pub max_attempts : Option ℕ

-- `response.ok`
abbrev pub is_ok : ℕ → Bool
is_ok status = leb 200 status && leb status 299

-- How the body of the `try` ends before the row is written: what is known of the response, and
-- the error, if there is one.
pub record Outcome : Type 0 where
  pub code : Option ℕ
  pub body : Option String
  pub failure : Option Exception

abbrev answered : (ℕ → String) → ℕ → Result String → Outcome
answered show status (throws x) = record { code = some status; body = none; failure = some x }
answered show status (ok body) = record {
  code = some status;
  body = some body;
  failure =
      if is_ok status
      then none
      else some (error ("Endpoint returned " <> show status <> ": " <> body));
}

abbrev pub exchange : (ℕ → String) → Result Response → Outcome
exchange show (throws x) = record { code = none; body = none; failure = some x }
exchange show (ok response) = answered show response.status response.text

-- `10_000 * Math.pow(2, job.attemptsMade)`
abbrev pub backoff : ℕ → ℕ
backoff attempts_made = 10_000 * 2 ^ attempts_made

abbrev pub is_last_attempt : Job → Bool
is_last_attempt job = leb (or_default job.max_attempts 5) (job.attempts_made + 1)

abbrev pub delivered : Job → ℕ → Outcome → WebhookDelivery → WebhookDelivery
delivered job now o d = record d {
  status = WebhookDeliveryStatus.delivered;
  response_code = o.code;
  response_body = o.body;
  attempts = job.attempts_made + 1;
  delivered_at = some now;
}

abbrev pub failed : Job → ℕ → Outcome → String → WebhookDelivery → WebhookDelivery
failed job now o shown d = record d {
  status =
      if is_last_attempt job then WebhookDeliveryStatus.failed else WebhookDeliveryStatus.retrying;
  response_code = o.code;
  response_body = some (or_default o.body shown);
  attempts = job.attempts_made + 1;
  next_retry_at = if is_last_attempt job then none else some (now + backoff job.attempts_made);
}

-- The body is signed with the secret of the job.
abbrev pub request_of : Http → WebhookJob → String → ℕ → Request
request_of http work secret now =
    let body = http.stringify work.event work.payload now in
    record {
      url = work.url;
      body = body;
      signature = "sha256=" <> http.hmac secret body;
      event = work.event;
      delivery = work.delivery_id;
    }

module _ (c : Client) (http : Http) where
  -- `where: { id: deliveryId }`, which Prisma refuses where the id is undefined.
  abbrev pub save : Option String → (WebhookDelivery → WebhookDelivery) → Action c WebhookDelivery
  save none f = throw (error "Invalid `webhookDelivery.update()` invocation")
  save (some id) f = update (webhook_deliveries c) id f

  -- The `catch`: the row, and the error once more for BullMQ.
  unfoldable pub record_failure : Job → Outcome → Exception → Action c Bool
  record_failure job o x = do
    now ← new_date
    save job.work.delivery_id (failed job now o (http.show_error x))
    throw x

  -- The update after the exchange.
  abbrev pub save_delivered : Job → Outcome → Action c WebhookDelivery
  save_delivered job o = do now ← new_date; save job.work.delivery_id (delivered job now o)

  -- The end of the `try`. An update that throws there is caught too.
  unfoldable pub record_success : Job → Outcome → Action c Bool
  unfolding record_failure
  record_success job o w =
      let (r, v) = save_delivered job o w in
      elim r [ ok _ ↦ (ok true, v) | throws x ↦ record_failure job o x v ]

  unfoldable pub finish : Job → Outcome → Action c Bool
  unfolding record_failure record_success
  finish job o = elim o.failure [ none ↦ record_success job o | some x ↦ record_failure job o x ]

  unfoldable pub deliver_webhook : Job → Action c Bool
  unfolding finish
  deliver_webhook job = do
    now ← new_date
    -- `createHmac` throws where the key is undefined, before the `try`.
    secret ← or_throw job.work.secret (error "The \"key\" argument must be of type string")
    finish job (exchange http.show_number (http.fetch (request_of http job.work secret now)))
