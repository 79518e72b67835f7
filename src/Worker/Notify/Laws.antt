-- ===== src/Worker/Notify/Laws.antt =====
-- What fireWebhook adds to the queue and to the database.
use nexus_hub_contract.Prelude.{
  String, ◌≡◌, refl, sym, true, none, some, List, [], ◌∷◌, ◌++◌, arith, All,
}
use mathlib.Core.List.{Memᴰ, Forall₂, reverse, append_assoc, reverse-cons}
use nexus_hub_contract.Model.Enums.{WebhookEvent, webhook_event_text, WebhookDeliveryStatus}
use nexus_hub_contract.Model.Rows.{Payload, WebhookEndpoint, WebhookDelivery}
use nexus_hub_contract.Model.Jobs.{JobOptions, WebhookJob}
use nexus_hub_contract.Prisma.Client.{Client, Distinct, IsLawful}
use nexus_hub_contract.Prisma.World.{World, delivery_of, endpoint_of}
use nexus_hub_contract.Prisma.Action.{ok}
use nexus_hub_contract.Worker.Notify.{
  webhook_job_options, subscribes, notify, notify_all, fire_webhook,
}

module _ {c : Client} where
  -- A job for an endpoint: it has five attempts, posts to the url with the secret, and names a stored
  -- delivery to that endpoint which is pending, with the payload.
  abbrev pub IsFor :
      World c → WebhookEvent → Payload → WebhookEndpoint → WebhookJob × JobOptions → Type 0
  IsFor v event payload e (j, o) =
      (o ≡ webhook_job_options)
      × (j.url ≡ some e.url)
      × (j.secret ≡ some e.secret)
      × (j.event ≡ webhook_event_text event)
      × (j.payload ≡ payload)
      × ((id : String) × (d : WebhookDelivery) × (j.delivery_id ≡ some id)
          × (delivery_of v id ≡ some d)
          × (d.endpoint_id ≡ e.id)
          × (d.event ≡ event)
          × (d.status ≡ WebhookDeliveryStatus.pending)
          × (d.payload ≡ payload))

  -- All tables but that of the deliveries.
  abbrev pub SameRows : World c → World c → Type 0
  SameRows v w = v.db ≡ record w.db { webhook_deliveries = v.db.webhook_deliveries }

module _ (c : Client) (laws : IsLawful c) (event : WebhookEvent) (payload : Payload) where
  notify-keeps :
      (e : WebhookEndpoint) (w : World c) (id : String) {d : WebhookDelivery}
      → (notify c event payload e w).0 ≡ ok tt
      → delivery_of w id ≡ some d
      → delivery_of (notify c event payload e w).1 id ≡ some d
  unfolding notify
  notify-keeps e w id h s = grind (arith, laws.find-create_self, laws.find-create_ne)

  -- One turn of the loop adds one job for the endpoint, with its stored delivery.
  notify-adds :
      (e : WebhookEndpoint) (w : World c)
      → (notify c event payload e w).0 ≡ ok tt
      → let v = (notify c event payload e w).1 in
        (j : WebhookJob × JobOptions) × (v.webhook_queue ≡ j ∷ w.webhook_queue)
        × IsFor v event payload e j
  unfolding notify
  notify-adds e w h =
      let id = c.uuid w.drawn in
      let d : WebhookDelivery = record {
        id = id;
        endpoint_id = e.id;
        event = event;
        payload = payload;
        status = WebhookDeliveryStatus.pending;
        response_code = none;
        response_body = none;
        attempts = 0;
        next_retry_at = none;
        delivered_at = none;
        created_at = w.now;
      } in
      let j : WebhookJob = record {
        delivery_id = some id;
        url = some e.url;
        secret = some e.secret;
        event = webhook_event_text event;
        payload = payload;
      } in
      (
        (j, webhook_job_options),
        ground arith,
        (
          refl,
          refl,
          refl,
          refl,
          refl,
          (id, d, refl, grind (arith, laws.find-create_self), refl, refl, refl, refl),
        ),
      )

  notify-ok :
      (e : WebhookEndpoint) (es : List WebhookEndpoint) (w : World c)
      → (notify_all c event payload (e ∷ es) w).0 ≡ ok tt
      → ((notify c event payload e w).0 ≡ ok tt)
        × (notify_all c event payload (e ∷ es) w
            ≡ notify_all c event payload es (notify c event payload e w).1)
  unfolding notify_all
  notify-ok e es w h = ground arith

  notify_all-keeps :
      (es : List WebhookEndpoint) (w : World c) (id : String) {d : WebhookDelivery}
      → (notify_all c event payload es w).0 ≡ ok tt
      → delivery_of w id ≡ some d
      → delivery_of (notify_all c event payload es w).1 id ≡ some d
  notify_all-keeps [] w id h s = unfold notify_all in s
  notify_all-keeps (e ∷ es) w id h s =
      let (here, later) = notify-ok e es w h in
      rw later (
        notify_all-keeps es (notify c event payload e w).1 id (rw later at h)
          (notify-keeps e w id here s))

  notify_all-IsFor :
      (es : List WebhookEndpoint) (w : World c) (e : WebhookEndpoint) (j : WebhookJob × JobOptions)
      → (notify_all c event payload es w).0 ≡ ok tt
      → IsFor w event payload e j
      → IsFor (notify_all c event payload es w).1 event payload e j
  notify_all-IsFor es w e (j, o) h
        (options, url, secret, text, data', (id, d, named, stored, owner, told, pending, same)) =
      (
        options,
        url,
        secret,
        text,
        data',
        (id, d, named, notify_all-keeps es w id h stored, owner, told, pending, same),
      )

  notify_all-adds :
      (es : List WebhookEndpoint) (w : World c)
      → (notify_all c event payload es w).0 ≡ ok tt
      → let v = (notify_all c event payload es w).1 in
        (added : List (WebhookJob × JobOptions)) × (v.webhook_queue
          ≡ reverse added ++ w.webhook_queue)
        × Forall₂ (IsFor v event payload) es added
  notify_all-adds [] w h = unfold notify_all in ([], refl, Forall₂.nil)
  notify_all-adds (e ∷ es) w h =
      let (here, later) = notify-ok e es w h in
      let w' = (notify c event payload e w).1 in
      let rest : (notify_all c event payload es w').0 ≡ ok tt = rw later at h in
      let (j, queue, ready) = notify-adds e w here in
      let (added, queues, all) = notify_all-adds es w' rest in
      let ready' = notify_all-IsFor es w' e j rest ready in
      rw later (
        j ∷ added,
        rw (queues, queue, reverse-cons)
            (sym (append_assoc (reverse added) (j ∷ []) w.webhook_queue)),
        Forall₂.cons ready' all,
      )

  -- When fireWebhook returns, it has added, in order, one job for each of a list of endpoints and
  -- no other, aimed at the endpoint's url with its secret and naming a stored pending delivery to
  -- it: the endpoints are stored under keys of which none occurs twice, they are active, of the
  -- user, and subscribe to the event, and each stored endpoint of that kind is among them.
  pub fire_webhook-adds :
      (user_id : String) (w : World c)
      → (fire_webhook c event payload user_id w).0 ≡ ok tt
      → let v = (fire_webhook c event payload user_id w).1 in
        (ks : List String) × (es : List WebhookEndpoint) × (added : List (WebhookJob × JobOptions))
        × (v.webhook_queue ≡ reverse added ++ w.webhook_queue)
        × Forall₂ (IsFor v event payload) es added
        × Distinct ks
        × Forall₂ (λ k e. endpoint_of w k ≡ some e) ks es
        × All (λ e. subscribes event user_id e ≡ true) es
        × ((k : String) (e : WebhookEndpoint)
            → endpoint_of w k ≡ some e
            → subscribes event user_id e ≡ true
            → Memᴰ e es)
  unfolding fire_webhook
  fire_webhook-adds user_id w h =
      let test = subscribes event user_id in
      let rows = w.db.webhook_endpoints in
      let es = c.find_many WebhookEndpoint test rows in
      let (added, queues, all) = notify_all-adds es w h in
      let (ks, distinct, found) = laws.find_many-stored WebhookEndpoint test rows in
      (
        ks,
        es,
        added,
        queues,
        all,
        distinct,
        found,
        laws.find_many-All WebhookEndpoint test rows,
        λ k e stored wants. laws.mem-find_many WebhookEndpoint test k e rows stored wants,
      )

  notify-SameRows : (e : WebhookEndpoint) (w : World c) → SameRows (notify c event payload e w).1 w
  unfolding notify
  notify-SameRows e w = ground arith

  pub notify_all-SameRows :
      (es : List WebhookEndpoint) (w : World c) → SameRows (notify_all c event payload es w).1 w
  unfolding notify_all
  notify_all-SameRows [] w = refl
  notify_all-SameRows (e ∷ es) w =
      ground (arith, notify-SameRows e w, notify_all-SameRows es (notify c event payload e w).1)

  -- Webhooks touch no row but deliveries, also when they throw.
  pub fire_webhook-SameRows :
      (user_id : String) (w : World c) → SameRows (fire_webhook c event payload user_id w).1 w
  unfolding fire_webhook
  fire_webhook-SameRows user_id w = notify_all-SameRows _ w
