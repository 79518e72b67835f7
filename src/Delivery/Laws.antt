-- ===== src/Delivery/Laws.antt =====
-- What a delivery attempt records, and how the attempts of one job end.
use nexus_hub_contract.Prelude.{
  ◌≤◌, ◌<◌, ◌*◌, ◌^◌, ◌⊎◌, inl, inr, Bool-cases, or_default, ℕ, suc, ◌+◌, ◌≡◌, refl, String, true,
  none, some, List, [], ◌∷◌, arith, length,
}
use nexus_hub_contract.Model.Enums.{WebhookDeliveryStatus}
use nexus_hub_contract.Model.Rows.{WebhookDelivery}
use nexus_hub_contract.Prisma.Client.{Client, IsLawful}
use nexus_hub_contract.Prisma.World.{World, delivery_of}
use nexus_hub_contract.Prisma.Action.{Exception, ok, throws}
use nexus_hub_contract.Delivery.{
  is_ok, is_last_attempt, Http, Job, Outcome, exchange, request_of, delivered, failed,
  record_failure, record_success, deliver_webhook, finish,
}

-- How the exchange of a run at `now` ends.
abbrev pub outcome_at : Http → Job → String → ℕ → Outcome
outcome_at http job secret now =
    exchange http.show_number (http.fetch (request_of http job.work secret now))

module _ (c : Client) (http : Http) where
  -- The runs of one job, one for each time of the list: the queue starts the next one after a run
  -- that throws, with one attempt more.
  unfoldable pub runs : List ℕ → Job → World c → World c
  runs [] job w = w
  runs (t ∷ ts) job w =
      let (r, v) = deliver_webhook c http job (record w { now = t }) in
      let rest = runs ts (record job { attempts_made = suc job.attempts_made }) v in
      elim r [ ok _ ↦ v | throws _ ↦ rest ]

module _ (c : Client) (laws : IsLawful c) (http : Http) where
  record_failure_lem :
      (job : Job) (o : Outcome) (x : Exception) (w : World c) {id : String} {d : WebhookDelivery}
      → job.work.delivery_id ≡ some id
      → delivery_of w id ≡ some d
      → let (r, v) = record_failure c http job o x w in
        (r ≡ throws x)
        × (delivery_of v id ≡ some (failed job w.now o (http.show_error x) d))
        × (v.now ≡ w.now)
  unfolding record_failure
  record_failure_lem job o x w hid hd = grind (arith, laws.find-update_self)

  record_success_lem :
      (job : Job) (o : Outcome) (w : World c) {id : String} {d : WebhookDelivery}
      → job.work.delivery_id ≡ some id
      → delivery_of w id ≡ some d
      → let (r, v) = record_success c http job o w in
        (r ≡ ok true) × (delivery_of v id ≡ some (delivered job w.now o d))
  unfolding record_success
  record_success_lem job o w hid hd = grind (arith, laws.find-update_self)

  deliver_webhook-finish :
      (job : Job) (w : World c) {secret : String}
      → job.work.secret ≡ some secret
      → deliver_webhook c http job w ≡ finish c http job (outcome_at http job secret w.now) w
  unfolding deliver_webhook
  deliver_webhook-finish job w hs = rw hs refl

  deliver_webhook-delivered :
      (job : Job) (w : World c) {id secret : String} {d : WebhookDelivery}
      → job.work.delivery_id ≡ some id
      → job.work.secret ≡ some secret
      → delivery_of w id ≡ some d
      → (outcome_at http job secret w.now).failure ≡ none
      → let (r, v) = deliver_webhook c http job w in
        (r ≡ ok true)
        × (delivery_of v id ≡ some (delivered job w.now (outcome_at http job secret w.now) d))
  unfolding finish
  deliver_webhook-delivered job w {id} {secret} hid hs hd fine =
      let (done, row) = record_success_lem job (outcome_at http job secret w.now) w hid hd in
      rw (deliver_webhook-finish job w hs, finish, fine) (done, row)

  deliver_webhook-failed :
      (job : Job) (w : World c) {id secret : String} {d : WebhookDelivery} {x : Exception}
      → job.work.delivery_id ≡ some id
      → job.work.secret ≡ some secret
      → delivery_of w id ≡ some d
      → (outcome_at http job secret w.now).failure ≡ some x
      → let (r, v) = deliver_webhook c http job w in
        (r ≡ throws x)
        × (delivery_of v id
            ≡ some (failed job w.now (outcome_at http job secret w.now) (http.show_error x) d))
  unfolding finish
  deliver_webhook-failed job w {id} {secret} {d} {x} hid hs hd broken =
      let (done, row, _) = record_failure_lem job (outcome_at http job secret w.now) x w hid hd in
      rw (deliver_webhook-finish job w hs, finish, broken) (done, row)

  -- A run that is answered with a status from 200 to 299 returns, and its row is DELIVERED with the
  -- code and the body of the response, the time, and one attempt more than were made before.
  pub deliver_webhook_accepted :
      (job : Job) (w : World c) {id secret body : String} {status : ℕ} {d : WebhookDelivery}
      → job.work.delivery_id ≡ some id
      → job.work.secret ≡ some secret
      → delivery_of w id ≡ some d
      → 200 ≤ status
      → status ≤ 299
      → http.fetch (request_of http job.work secret w.now)
        ≡ ok (record { status = status; text = ok body })
      → let (r, v) = deliver_webhook c http job w in
        (r ≡ ok true)
        × (e : WebhookDelivery) × (delivery_of v id ≡ some e)
        × (e.status ≡ WebhookDeliveryStatus.delivered)
        × (e.response_code ≡ some status)
        × (e.response_body ≡ some body)
        × (e.attempts ≡ job.attempts_made + 1)
        × (e.delivered_at ≡ some w.now)
  deliver_webhook_accepted job w {id} {secret} {body} {status} {d} hid hs hd low high fetched =
      let o = outcome_at http job secret w.now in
      let good : is_ok status ≡ true = ground arith in
      let fine : o.failure ≡ none = rw (fetched, good) refl in
      let (done, row) = deliver_webhook-delivered job w hid hs hd fine in
      (done, delivered job w.now o d, row, refl, rw fetched refl, rw fetched refl, refl, refl)

  -- A run whose exchange ends with an error throws it; its row has one attempt more, and is FAILED
  -- without a next retry where this was the last attempt, else RETRYING after 10 seconds times two
  -- to the power of the attempts made before.
  pub deliver_webhook_refused :
      (job : Job) (w : World c) {id secret : String} {d : WebhookDelivery} {x : Exception}
      → job.work.delivery_id ≡ some id
      → job.work.secret ≡ some secret
      → delivery_of w id ≡ some d
      → (outcome_at http job secret w.now).failure ≡ some x
      → let (r, v) = deliver_webhook c http job w in
        let made = job.attempts_made in
        let most = or_default job.max_attempts 5 in
        (r ≡ throws x)
        × (e : WebhookDelivery) × (delivery_of v id ≡ some e)
        × (e.attempts ≡ made + 1)
        × (((most ≤ made + 1)
              × (e.status ≡ WebhookDeliveryStatus.failed)
              × (e.next_retry_at ≡ none))
            ⊎ ((made + 1 < most)
                × (e.status ≡ WebhookDeliveryStatus.retrying)
                × (e.next_retry_at ≡ some (w.now + 10_000 * 2 ^ made))))
  deliver_webhook_refused job w {id} {secret} {d} {x} hid hs hd broken =
      let o = outcome_at http job secret w.now in
      let (done, row) = deliver_webhook-failed job w hid hs hd broken in
      (
        done,
        failed job w.now o (http.show_error x) d,
        row,
        refl,
        elim (Bool-cases (is_last_attempt job)) [
          | inl last ↦ inl (ground arith, rw last refl, rw last refl)
          | inr more ↦ inr (ground arith, rw more refl, rw more refl)
        ],
      )

  -- A delivery job whose every exchange ends with an error is FAILED after its last run, with all
  -- its attempts counted and no next retry.
  pub runs_exhausted :
      (t : ℕ) (ts : List ℕ) (job : Job) (w : World c) {id secret : String} {d : WebhookDelivery}
      → job.work.delivery_id ≡ some id
      → job.work.secret ≡ some secret
      → delivery_of w id ≡ some d
      → ((now : ℕ) → (x : Exception) × ((outcome_at http job secret now).failure ≡ some x))
      → job.max_attempts ≡ some (job.attempts_made + length (t ∷ ts))
      → (e : WebhookDelivery) × (delivery_of (runs c http (t ∷ ts) job w) id ≡ some e)
        × (e.status ≡ WebhookDeliveryStatus.failed)
        × (e.attempts ≡ job.attempts_made + length (t ∷ ts))
        × (e.next_retry_at ≡ none)
  unfolding runs
  runs_exhausted t [] job w {id} {secret} {d} hid hs hd broken most =
      let (x, b) = broken t in
      let (done, row) = deliver_webhook-failed job (record w { now = t }) hid hs hd b in
      (
        failed job t (outcome_at http job secret t) (http.show_error x) d,
        rw (runs, done) row,
        ground arith,
        ground arith,
        ground arith,
      )
  runs_exhausted t (s ∷ ts) job w {id} {secret} {d} hid hs hd broken most =
      let (x, b) = broken t in
      let (done, row) = deliver_webhook-failed job (record w { now = t }) hid hs hd b in
      let v = (deliver_webhook c http job (record w { now = t })).1 in
      let (e, found, status, made, retry) =
        runs_exhausted s ts (record job { attempts_made = suc job.attempts_made }) v hid hs row
          broken (ground arith) in
      (e, rw (runs, done) found, status, ground arith, retry)
