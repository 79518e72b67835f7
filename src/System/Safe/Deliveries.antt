-- ===== src/System/Safe/Deliveries.antt =====
-- The worker's second processor, WebhookProcessor.
use nexus_hub_contract.Prelude.{ℕ, String, true, Option, none, some}
use nexus_hub_contract.Model.Rows.{WebhookDelivery}
use nexus_hub_contract.Prisma.Client.{Client}
use nexus_hub_contract.Prisma.World.{World}
use nexus_hub_contract.Prisma.Action.{Action, Exception, Result, ok, throws}
use nexus_hub_contract.Delivery.{
  Http, Job, Outcome, save, save_delivered, record_failure, record_success, finish, deliver_webhook,
}
use nexus_hub_contract.System.Kept.{Kept, Kept-trans}
use nexus_hub_contract.System.Rules.{IsSafe, safe_rules}

module _ (c : Client) (http : Http) where
  save-IsSafe :
      (id : Option String) (f : WebhookDelivery → WebhookDelivery) → IsSafe (save c http id f)
  save-IsSafe none f = search safe_rules
  save-IsSafe (some id) f = search safe_rules

  record_failure-IsSafe :
      (job : Job) (o : Outcome) (x : Exception) → IsSafe (record_failure c http job o x)
  unfolding record_failure
  record_failure-IsSafe job o x = search (safe_rules, save-IsSafe) depth 14

  -- A `try` whose `catch` goes on.
  caught-Kept :
      {A B : Type 0} (w : World c) (r : Result A × World c) (value : Result B)
      (handler : Exception → Action c B)
      → Kept w r.1
      → ((x : Exception) → IsSafe (handler x))
      → Kept w
          (elim r.0 as (λ _. Result B × World c) [
            | ok _ ↦ (value, r.1)
            | throws x ↦ handler x r.1
          ]).1
  caught-Kept w (ok a, v) value handler here h = here
  caught-Kept w (throws x, v) value handler here h =
      Kept-trans w v (handler x v).1 here ((h x).at v)

  save_delivered-IsSafe : (job : Job) (o : Outcome) → IsSafe (save_delivered c http job o)
  save_delivered-IsSafe job o = search (safe_rules, save-IsSafe)

  record_success-IsSafe : (job : Job) (o : Outcome) → IsSafe (record_success c http job o)
  unfolding record_success
  record_success-IsSafe job o = record {
    at = λ w.
        caught-Kept w (save_delivered c http job o w) (ok true) (record_failure c http job o)
          ((save_delivered-IsSafe job o).at w) (record_failure-IsSafe job o);
  }

  finished-IsSafe :
      (job : Job) (code : Option ℕ) (body : Option String) (failure : Option Exception)
      → IsSafe (finish c http job (record { code = code; body = body; failure = failure }))
  unfolding finish
  finished-IsSafe job code body none =
      record_success-IsSafe job (record { code = code; body = body; failure = none })
  finished-IsSafe job code body (some x) =
      record_failure-IsSafe job (record { code = code; body = body; failure = some x }) x

  finish-IsSafe : (job : Job) (o : Outcome) → IsSafe (finish c http job o)
  finish-IsSafe job o = finished-IsSafe job o.code o.body o.failure

  -- Whatever the endpoint answers.
  pub deliver_webhook-IsSafe : (job : Job) → IsSafe (deliver_webhook c http job)
  unfolding deliver_webhook
  deliver_webhook-IsSafe job = search (safe_rules, finish-IsSafe)
