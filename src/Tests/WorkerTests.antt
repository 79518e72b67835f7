-- ===== src/Tests/WorkerTests.antt =====
-- The worker at concrete inputs.
use mathlib.Core.List.{Forall₂, Memᴰ, reverse}
use nexus_hub_contract.Prelude.{
  String, ◌++◌, All, List, ℕ, ◌≡◌, refl, true, none, some, [], ◌∷◌, String-discrete,
}
use nexus_hub_contract.Prelude.Int.{pos, ◌+ℤ◌, ◌-ℤ◌, times}
use nexus_hub_contract.Model.Enums.{EscrowStatus, WebhookEvent, WebhookDeliveryStatus}
use nexus_hub_contract.Model.Rows.{WebhookDelivery, WebhookEndpoint}
use nexus_hub_contract.Model.Jobs.{WebhookJob, JobOptions}
use nexus_hub_contract.Prisma.Client.{Distinct}
use nexus_hub_contract.Prisma.World.{endpoint_of, World, balance_of, delivery_of}
use nexus_hub_contract.Prisma.Action.{ok, throws, error}
use nexus_hub_contract.Prisma.Memory.{memory, memory-IsLawful}
use nexus_hub_contract.Worker.Chain.{Stellar}
use nexus_hub_contract.Worker.Fund.Failure.{Refuses, attempts, attempts_refused}
use nexus_hub_contract.Worker.Settle.{record_release}
use nexus_hub_contract.Worker.Settle.Payment.{paid, record_release_pays}
use nexus_hub_contract.Worker.Notify.{fire_webhook, notify, notify_all, subscribes}
use nexus_hub_contract.Worker.Notify.Laws.{fire_webhook-adds, IsFor}
use nexus_hub_contract.Delivery.{Http, Job}
use nexus_hub_contract.Delivery.Laws.{runs, runs_exhausted}
use nexus_hub_contract.Tests.Fixtures.{
  purse, job, delivery, funded_world, alice_ne_bob, carol_ne_bob, carol_ne_alice,
}

-- A chain that refuses every call.
abbrev pub silent : Stellar
silent = record {
  admin_public_key = "GX";
  decrypt_secret = λ s. ok s;
  init_escrow = λ p. throws (error "no");
  fund_escrow = λ id s. throws (error "no");
  release_escrow = λ id s h. throws (error "no");
  refund_escrow = λ id. throws (error "no");
  approve_release = λ id s. throws (error "no");
  complete_milestone = λ id s. throws (error "no");
  claim_expired = λ id. throws (error "no");
  get_escrow_record = λ id. throws (error "no");
  sha256_hex = λ s. s;
}

attempts_refused_example :
    balance_of
      (attempts memory (silent ∷ silent ∷ silent ∷ []) "e1" "alice" (pos 1) funded_world)
      "alice"
    ≡ some (record (purse "alice") {
      available_amount = pos 500_000_000 +ℤ times 3 (pos 100_000_000 +ℤ pos 1_000_000);
      reserved_amount = pos 100_000_000 -ℤ times 3 (pos 100_000_000);
    })
unfolding String-discrete
attempts_refused_example =
    let no : Refuses silent = (error "no", λ id secret. refl) in
    attempts_refused memory memory-IsLawful (silent ∷ silent ∷ silent ∷ []) "e1" "alice" (pos 1)
      funded_world {e = job EscrowStatus.funded} {b = purse "alice"} (no, (no, (no, tt))) refl refl

record_release_pays_example :
    balance_of
      (record_release memory (job EscrowStatus.funded) "e1" "alice" "tx" funded_world).1
      "bob"
    ≡ some (paid (pos 100_000_000) (purse "bob"))
unfolding String-discrete
record_release_pays_example =
    (record_release_pays memory memory-IsLawful (job EscrowStatus.funded) "e1" "alice" "tx" "carol"
      funded_world {row = job EscrowStatus.funded} {bf = purse "bob"} {bc = purse "alice"}
      alice_ne_bob carol_ne_bob carol_ne_alice refl refl refl refl).1

-- The world after one release.
abbrev released : World memory
released = (record_release memory (job EscrowStatus.funded) "e1" "alice" "tx" funded_world).1

abbrev ready : Job
ready = record {
  work = record {
    delivery_id = some "w1";
    url = some "https://b.io";
    secret = some "s1";
    event = "ESCROW_RELEASED";
    payload = [];
  };
  attempts_made = 0;
  max_attempts = some 2;
}

-- An endpoint that answers every request with one status.
abbrev answering : ℕ → Http
answering status = record {
  stringify = λ event payload now. event;
  hmac = λ secret text. text;
  fetch = λ r. ok (record { status = status; text = ok "body" });
  show_number = λ n. "n";
  show_error = λ x. "error";
}

runs_exhausted_example :
    (e : WebhookDelivery) × (delivery_of
        (runs memory (answering 500) (8 ∷ 9 ∷ []) ready funded_world)
        "w1"
      ≡ some e)
    × (e.status ≡ WebhookDeliveryStatus.failed)
    × (e.attempts ≡ 2)
    × (e.next_retry_at ≡ none)
unfolding String-discrete
runs_exhausted_example =
    runs_exhausted memory memory-IsLawful (answering 500) 8 (9 ∷ []) ready funded_world {id = "w1"}
      {secret = "s1"} {d = delivery} refl refl refl (λ now. (_, refl)) refl

fire_webhook-adds_example :
    let v = (fire_webhook memory WebhookEvent.escrow_released [] "bob" funded_world).1 in
    (ks : List String) × (es : List WebhookEndpoint) × (added : List (WebhookJob × JobOptions))
    × (v.webhook_queue ≡ reverse added ++ funded_world.webhook_queue)
    × Forall₂ (IsFor v WebhookEvent.escrow_released []) es added
    × Distinct ks
    × Forall₂ (λ k e. endpoint_of funded_world k ≡ some e) ks es
    × All (λ e. subscribes WebhookEvent.escrow_released "bob" e ≡ true) es
    × ((k : String) (e : WebhookEndpoint)
        → endpoint_of funded_world k ≡ some e
        → subscribes WebhookEvent.escrow_released "bob" e ≡ true
        → Memᴰ e es)
unfolding String-discrete fire_webhook notify_all notify
fire_webhook-adds_example =
    fire_webhook-adds memory memory-IsLawful WebhookEvent.escrow_released [] "bob" funded_world refl
