-- ===== src/Tests/DisputeTests.antt =====
-- Disputes and webhooks at concrete inputs.
use nexus_hub_contract.Prelude.{
  String, ◌≡◌, ◌≢◌, refl, false, none, some, [], ◌∷◌, arith, String-discrete, inl,
}
use nexus_hub_contract.Model.Enums.{EscrowStatus, DisputeReason, DisputeStatus}
use nexus_hub_contract.Prisma.World.{World, escrow_of}
use nexus_hub_contract.Prisma.Action.{Exception, ok, throws}
use nexus_hub_contract.Prisma.Memory.{memory, memory-IsLawful}
use nexus_hub_contract.Escrow.Requests.{claim_expired}
use nexus_hub_contract.Disputes.Notice.{Announced, IsLost, announce-IsLost}
use nexus_hub_contract.Model.Jobs.{WebhookJob, JobOptions}
use nexus_hub_contract.Disputes.{
  OpenDisputeDto, ResolveDisputeDto, resolve_dispute, open_dispute, record_dispute,
}
use nexus_hub_contract.Disputes.Resolution.{resolve_dispute_lem, resolve_dispute_strands}
use nexus_hub_contract.Webhooks.{UpdateWebhookDto, rotate_secret}
use nexus_hub_contract.Webhooks.Laws.{ownership}
use nexus_hub_contract.Tests.Fixtures.{job, quarrel, world, funded_world, alice_ne_bob}

abbrev Texts : String → String → Type 0
Texts s t = s ≡ t

abbrev complaint : OpenDisputeDto
complaint = record {
  escrow_id = "e1";
  reason = DisputeReason.fraud;
  description = "late";
  evidence = none;
}

abbrev verdict : ResolveDisputeDto
verdict = record { resolution = DisputeStatus.resolved_client; notes = "n" }

abbrev disputed_world : World memory
disputed_world = world EscrowStatus.disputed (("d1", quarrel) ∷ [])

resolve_dispute_lem_example :
    escrow_of (resolve_dispute memory "root" "d1" verdict disputed_world).1 "e1"
    ≡ some (record (job EscrowStatus.disputed) { status = EscrowStatus.refunded })
unfolding String-discrete resolve_dispute
resolve_dispute_lem_example =
    (resolve_dispute_lem memory memory-IsLawful "root" "d1" verdict disputed_world _ quarrel
      {e = job EscrowStatus.disputed} refl refl refl).2

resolve_dispute_strands_example :
    (claim_expired memory "alice" "e1"
      (resolve_dispute memory "root" "d1" verdict disputed_world).1).0
    ≢ ok "Expiry claim submitted. Funds will be returned to the client if the ledger has passed."
unfolding String-discrete resolve_dispute
resolve_dispute_strands_example =
    (resolve_dispute_strands memory memory-IsLawful "root" "d1" "alice"
      "Expiry claim submitted. Funds will be returned to the client if the ledger has passed."
      verdict disputed_world _ quarrel {e = job EscrowStatus.disputed} refl (inl refl) refl refl).4

abbrev patch : UpdateWebhookDto
patch = record { url = none; events = none; description = none; is_active = some false }

ownership_example :
    (x : Exception) × (rotate_secret memory "alice" "h1" funded_world ≡ (throws x, funded_world))
unfolding String-discrete
ownership_example =
    (ownership memory memory-IsLawful "alice" "h1" patch 1 20 funded_world
      (λ e stored same. alice_ne_bob (ground arith))).2

announce-IsLost_example :
    (work : WebhookJob) × (o : JobOptions) × ((open_dispute memory "bob" complaint
        funded_world).1.webhook_queue
      ≡ (work, o) ∷ funded_world.webhook_queue)
    × IsLost memory work
unfolding String-discrete open_dispute record_dispute
announce-IsLost_example =
    announce-IsLost memory (Announced.opened "bob" complaint) funded_world _ refl
