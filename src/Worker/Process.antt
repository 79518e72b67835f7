-- ===== src/Worker/Process.antt =====
-- `process`: the handler of a job of the queue `escrow`.
use nexus_hub_contract.Prelude.{ℕ, String, Bool}
use nexus_hub_contract.Model.Jobs.{EscrowJob}
use nexus_hub_contract.Prisma.Client.{Client}
use nexus_hub_contract.Prisma.Action.{Action, ◌>>=◌, pure}
use nexus_hub_contract.Worker.Chain.{Stellar}
use nexus_hub_contract.Worker.Fund
use nexus_hub_contract.Worker.Settle
use nexus_hub_contract.Worker.Sync

-- What the handlers return, and what `process` returns of a job that it does not know.
pub data Returned : Type 0 where
  settled : (escrow_id tx_hash : String) → Returned
  approved : (escrow_id tx_hash : String) (client freelancer : Bool) → Returned
  milestone : (escrow_id tx_hash : String) (completed total : ℕ) → Returned
  undefined : Returned

abbrev to_settled : String × String → Returned
to_settled (id, tx) = Returned.settled id tx

module _ (c : Client) (stellar : Stellar) where
  abbrev settling : Action c (String × String) → Action c Returned
  settling m = do r ← m; pure (to_settled r)

  unfoldable pub process : EscrowJob → Action c Returned
  process (EscrowJob.fund_escrow id client amount) =
      settling (Fund.fund_escrow c stellar id client amount)
  process (EscrowJob.release_escrow id client feedback) =
      settling (Settle.release_escrow c stellar id client)
  process (EscrowJob.refund_escrow id admin reason) =
      settling (Settle.refund_escrow c stellar id admin reason)
  process (EscrowJob.approve_release id approver role) = do
    (escrow_id, tx, client, freelancer) ← Sync.approve_release c stellar id approver role
    pure (Returned.approved escrow_id tx client freelancer)
  process (EscrowJob.complete_milestone id freelancer) = do
    (escrow_id, tx, completed, total) ← Sync.complete_milestone c stellar id freelancer
    pure (Returned.milestone escrow_id tx completed total)
  process (EscrowJob.claim_expired id triggered_by) =
      settling (Settle.claim_expired c stellar id triggered_by)
  process (EscrowJob.other name) = pure Returned.undefined
