-- ===== src/System/Safe/Jobs.antt =====
-- The worker's two processors.
use nexus_hub_contract.Prelude.{ℕ, String, Bool, true, false, Option, none, some, List, [], ◌∷◌}
use nexus_hub_contract.Prelude.Int.{ℤ}
use nexus_hub_contract.Model.Enums.{WebhookEvent, TransactionType}
use nexus_hub_contract.Model.Rows.{Escrow, Payload, WebhookEndpoint}
use nexus_hub_contract.Model.Jobs.{EscrowJob, Party}
use nexus_hub_contract.Prisma.Client.{Client, IsLawful}
use nexus_hub_contract.Worker.Chain.{Stellar}
use nexus_hub_contract.Worker.Notify.{fire_webhook, notify, notify_all}
use nexus_hub_contract.Worker.Fund.{
  record_funding, cancel_escrow, freelancer_of, try_fund, handle_fund_failure, fund_escrow,
}
use nexus_hub_contract.Worker.Settle
use nexus_hub_contract.Worker.Settle.{
  record_release, record_refund, record_expiry, pay_freelancer, return_to_client, book,
}
use nexus_hub_contract.Worker.Sync
use nexus_hub_contract.Worker.Sync.{record_approval, record_milestone}
use nexus_hub_contract.Worker.Process.{process}
use nexus_hub_contract.System.Rules.{IsSafe, safe_rules, pure-IsSafe, bind-IsSafe}

module _ (c : Client) (laws : IsLawful c) where
  notify-IsSafe :
      (event : WebhookEvent) (payload : Payload) (e : WebhookEndpoint)
      → IsSafe (notify c event payload e)
  unfolding notify
  notify-IsSafe event payload e = search safe_rules

  pub notify_all-IsSafe :
      (event : WebhookEvent) (payload : Payload) (es : List WebhookEndpoint)
      → IsSafe (notify_all c event payload es)
  unfolding notify_all
  notify_all-IsSafe event payload [] = pure-IsSafe tt
  notify_all-IsSafe event payload (e ∷ es) =
      bind-IsSafe (notify-IsSafe event payload e) λ _. notify_all-IsSafe event payload es

  fire_webhook-IsSafe :
      (event : WebhookEvent) (payload : Payload) (user : String)
      → IsSafe (fire_webhook c event payload user)
  unfolding fire_webhook
  fire_webhook-IsSafe event payload user = search (safe_rules, notify_all-IsSafe)

  pay_freelancer-IsSafe : (e : Escrow) → IsSafe (pay_freelancer c e)
  unfolding pay_freelancer
  pay_freelancer-IsSafe e = search safe_rules depth 12

  return_to_client-IsSafe : (e : Escrow) → IsSafe (return_to_client c e)
  unfolding return_to_client
  return_to_client-IsSafe e = search safe_rules depth 12

  book-IsSafe :
      (type : TransactionType) (key user text : String) (e : Escrow) (id tx : String)
      → IsSafe (book c type key user text e id tx)
  unfolding book
  book-IsSafe type key user text e id tx = search safe_rules depth 12

  ruleset payment_rules =
      (safe_rules, pay_freelancer-IsSafe, return_to_client-IsSafe, book-IsSafe, fire_webhook-IsSafe)

  record_release-IsSafe :
      (e : Escrow) (id client tx : String) → IsSafe (record_release c e id client tx)
  unfolding record_release
  record_release-IsSafe e id client tx = search payment_rules depth 14

  record_refund-IsSafe :
      (e : Escrow) (id admin reason tx : String) → IsSafe (record_refund c e id admin reason tx)
  unfolding record_refund
  record_refund-IsSafe e id admin reason tx = search payment_rules depth 14

  record_expiry-IsSafe :
      (e : Escrow) (id : String) (by : Option String) (tx : String)
      → IsSafe (record_expiry c e id by tx)
  unfolding record_expiry
  record_expiry-IsSafe e id by tx = search payment_rules depth 14

  record_approval-IsSafe :
      (e : Escrow) (id approver : String) (role : Party) (client freelancer : Bool) (tx : String)
      → IsSafe (record_approval c e id approver role client freelancer tx)
  unfolding record_approval
  record_approval-IsSafe e id approver role true true tx = search payment_rules depth 14
  record_approval-IsSafe e id approver role true false tx = search payment_rules depth 14
  record_approval-IsSafe e id approver role false freelancer tx = search payment_rules depth 14

  record_milestone-IsSafe :
      (id freelancer : String) (done total : ℕ) (tx : String)
      → IsSafe (record_milestone c id freelancer done total tx)
  unfolding record_milestone
  record_milestone-IsSafe id freelancer done total tx = search payment_rules depth 14

  cancel_escrow-IsSafe :
      (id client : String) (found : Option Escrow) → IsSafe (cancel_escrow c id client found)
  cancel_escrow-IsSafe id client none = pure-IsSafe tt
  cancel_escrow-IsSafe id client (some e) = search safe_rules depth 14

  freelancer_of-IsSafe : (found : Option Escrow) → IsSafe (freelancer_of c found)
  freelancer_of-IsSafe none = pure-IsSafe none
  freelancer_of-IsSafe (some e) = search safe_rules

  handle_fund_failure-IsSafe : (id client : String) → IsSafe (handle_fund_failure c id client)
  unfolding handle_fund_failure
  handle_fund_failure-IsSafe id client = search (safe_rules, cancel_escrow-IsSafe) depth 14

module _ (c : Client) (laws : IsLawful c) (stellar : Stellar) where
  record_funding-IsSafe :
      (id client : String) (amount : ℤ) (tx : String)
      → IsSafe (record_funding c stellar id client amount tx)
  unfolding record_funding
  record_funding-IsSafe id client amount tx = search safe_rules depth 14

  try_fund-IsSafe : (id client : String) (amount : ℤ) → IsSafe (try_fund c stellar id client amount)
  unfolding try_fund
  try_fund-IsSafe id client amount =
      search (safe_rules, record_funding-IsSafe, freelancer_of-IsSafe, fire_webhook-IsSafe) depth 30

  fund_escrow-IsSafe :
      (id client : String) (amount : ℤ) → IsSafe (fund_escrow c stellar id client amount)
  unfolding fund_escrow
  fund_escrow-IsSafe id client amount =
      search (safe_rules, try_fund-IsSafe, handle_fund_failure-IsSafe) depth 14

  release_escrow-IsSafe : (id client : String) → IsSafe (Settle.release_escrow c stellar id client)
  unfolding Settle.release_escrow
  release_escrow-IsSafe id client =
      search (safe_rules, record_release-IsSafe, fire_webhook-IsSafe) depth 30

  refund_escrow-IsSafe :
      (id admin reason : String) → IsSafe (Settle.refund_escrow c stellar id admin reason)
  unfolding Settle.refund_escrow
  refund_escrow-IsSafe id admin reason =
      search (safe_rules, record_refund-IsSafe, fire_webhook-IsSafe) depth 30

  claim_expired-IsSafe :
      (id : String) (by : Option String) → IsSafe (Settle.claim_expired c stellar id by)
  unfolding Settle.claim_expired
  claim_expired-IsSafe id by =
      search (safe_rules, record_expiry-IsSafe, fire_webhook-IsSafe) depth 30

  approve_release-IsSafe :
      (id approver : String) (role : Party)
      → IsSafe (Sync.approve_release c stellar id approver role)
  unfolding Sync.approve_release
  approve_release-IsSafe id approver role =
      search (safe_rules, record_approval-IsSafe, fire_webhook-IsSafe) depth 30

  complete_milestone-IsSafe :
      (id freelancer : String) → IsSafe (Sync.complete_milestone c stellar id freelancer)
  unfolding Sync.complete_milestone
  complete_milestone-IsSafe id freelancer =
      search (safe_rules, record_milestone-IsSafe, fire_webhook-IsSafe) depth 30

  ruleset handler_rules = (
    safe_rules, fund_escrow-IsSafe, release_escrow-IsSafe, refund_escrow-IsSafe,
    claim_expired-IsSafe, approve_release-IsSafe, complete_milestone-IsSafe,
  )

  -- Whatever the job, and whatever the chain answers.
  pub process-IsSafe : (job : EscrowJob) → IsSafe (process c stellar job)
  unfolding process
  process-IsSafe (EscrowJob.fund_escrow id client amount) = search handler_rules
  process-IsSafe (EscrowJob.release_escrow id client feedback) = search handler_rules
  process-IsSafe (EscrowJob.refund_escrow id admin reason) = search handler_rules
  process-IsSafe (EscrowJob.approve_release id approver role) = search handler_rules
  process-IsSafe (EscrowJob.complete_milestone id freelancer) = search handler_rules
  process-IsSafe (EscrowJob.claim_expired id by) = search handler_rules
  process-IsSafe (EscrowJob.other name) = search handler_rules
