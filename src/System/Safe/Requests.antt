-- ===== src/System/Safe/Requests.antt =====
-- The services of the API.
use nexus_hub_contract.Prelude.{String, Option, none, some, List, [], ◌∷◌}
use nexus_hub_contract.Model.Enums.{WebhookEvent, UserRole, DisputeStatus}
use nexus_hub_contract.Model.Rows.{Payload, WebhookEndpoint, Transaction, Balance}
use nexus_hub_contract.Model.Jobs.{Party}
use nexus_hub_contract.Prisma.Client.{Client, IsLawful}
use nexus_hub_contract.Prisma.Action.{Action}
use nexus_hub_contract.Model.Decimal.{Decimal}
use nexus_hub_contract.Escrow.Create.{
  CreateEscrowDto, Created, existing, unless_existing, create_escrow, check_freelancer,
  funded_balance, lock_balance, record_escrow,
}
use nexus_hub_contract.Escrow.Requests
use nexus_hub_contract.Escrow.Queries.{rotate_one, rotate_all, transfer_admin}
use nexus_hub_contract.Disputes.{
  OpenDisputeDto, ResolveDisputeDto, record_dispute, open_dispute, resolve_escrow, resolve_dispute,
  set_under_review,
}
use nexus_hub_contract.Webhooks
use nexus_hub_contract.Webhooks.{RegisterWebhookDto, UpdateWebhookDto, find_and_verify_ownership}
use nexus_hub_contract.Auth
use nexus_hub_contract.Auth.{RegisterDto, LoginDto, Crypto, generate_token_pair, create_user}
use nexus_hub_contract.System.Safe.Jobs.{notify_all-IsSafe}
use nexus_hub_contract.System.Rules.{IsSafe, safe_rules, pure-IsSafe, bind-IsSafe}

module _ (c : Client) (laws : IsLawful c) where
  record_escrow-IsSafe :
      (client : String) (dto : CreateEscrowDto) (key : String) (amount fee : Decimal)
      → IsSafe (record_escrow c client dto key amount fee)
  unfolding record_escrow
  record_escrow-IsSafe client dto key amount fee = search safe_rules depth 14

  check_freelancer-IsSafe : (id : String) → IsSafe (check_freelancer c id)
  unfolding check_freelancer
  check_freelancer-IsSafe id = search safe_rules depth 14

  funded_balance-IsSafe : (id : String) (debit : Decimal) → IsSafe (funded_balance c id debit)
  unfolding funded_balance
  funded_balance-IsSafe id debit = search safe_rules depth 14

  lock_balance-IsSafe :
      (id : String) (b : Balance) (debit amount : Decimal)
      → IsSafe (lock_balance c id b debit amount)
  unfolding lock_balance
  lock_balance-IsSafe id b debit amount = search safe_rules depth 14

  unless_existing-IsSafe :
      (fresh : Action c Created) (found : Option Transaction)
      → IsSafe fresh
      → IsSafe (unless_existing c fresh found)
  unless_existing-IsSafe fresh none h = h
  unless_existing-IsSafe fresh (some row) h = pure-IsSafe (existing row)

  pub create_escrow-IsSafe :
      (client : String) (dto : CreateEscrowDto) (key : String)
      → IsSafe (create_escrow c client dto key)
  unfolding create_escrow
  create_escrow-IsSafe client dto key =
      search
        (
          safe_rules, unless_existing-IsSafe, record_escrow-IsSafe, check_freelancer-IsSafe,
          funded_balance-IsSafe, lock_balance-IsSafe,
        )
        depth 14

  pub release_escrow-IsSafe :
      (client id : String) (feedback : Option String)
      → IsSafe (Requests.release_escrow c client id feedback)
  unfolding Requests.release_escrow
  release_escrow-IsSafe client id feedback = search safe_rules depth 20

  pub refund_escrow-IsSafe :
      (admin id reason : String) → IsSafe (Requests.refund_escrow c admin id reason)
  unfolding Requests.refund_escrow
  refund_escrow-IsSafe admin id reason = search safe_rules depth 20

  pub approve_release-IsSafe :
      (user id : String) (role : Party) → IsSafe (Requests.approve_release c user id role)
  unfolding Requests.approve_release
  approve_release-IsSafe user id role = search safe_rules depth 20

  pub complete_milestone-IsSafe :
      (freelancer id : String) → IsSafe (Requests.complete_milestone c freelancer id)
  unfolding Requests.complete_milestone
  complete_milestone-IsSafe freelancer id = search safe_rules depth 20

  pub claim_expired-IsSafe : (user id : String) → IsSafe (Requests.claim_expired c user id)
  unfolding Requests.claim_expired
  claim_expired-IsSafe user id = search safe_rules depth 20

  rotate_one-IsSafe : (ep : WebhookEndpoint) → IsSafe (rotate_one c ep)
  unfolding rotate_one
  rotate_one-IsSafe ep = search safe_rules depth 14

  rotate_all-IsSafe : (eps : List WebhookEndpoint) → IsSafe (rotate_all c eps)
  unfolding rotate_all
  rotate_all-IsSafe [] = pure-IsSafe tt
  rotate_all-IsSafe (ep ∷ eps) = bind-IsSafe (rotate_one-IsSafe ep) λ _. rotate_all-IsSafe eps

  pub transfer_admin-IsSafe : (admin id : String) → IsSafe (transfer_admin c admin id)
  unfolding transfer_admin
  transfer_admin-IsSafe admin id = search (safe_rules, rotate_all-IsSafe) depth 14

  record_dispute-IsSafe :
      (user : String) (dto : OpenDisputeDto) → IsSafe (record_dispute c user dto)
  unfolding record_dispute
  record_dispute-IsSafe user dto = search safe_rules depth 14

  pub open_dispute-IsSafe :
      (user : String) (dto : OpenDisputeDto) → IsSafe (open_dispute c user dto)
  unfolding open_dispute
  open_dispute-IsSafe user dto = search (safe_rules, record_dispute-IsSafe) depth 14

  resolve_escrow-IsSafe :
      (resolution : DisputeStatus) (id : String) → IsSafe (resolve_escrow c resolution id)
  unfolding resolve_escrow
  resolve_escrow-IsSafe DisputeStatus.resolved_client id = search safe_rules depth 14
  resolve_escrow-IsSafe DisputeStatus.resolved_freelancer id = search safe_rules depth 14
  resolve_escrow-IsSafe _ id = pure-IsSafe tt

  pub resolve_dispute-IsSafe :
      (admin id : String) (dto : ResolveDisputeDto) → IsSafe (resolve_dispute c admin id dto)
  unfolding resolve_dispute
  resolve_dispute-IsSafe admin id dto = search (safe_rules, resolve_escrow-IsSafe) depth 14

  pub set_under_review-IsSafe : (admin id : String) → IsSafe (set_under_review c admin id)
  unfolding set_under_review
  set_under_review-IsSafe admin id = search safe_rules depth 14

  find_and_verify_ownership-IsSafe :
      (user id : String) → IsSafe (find_and_verify_ownership c user id)
  unfolding find_and_verify_ownership
  find_and_verify_ownership-IsSafe user id = search safe_rules depth 14

  pub register_webhook-IsSafe :
      (user : String) (dto : RegisterWebhookDto) → IsSafe (Webhooks.register c user dto)
  unfolding Webhooks.register
  register_webhook-IsSafe user dto = search safe_rules depth 14

  pub update_endpoint-IsSafe :
      (user id : String) (dto : UpdateWebhookDto) → IsSafe (Webhooks.update_endpoint c user id dto)
  unfolding Webhooks.update_endpoint
  update_endpoint-IsSafe user id dto =
      search (safe_rules, find_and_verify_ownership-IsSafe) depth 14

  pub delete_endpoint-IsSafe : (user id : String) → IsSafe (Webhooks.delete_endpoint c user id)
  unfolding Webhooks.delete_endpoint
  delete_endpoint-IsSafe user id = search (safe_rules, find_and_verify_ownership-IsSafe) depth 14

  pub rotate_secret-IsSafe : (user id : String) → IsSafe (Webhooks.rotate_secret c user id)
  unfolding Webhooks.rotate_secret
  rotate_secret-IsSafe user id = search (safe_rules, find_and_verify_ownership-IsSafe) depth 14

  pub dispatch_event-IsSafe :
      (event : WebhookEvent) (payload : Payload) → IsSafe (Webhooks.dispatch_event c event payload)
  unfolding Webhooks.dispatch_event
  dispatch_event-IsSafe event payload = search (safe_rules, notify_all-IsSafe) depth 14

module _ (c : Client) (laws : IsLawful c) (crypto : Crypto) where
  generate_token_pair-IsSafe :
      (user email : String) (role : UserRole)
      → IsSafe (generate_token_pair c crypto user email role)
  unfolding generate_token_pair
  generate_token_pair-IsSafe user email role = search safe_rules depth 14

  create_user-IsSafe : (dto : RegisterDto) (hash : String) → IsSafe (create_user c crypto dto hash)
  unfolding create_user
  create_user-IsSafe dto hash = search safe_rules depth 14

  pub register-IsSafe : (dto : RegisterDto) → IsSafe (Auth.register c crypto dto)
  unfolding Auth.register
  register-IsSafe dto = search (safe_rules, create_user-IsSafe, generate_token_pair-IsSafe) depth 14

  pub login-IsSafe : (dto : LoginDto) → IsSafe (Auth.login c crypto dto)
  unfolding Auth.login
  login-IsSafe dto = search (safe_rules, generate_token_pair-IsSafe) depth 14

  pub refresh-IsSafe : (token : String) → IsSafe (Auth.refresh c crypto token)
  unfolding Auth.refresh
  refresh-IsSafe token = search (safe_rules, generate_token_pair-IsSafe) depth 14

module _ (c : Client) (laws : IsLawful c) where
  pub logout-IsSafe : (token : String) → IsSafe (Auth.logout c token)
  unfolding Auth.logout
  logout-IsSafe token = search safe_rules depth 14
