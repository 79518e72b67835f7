-- ===== src/Worker/Sync.antt =====
-- approveRelease and completeMilestone: each calls the contract, reads its record back, and copies
-- the approvals or the milestone count into the database.
pub mod Laws
use nexus_hub_contract.Prelude.{
  ℕ, if◌then◌else◌, String, ◌<>◌, Bool, false, ◌&&◌, Option, none, some, [], ◌∷◌, ⊤, or_default,
}
use nexus_hub_contract.Model.Enums.{TransactionType, EscrowStatus, WebhookEvent}
use nexus_hub_contract.Model.Rows.{Escrow, Json}
use nexus_hub_contract.Prisma.Client.{Client}
use nexus_hub_contract.Prisma.World.{users, escrows}
use nexus_hub_contract.Prisma.Action.{
  Action, error, ◌>>=◌, ◌>>◌, pure, or_throw, when, find_unique, update, transaction, new_date,
  audit,
}
use nexus_hub_contract.Worker.Chain.{Stellar, call}
use nexus_hub_contract.Worker.Notify.{fire_webhook}
use nexus_hub_contract.Worker.Fund.{secret_of}
use nexus_hub_contract.Worker.Settle.{contract_of, pay_freelancer, book}
use nexus_hub_contract.Model.Jobs.{Party}

-- `Boolean(x)`
abbrev pub to_boolean : Option Bool → Bool
to_boolean none = false
to_boolean (some b) = b

abbrev pub party_text : Party → String
party_text Party.client = "CLIENT"
party_text Party.freelancer = "FREELANCER"

module _ (c : Client) where
  -- The transaction of approveRelease: the flags, and the payment once both have approved.
  unfoldable pub record_approval :
      Escrow
      → String
      → String
      → Party
      → (client_approved freelancer_approved : Bool) → String
      → Action c ⊤
  unfolding pay_freelancer book
  record_approval escrow escrow_id approver_id role client_approved freelancer_approved tx_hash =
      transaction do
        let both_approved = client_approved && freelancer_approved
        now ← new_date
        update (escrows c) escrow_id λ e.
            let flagged = record e {
              client_approved = client_approved;
              freelancer_approved = freelancer_approved;
            } in
            if both_approved
            then record flagged {
              status = EscrowStatus.released;
              released_at = some now;
              stellar_tx_hash = some tx_hash;
            }
            else flagged
        when both_approved do
          pay_freelancer c escrow
          book c TransactionType.escrow_release ("approve-release-" <> escrow_id)
              escrow.freelancer_id ("2-of-2 approved release: " <> escrow.description) escrow
              escrow_id tx_hash
        audit (record {
          user_id = some approver_id;
          action = "APPROVE_RELEASE";
          entity = "Escrow";
          entity_id = some escrow_id;
          new_values =
              ("role", Json.text (party_text role))
              ∷ ("clientApproved", Json.flag client_approved)
              ∷ ("freelancerApproved", Json.flag freelancer_approved)
              ∷ ("txHash", Json.text tx_hash)
              ∷ [];
        })

  unfoldable pub record_milestone : String → String → ℕ → ℕ → String → Action c ⊤
  record_milestone escrow_id freelancer_id milestones_completed milestones_total tx_hash =
      transaction do
        update (escrows c) escrow_id λ e. record e { milestones_completed = milestones_completed }
        audit (record {
          user_id = some freelancer_id;
          action = "MILESTONE_COMPLETED";
          entity = "Escrow";
          entity_id = some escrow_id;
          new_values =
              ("milestonesCompleted", Json.number milestones_completed)
              ∷ ("milestonesTotal", Json.number milestones_total)
              ∷ ("txHash", Json.text tx_hash)
              ∷ [];
        })

module _ (c : Client) (stellar : Stellar) where
  -- The result: the hash and the two flags.
  unfoldable pub approve_release :
      String → String → Party → Action c (String × String × Bool × Bool)
  unfolding record_approval
  approve_release escrow_id approver_id role = do
    found ← find_unique (escrows c) escrow_id
    approver ← find_unique (users c) approver_id
    escrow ← or_throw (contract_of found) (error "No Stellar contract for this escrow")
    encrypted ← or_throw (secret_of approver) (error "Approver has no Stellar key")
    approver_secret ← call (stellar.decrypt_secret encrypted)
    tx_hash ← call (stellar.approve_release escrow_id approver_secret)
    on_chain ← call (stellar.get_escrow_record escrow_id)
    let client_approved = to_boolean on_chain.client_approved
    let freelancer_approved = to_boolean on_chain.freelancer_approved
    record_approval c escrow escrow_id approver_id role client_approved freelancer_approved tx_hash
    when (client_approved && freelancer_approved) (
        fire_webhook c WebhookEvent.escrow_released
          (("escrowId", Json.text escrow_id)
            ∷ ("freelancerId", Json.text escrow.freelancer_id)
            ∷ ("amount", Json.decimal escrow.amount)
            ∷ ("txHash", Json.text tx_hash)
            ∷ ("via", Json.text "2-of-2")
            ∷ [])
          escrow.freelancer_id)
    pure (escrow_id, tx_hash, client_approved, freelancer_approved)

  unfoldable pub complete_milestone : String → String → Action c (String × String × ℕ × ℕ)
  unfolding record_milestone
  complete_milestone escrow_id freelancer_id = do
    found ← find_unique (escrows c) escrow_id
    freelancer ← find_unique (users c) freelancer_id
    escrow ← or_throw (contract_of found) (error "No Stellar contract for this escrow")
    encrypted ← or_throw (secret_of freelancer) (error "Freelancer has no Stellar key")
    freelancer_secret ← call (stellar.decrypt_secret encrypted)
    tx_hash ← call (stellar.complete_milestone escrow_id freelancer_secret)
    on_chain ← call (stellar.get_escrow_record escrow_id)
    let milestones_completed = or_default on_chain.milestones_completed 0
    let milestones_total = or_default on_chain.milestones_total escrow.milestones_total
    record_milestone c escrow_id freelancer_id milestones_completed milestones_total tx_hash
    fire_webhook c WebhookEvent.milestone_completed
        (("escrowId", Json.text escrow_id)
          ∷ ("milestonesCompleted", Json.number milestones_completed)
          ∷ ("milestonesTotal", Json.number milestones_total)
          ∷ ("txHash", Json.text tx_hash)
          ∷ [])
        escrow.client_id
    pure (escrow_id, tx_hash, milestones_completed, milestones_total)
