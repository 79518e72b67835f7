-- ===== src/Escrow/Queries.antt =====
-- The reads getEscrow, getMilestones and listEscrows, and transferAdmin. The rows of a page come in
-- the order of `findMany`, which the client chooses.
pub mod Laws
use nexus_hub_contract.Prelude.{
  ℕ, String, Bool, true, false, ◌&&◌, ◌||◌, not, Option, none, some, List, [], ◌∷◌, length, ◌==◌, ⊤,
  truthy, is_some, if◌then◌else◌,
}
use nexus_hub_contract.Prelude.Int.{ℤ, sub_ℕ}
use nexus_hub_contract.Model.Enums.{EscrowStatus}
use nexus_hub_contract.Model.Rows.{Escrow, Dispute, User, WebhookEndpoint, Json}
use nexus_hub_contract.Prisma.Client.{Client}
use nexus_hub_contract.Prisma.World.{escrows, users, disputes, webhook_endpoints}
use nexus_hub_contract.Prisma.Action.{
  Action, not_found, bad_request, ◌>>=◌, ◌>>◌, pure, throw_if, or_throw, find_unique, find_first,
  find_many, count, update, fresh_secret, audit,
}
use nexus_hub_contract.Paging.{Page, to_page}

-- `{ id, firstName, email }` of a related user.
pub record Contact : Type 0 where
  pub id : String
  pub first_name : String
  pub email : String

abbrev contact : Option User → Option Contact
contact none = none
contact (some u) = some (record { id = u.id; first_name = u.first_name; email = u.email })

-- What getEscrow selects.
pub record EscrowDetails : Type 0 where
  pub id : String
  pub status : EscrowStatus
  pub amount : ℤ
  pub fee : ℤ
  pub description : String
  pub milestone_title : Option String
  pub milestones_total : ℕ
  pub milestones_completed : ℕ
  pub expiry_ledger : ℕ
  pub client_approved : Bool
  pub freelancer_approved : Bool
  pub stellar_contract_id : Option String
  pub stellar_tx_hash : Option String
  pub funded_at : Option ℕ
  pub released_at : Option ℕ
  pub refunded_at : Option ℕ
  pub expired_at : Option ℕ
  pub created_at : ℕ
  pub client : Option Contact
  pub freelancer : Option Contact
  pub dispute : Option Dispute

abbrev pub details : Escrow → Option User → Option User → Option Dispute → EscrowDetails
details e client freelancer dispute = record {
  id = e.id;
  status = e.status;
  amount = e.amount;
  fee = e.fee;
  description = e.description;
  milestone_title = e.milestone_title;
  milestones_total = e.milestones_total;
  milestones_completed = e.milestones_completed;
  expiry_ledger = e.expiry_ledger;
  client_approved = e.client_approved;
  freelancer_approved = e.freelancer_approved;
  stellar_contract_id = e.stellar_contract_id;
  stellar_tx_hash = e.stellar_tx_hash;
  funded_at = e.funded_at;
  released_at = e.released_at;
  refunded_at = e.refunded_at;
  expired_at = e.expired_at;
  created_at = e.created_at;
  client = contact client;
  freelancer = contact freelancer;
  dispute = dispute;
}

-- What getMilestones returns.
pub record Milestones : Type 0 where
  pub escrow_id : String
  pub total : ℕ
  pub completed : ℕ
  pub remaining : ℤ
  pub status : EscrowStatus

-- `{ id: escrowId, OR: [{ clientId: userId }, { freelancerId: userId }] }`
abbrev pub is_own : String → String → Escrow → Bool
is_own user_id escrow_id e =
    e.id == escrow_id && (e.client_id == user_id || e.freelancer_id == user_id)

-- The `where` of listEscrows.
abbrev pub listed : String → String → Escrow → Bool
listed user_id role e =
    if role == "CLIENT"
    then e.client_id == user_id
    else if role == "FREELANCER"
    then e.freelancer_id == user_id
    else true

-- `{ userId: { in: affectedUserIds }, isActive: true }`
abbrev pub is_affected : Escrow → WebhookEndpoint → Bool
is_affected e ep = (ep.user_id == e.client_id || ep.user_id == e.freelancer_id) && ep.is_active

module _ (c : Client) where
  unfoldable pub get_escrow : String → String → Action c EscrowDetails
  get_escrow user_id escrow_id = do
    found ← find_first (escrows c) (is_own user_id escrow_id)
    e ← or_throw found (not_found "Escrow not found")
    client ← find_unique (users c) e.client_id
    freelancer ← find_unique (users c) e.freelancer_id
    dispute ← find_first (disputes c) λ d. d.escrow_id == e.id
    pure (details e client freelancer dispute)

  unfoldable pub get_milestones : String → String → Action c Milestones
  get_milestones user_id escrow_id = do
    found ← find_first (escrows c) (is_own user_id escrow_id)
    e ← or_throw found (not_found "Escrow not found")
    pure (record {
      escrow_id = e.id;
      total = e.milestones_total;
      completed = e.milestones_completed;
      remaining = sub_ℕ e.milestones_total e.milestones_completed;
      status = e.status;
    })

  unfoldable pub list_escrows : String → String → ℕ → ℕ → Action c (Page Escrow)
  list_escrows user_id role page limit = do
    all ← find_many (escrows c) (listed user_id role)
    total ← count (escrows c) (listed user_id role)
    pure (to_page all total page limit)

  -- One `update` for each endpoint, each with a secret of its own.
  unfoldable pub rotate_one : WebhookEndpoint → Action c ⊤
  rotate_one ep = do
    secret ← fresh_secret
    update (webhook_endpoints c) ep.id λ e. record e { secret = secret }
    pure tt

  unfoldable pub rotate_all : List WebhookEndpoint → Action c ⊤
  rotate_all [] = pure tt
  rotate_all (ep ∷ eps) = let rest = rotate_all eps in rotate_one ep >> rest

  -- The number of the endpoints whose secret was rotated.
  unfoldable pub transfer_admin : String → String → Action c ℕ
  unfolding rotate_all
  transfer_admin admin_id escrow_id = do
    found ← find_unique (escrows c) escrow_id
    escrow ← or_throw found (not_found "Escrow not found")
    throw_if (not (is_some (truthy escrow.stellar_contract_id)))
        (bad_request "Escrow has no on-chain contract yet")
    endpoints ← find_many (webhook_endpoints c) (is_affected escrow)
    rotate_all endpoints
    audit (record {
      user_id = some admin_id;
      action = "TRANSFER_ADMIN_INITIATED";
      entity = "Escrow";
      entity_id = some escrow_id;
      new_values =
          ("requestedBy", Json.text admin_id)
          ∷ ("webhookSecretsRotated", Json.number (length endpoints))
          ∷ [];
    })
    pure (length endpoints)
