-- ===== src/Worker/Fund.antt =====
-- fundEscrow and handleFundFailure.
pub mod Stroops
pub mod Failure
pub mod Return
pub mod Outcome
use nexus_hub_contract.Prelude.{
  String, ◌<>◌, Bool, not, ◌&&◌, Option, none, some, [], ◌∷◌, ⊤, nat_eq, ◌==◌, or_default, truthy,
  is_some,
}
use nexus_hub_contract.Prelude.Int.{ℤ, ◌+ℤ◌, ◌-ℤ◌}
use nexus_hub_contract.Model.Enums.{
  TransactionType, transaction_type_index, TransactionStatus, transaction_status_index,
  EscrowStatus, WebhookEvent,
}
use nexus_hub_contract.Model.Rows.{Escrow, User, Transaction, Json}
use nexus_hub_contract.Prisma.Client.{Client}
use nexus_hub_contract.Prisma.World.{users, balances, transactions, escrows}
use nexus_hub_contract.Prisma.Action.{
  Action, error, ◌>>=◌, ◌>>◌, pure, or_throw, when, find_unique, update, update_many, transaction,
  on_throw, new_date, audit,
}
use nexus_hub_contract.Worker.Chain.{Stellar, call}
use nexus_hub_contract.Worker.Notify.{fire_webhook}
use nexus_hub_contract.Worker.Fund.Stroops.{stroops_of}

-- `client?.stellarSecretEncrypted`, `freelancer?.stellarPublicKey`
abbrev pub secret_of : Option User → Option String
secret_of none = none
secret_of (some u) = truthy u.stellar_secret_encrypted

abbrev pub address_of : Option User → Option String
address_of none = none
address_of (some u) = truthy u.stellar_public_key

abbrev pub is_escrow : Option String → String → Bool
is_escrow none escrow_id = Bool.false
is_escrow (some id) escrow_id = id == escrow_id

-- `{ escrowId, type: 'ESCROW_LOCK', status: 'PENDING' }`
abbrev pub is_pending_lock : String → Transaction → Bool
is_pending_lock escrow_id t =
    is_escrow t.escrow_id escrow_id
    && nat_eq (transaction_type_index t.type) (transaction_type_index TransactionType.escrow_lock)
    && nat_eq (transaction_status_index t.status)
        (transaction_status_index TransactionStatus.pending)

module _ (c : Client) where
  -- The third lookup: the freelancer of the escrow, if it is found.
  abbrev pub freelancer_of : Option Escrow → Action c (Option User)
  freelancer_of none = pure none
  freelancer_of (some e) = find_unique (users c) e.freelancer_id

  -- The transaction of handleFundFailure, where the escrow is found.
  abbrev pub cancel_escrow : String → String → Option Escrow → Action c ⊤
  cancel_escrow escrow_id client_id none = pure tt
  cancel_escrow escrow_id client_id (some escrow) = transaction do
    update (balances c) client_id λ b. record b {
      available_amount = b.available_amount +ℤ (escrow.amount +ℤ escrow.fee);
      reserved_amount = b.reserved_amount -ℤ escrow.amount;
    }
    update (escrows c) escrow_id λ e. record e { status = EscrowStatus.cancelled }
    pure tt

module _ (c : Client) (stellar : Stellar) where
  -- The writes after the chain has confirmed.
  unfoldable pub record_funding : String → String → ℤ → String → Action c ⊤
  record_funding escrow_id client_id amount tx_hash = transaction do
    now ← new_date
    update (escrows c) escrow_id λ e. record e {
      status = EscrowStatus.funded;
      stellar_contract_id = some (stellar.admin_public_key <> "_" <> escrow_id);
      stellar_tx_hash = some tx_hash;
      funded_at = some now;
    }
    update_many (transactions c) (is_pending_lock escrow_id)
        λ t. record t { status = TransactionStatus.completed; reference = some tx_hash }
    audit (record {
      user_id = some client_id;
      action = "ESCROW_FUNDED";
      entity = "Escrow";
      entity_id = some escrow_id;
      new_values = ("txHash", Json.text tx_hash) ∷ ("amount", Json.decimal amount) ∷ [];
    })

  -- The body of the `try`.
  unfoldable pub try_fund : String → String → ℤ → Action c (String × String)
  unfolding record_funding
  try_fund escrow_id client_id amount = do
    found ← find_unique (escrows c) escrow_id
    client ← find_unique (users c) client_id
    freelancer ← freelancer_of c found
    escrow ← or_throw found (error ("Escrow " <> escrow_id <> " not found"))
    encrypted ← or_throw (secret_of client) (error "Client has no Stellar key")
    address ← or_throw (address_of freelancer) (error "Freelancer has no Stellar address")
    client_secret ← call (stellar.decrypt_secret encrypted)
    let milestone_hash = or_default escrow.milestone_hash (stellar.sha256_hex escrow_id)
    when (not (is_some (truthy escrow.stellar_contract_id))) do
      call (
          stellar.init_escrow (record {
            escrow_id = escrow_id;
            client_secret = client_secret;
            freelancer_address = address;
            amount = stroops_of amount;
            milestone_hash = milestone_hash;
            description = escrow.description;
            dispute_delay = 0;
            milestones_total = escrow.milestones_total;
            expiry_ledger = escrow.expiry_ledger;
          }))
      pure tt
    tx_hash ← call (stellar.fund_escrow escrow_id client_secret)
    record_funding escrow_id client_id amount tx_hash
    fire_webhook c WebhookEvent.escrow_funded
        (("escrowId", Json.text escrow_id)
          ∷ ("txHash", Json.text tx_hash)
          ∷ ("amount", Json.decimal amount)
          ∷ [])
        client_id
    pure (escrow_id, tx_hash)

module _ (c : Client) where
  unfoldable pub handle_fund_failure : String → String → Action c ⊤
  handle_fund_failure escrow_id client_id = do
    update_many (transactions c) (is_pending_lock escrow_id)
        λ t. record t { status = TransactionStatus.failed }
    found ← find_unique (escrows c) escrow_id
    cancel_escrow c escrow_id client_id found

module _ (c : Client) (stellar : Stellar) where
  unfoldable pub fund_escrow : String → String → ℤ → Action c (String × String)
  fund_escrow escrow_id client_id amount =
      on_throw (try_fund c stellar escrow_id client_id amount)
        (handle_fund_failure c escrow_id client_id)
