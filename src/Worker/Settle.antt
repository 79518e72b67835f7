-- ===== src/Worker/Settle.antt =====
-- releaseEscrow, refundEscrow and claimExpired: each confirms on the chain first, then records the
-- outcome in one transaction of the database.
pub mod Payment
pub mod Once
use nexus_hub_contract.Prelude.{String, ◌<>◌, Option, none, some, [], ◌∷◌, ⊤, or_default, truthy}
use nexus_hub_contract.Prelude.Int.{pos, ◌+ℤ◌, ◌-ℤ◌}
use nexus_hub_contract.Model.Enums.{TransactionType, TransactionStatus, EscrowStatus, WebhookEvent}
use nexus_hub_contract.Model.Rows.{Escrow, Json}
use nexus_hub_contract.Prisma.Client.{Client}
use nexus_hub_contract.Prisma.World.{users, balances, transactions, escrows}
use nexus_hub_contract.Prisma.Action.{
  Action, error, ◌>>=◌, ◌>>◌, pure, or_throw, find_unique, create, update, transaction, new_date,
  audit,
}
use nexus_hub_contract.Worker.Chain.{Stellar, call}
use nexus_hub_contract.Worker.Notify.{fire_webhook}
use nexus_hub_contract.Worker.Fund.{secret_of}

abbrev text_or_missing : Option String → Json
text_or_missing none = Json.missing
text_or_missing (some s) = Json.text s

-- `escrow?.stellarContractId`
abbrev pub contract_of : Option Escrow → Option Escrow
contract_of none = none
contract_of (some e) = elim (truthy e.stellar_contract_id) [ none ↦ none | some _ ↦ some e ]

module _ (c : Client) where
  -- `escrow.findUnique`, and the check that every handler but fundEscrow makes.
  abbrev pub contracted : String → Action c Escrow
  contracted escrow_id = do
    found ← find_unique (escrows c) escrow_id
    or_throw (contract_of found) (error "No Stellar contract for this escrow")

  -- `availableAmount: { increment: escrow.amount }` for the freelancer, and
  -- `reservedAmount: { decrement: escrow.amount }` for the client
  unfoldable pub pay_freelancer : Escrow → Action c ⊤
  pay_freelancer escrow = do
    update (balances c) escrow.freelancer_id
        λ b. record b { available_amount = b.available_amount +ℤ escrow.amount }
    update (balances c) escrow.client_id
        λ b. record b { reserved_amount = b.reserved_amount -ℤ escrow.amount }
    pure tt

  -- Both changes at the client's row.
  unfoldable pub return_to_client : Escrow → Action c ⊤
  return_to_client escrow = do
    update (balances c) escrow.client_id λ b. record b {
      available_amount = b.available_amount +ℤ escrow.amount;
      reserved_amount = b.reserved_amount -ℤ escrow.amount;
    }
    pure tt

  -- A completed transaction that names the escrow and the hash.
  unfoldable pub book :
      TransactionType → String → String → String → Escrow → String → String → Action c ⊤
  book type key user_id description escrow escrow_id tx_hash = do
    now ← new_date
    create (transactions c) key (record {
      idempotency_key = key;
      user_id = user_id;
      type = type;
      status = TransactionStatus.completed;
      amount = escrow.amount;
      fee = pos 0;
      description = some description;
      reference = some tx_hash;
      escrow_id = some escrow_id;
      created_at = now;
    })
    pure tt

  unfoldable pub record_release : Escrow → String → String → String → Action c ⊤
  unfolding pay_freelancer book
  record_release escrow escrow_id client_id tx_hash = transaction do
    now ← new_date
    update (escrows c) escrow_id λ e. record e {
      status = EscrowStatus.released;
      released_at = some now;
      stellar_tx_hash = some tx_hash;
    }
    pay_freelancer escrow
    book TransactionType.escrow_release ("release-" <> escrow_id) escrow.freelancer_id
        ("Escrow released: " <> escrow.description) escrow escrow_id tx_hash
    audit (record {
      user_id = some client_id;
      action = "ESCROW_RELEASED";
      entity = "Escrow";
      entity_id = some escrow_id;
      new_values = ("txHash", Json.text tx_hash) ∷ [];
    })

  unfoldable pub record_refund : Escrow → String → String → String → String → Action c ⊤
  unfolding return_to_client book
  record_refund escrow escrow_id admin_id reason tx_hash = transaction do
    now ← new_date
    update (escrows c) escrow_id λ e. record e {
      status = EscrowStatus.refunded;
      refunded_at = some now;
      stellar_tx_hash = some tx_hash;
    }
    return_to_client escrow
    book TransactionType.escrow_refund ("refund-" <> escrow_id) escrow.client_id
        ("Escrow refunded: " <> reason) escrow escrow_id tx_hash
    audit (record {
      user_id = some admin_id;
      action = "ESCROW_REFUNDED";
      entity = "Escrow";
      entity_id = some escrow_id;
      new_values = ("txHash", Json.text tx_hash) ∷ ("reason", Json.text reason) ∷ [];
    })

  unfoldable pub record_expiry : Escrow → String → Option String → String → Action c ⊤
  unfolding return_to_client book
  record_expiry escrow escrow_id triggered_by tx_hash = transaction do
    now ← new_date
    update (escrows c) escrow_id λ e. record e {
      status = EscrowStatus.refunded;
      refunded_at = some now;
      expired_at = some now;
      stellar_tx_hash = some tx_hash;
    }
    return_to_client escrow
    book TransactionType.escrow_refund ("expired-" <> escrow_id) escrow.client_id
        ("Escrow expired and reclaimed: " <> escrow.description) escrow escrow_id tx_hash
    audit (record {
      user_id = triggered_by;
      action = "ESCROW_EXPIRED";
      entity = "Escrow";
      entity_id = some escrow_id;
      new_values =
          ("txHash", Json.text tx_hash) ∷ ("triggeredBy", text_or_missing triggered_by) ∷ [];
    })

module _ (c : Client) (stellar : Stellar) where
  unfoldable pub release_escrow : String → String → Action c (String × String)
  unfolding record_release
  release_escrow escrow_id client_id = do
    found ← find_unique (escrows c) escrow_id
    client ← find_unique (users c) client_id
    escrow ← or_throw (contract_of found) (error "No Stellar contract for this escrow")
    encrypted ← or_throw (secret_of client) (error "Client has no Stellar key")
    client_secret ← call (stellar.decrypt_secret encrypted)
    let milestone_hash = or_default escrow.milestone_hash (stellar.sha256_hex escrow_id)
    tx_hash ← call (stellar.release_escrow escrow_id client_secret milestone_hash)
    record_release c escrow escrow_id client_id tx_hash
    fire_webhook c WebhookEvent.escrow_released
        (("escrowId", Json.text escrow_id)
          ∷ ("freelancerId", Json.text escrow.freelancer_id)
          ∷ ("amount", Json.decimal escrow.amount)
          ∷ ("txHash", Json.text tx_hash)
          ∷ [])
        escrow.freelancer_id
    pure (escrow_id, tx_hash)

  unfoldable pub refund_escrow : String → String → String → Action c (String × String)
  unfolding record_refund
  refund_escrow escrow_id admin_id reason = do
    escrow ← contracted c escrow_id
    tx_hash ← call (stellar.refund_escrow escrow_id)
    record_refund c escrow escrow_id admin_id reason tx_hash
    fire_webhook c WebhookEvent.escrow_refunded
        (("escrowId", Json.text escrow_id)
          ∷ ("clientId", Json.text escrow.client_id)
          ∷ ("amount", Json.decimal escrow.amount)
          ∷ ("txHash", Json.text tx_hash)
          ∷ [])
        escrow.client_id
    pure (escrow_id, tx_hash)

  unfoldable pub claim_expired : String → Option String → Action c (String × String)
  unfolding record_expiry
  claim_expired escrow_id triggered_by = do
    escrow ← contracted c escrow_id
    tx_hash ← call (stellar.claim_expired escrow_id)
    record_expiry c escrow escrow_id triggered_by tx_hash
    fire_webhook c WebhookEvent.escrow_expired
        (("escrowId", Json.text escrow_id)
          ∷ ("clientId", Json.text escrow.client_id)
          ∷ ("amount", Json.decimal escrow.amount)
          ∷ ("txHash", Json.text tx_hash)
          ∷ [])
        escrow.client_id
    pure (escrow_id, tx_hash)
