-- ===== src/Escrow/Create.antt =====
-- createEscrow. The amount of a request is any decimal; the rows hold what the columns make of it.
pub mod Laws
pub mod Interleaving
use nexus_hub_contract.Prelude.{
  ℕ, ◌+◌, ◌*◌, ◌/◌, String, ◌<>◌, Bool, not, ◌&&◌, Option, none, some, [], ◌∷◌, ⊤, nat_eq, ◌==◌,
  or_default, truthy, is_some,
}
use nexus_hub_contract.Model.Decimal.{
  Decimal, hundredth, add, to_column, increment, decrement, lt, to_fixed_7, fits_decimal, fits_int,
}
use nexus_hub_contract.Model.Enums.{
  UserRole, user_role_index, TransactionType, TransactionStatus, EscrowStatus,
}
use nexus_hub_contract.Model.Rows.{Balance, Transaction, Escrow, Json}
use nexus_hub_contract.Model.Jobs.{JobOptions, fund_escrow}
use nexus_hub_contract.Prisma.Client.{Client}
use nexus_hub_contract.Prisma.World.{users, balances, transactions, escrows}
use nexus_hub_contract.Prisma.Action.{
  Action, error, not_found, bad_request, ◌>>=◌, ◌>>◌, pure, throw_if, or_throw, find_unique, create,
  update_many, transaction, fresh_id, new_date, audit, add_escrow_job,
}

-- CreateEscrowDto. `amount` is the number's shortest decimal.
pub record CreateEscrowDto : Type 0 where
  pub freelancer_id : String
  pub amount : Decimal
  pub description : String
  pub milestone_title : Option String
  pub milestone_hash : Option String
  pub milestones_total : Option ℕ
  pub expiry_ledger : Option ℕ

-- The stored transaction of an earlier request with the same key, or the new escrow.
pub data Created : Type 0 where
  existing : Transaction → Created
  created : Escrow → Created

-- `new Decimal(dto.amount)`
abbrev pub amount_of : CreateEscrowDto → Decimal
amount_of dto = dto.amount

-- `amount.mul(0.01)`
abbrev pub fee_of : Decimal → Decimal
fee_of amount = hundredth amount

-- `totalDebit`
unfoldable pub debit_of : CreateEscrowDto → Decimal
debit_of dto = add (amount_of dto) (fee_of (amount_of dto))

-- Every value that the transaction stores fits its column.
unfoldable pub fits_columns : CreateEscrowDto → Balance → Bool
fits_columns dto balance =
    fits_int (or_default dto.milestones_total 0)
    && fits_int (or_default dto.expiry_ledger 0)
    && fits_decimal (to_column (amount_of dto))
    && fits_decimal (to_column (fee_of (amount_of dto)))
    && fits_decimal (to_column (debit_of dto))
    && fits_decimal (decrement balance.available_amount (debit_of dto))
    && fits_decimal (increment balance.reserved_amount (amount_of dto))

-- `{ attempts: 3, backoff: { type: 'exponential', delay: 5000 } }`
abbrev pub escrow_job_options : JobOptions
escrow_job_options = record { attempts = some 3; delay = some 5000 }

-- `{ userId: clientId, version: balance.version }`
abbrev pub at_version : String → ℕ → Balance → Bool
at_version client_id version b = b.user_id == client_id && nat_eq b.version version

-- The `data` of the lock.
abbrev pub locked : Decimal → Decimal → Balance → Balance
locked total_debit amount b = record b {
  available_amount = decrement b.available_amount total_debit;
  reserved_amount = increment b.reserved_amount amount;
  version = b.version + 1;
}

-- The row of the new escrow, and that of the transaction that stands for the debit.
abbrev pub new_escrow : String → ℕ → String → CreateEscrowDto → Decimal → Decimal → Escrow
new_escrow id now client_id dto amount fee = record {
  id = id;
  client_id = client_id;
  freelancer_id = dto.freelancer_id;
  amount = to_column amount;
  fee = to_column fee;
  status = EscrowStatus.pending;
  description = dto.description;
  milestone_title = dto.milestone_title;
  milestone_hash = dto.milestone_hash;
  stellar_contract_id = none;
  stellar_tx_hash = none;
  milestones_total = or_default dto.milestones_total 0;
  milestones_completed = 0;
  expiry_ledger = or_default dto.expiry_ledger 0;
  client_approved = Bool.false;
  freelancer_approved = Bool.false;
  released_at = none;
  refunded_at = none;
  funded_at = none;
  expired_at = none;
  created_at = now;
}

abbrev pub lock_transaction :
    String → String → ℕ → String → CreateEscrowDto → Decimal → Decimal → Transaction
lock_transaction idempotency_key id now client_id dto total_debit fee = record {
  idempotency_key = idempotency_key;
  user_id = client_id;
  type = TransactionType.escrow_lock;
  status = TransactionStatus.pending;
  amount = to_column total_debit;
  fee = to_column fee;
  description = some ("Escrow created: " <> dto.description);
  reference = none;
  escrow_id = some id;
  created_at = now;
}

module _ (c : Client) where
  -- The three checks on the target user.
  unfoldable pub check_freelancer : String → Action c ⊤
  check_freelancer freelancer_id = do
    found ← find_unique (users c) freelancer_id
    freelancer ← or_throw found (not_found "Freelancer not found")
    throw_if (not (nat_eq (user_role_index freelancer.role) (user_role_index UserRole.freelancer)))
        (bad_request "Target user is not a freelancer")
    throw_if (not (is_some (truthy freelancer.stellar_public_key)))
        (bad_request "Freelancer has no Stellar address on file")

  -- The balance, if it covers the debit.
  unfoldable pub funded_balance : String → Decimal → Action c Balance
  funded_balance client_id total_debit = do
    found ← find_unique (balances c) client_id
    balance ← or_throw found (bad_request "Insufficient balance. Please top up first.")
    throw_if (lt balance.available_amount total_debit)
        (bad_request "Insufficient balance. Please top up first.")
    pure balance

  -- The optimistic lock: debit the row of the client that still has the version that was read.
  unfoldable pub lock_balance : String → Balance → Decimal → Decimal → Action c ⊤
  lock_balance client_id balance total_debit amount = do
    count ←
        update_many (balances c) (at_version client_id balance.version) (locked total_debit amount)
    throw_if (nat_eq count 0) (bad_request "Balance modified concurrently. Please retry.")

  -- The rows and the job of the new escrow.
  unfoldable pub record_escrow :
      String → CreateEscrowDto → String → Decimal → Decimal → Action c Escrow
  record_escrow client_id dto idempotency_key amount fee = do
    id ← fresh_id
    now ← new_date
    escrow ← create (escrows c) id (new_escrow id now client_id dto amount fee)
    create (transactions c) idempotency_key
        (lock_transaction idempotency_key id now client_id dto (debit_of dto) fee)
    audit (record {
      user_id = some client_id;
      action = "ESCROW_CREATED";
      entity = "Escrow";
      entity_id = some id;
      new_values =
          ("amount", Json.exact amount) ∷ ("freelancerId", Json.text dto.freelancer_id) ∷ [];
    })
    add_escrow_job (fund_escrow id client_id (to_fixed_7 amount)) escrow_job_options
    pure escrow

  -- The rest of the transaction, once the balance has been read. Where a value does not fit its
  -- column, the write that meets it throws, and the transaction is undone.
  unfoldable pub commit_escrow : String → CreateEscrowDto → String → Balance → Action c Created
  unfolding lock_balance record_escrow
  commit_escrow client_id dto idempotency_key balance = do
    let amount = amount_of dto
    lock_balance client_id balance (debit_of dto) amount
    throw_if (not (fits_columns dto balance)) (error "Value out of range for the column")
    escrow ← record_escrow client_id dto idempotency_key amount (fee_of amount)
    pure (created escrow)

  -- `if (existing) return`
  abbrev pub unless_existing : Action c Created → Option Transaction → Action c Created
  unless_existing fresh (some row) = pure (existing row)
  unless_existing fresh none = fresh

  unfoldable pub create_escrow : String → CreateEscrowDto → String → Action c Created
  unfolding check_freelancer funded_balance commit_escrow
  create_escrow client_id dto idempotency_key = do
    existing_row ← find_unique (transactions c) idempotency_key
    let total_debit = debit_of dto
    let fresh : Action c Created = transaction do
      check_freelancer dto.freelancer_id
      balance ← funded_balance client_id total_debit
      commit_escrow client_id dto idempotency_key balance
    unless_existing fresh existing_row
