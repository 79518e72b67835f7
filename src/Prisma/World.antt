-- ===== src/Prisma/World.antt =====
-- The state that a call of a service starts from and leaves: the tables, and what has been added
-- to the queues. The time of a call is fixed while it runs.
use nexus_hub_contract.Prelude.{ℕ, List, String, Option}
use nexus_hub_contract.Model.Rows.{
  User, RefreshToken, Balance, Transaction, Escrow, Dispute, WebhookEndpoint, WebhookDelivery,
  AuditLog,
}
use nexus_hub_contract.Model.Jobs.{EscrowJob, WebhookJob, JobOptions}
use nexus_hub_contract.Prisma.Client.{Client}

-- A table for each model, keyed by the unique column that the program looks it up by.
pub record Db (c : Client) : Type 0 where
  pub users : c.Table User
  pub refresh_tokens : c.Table RefreshToken
  pub balances : c.Table Balance
  pub transactions : c.Table Transaction
  pub escrows : c.Table Escrow
  pub disputes : c.Table Dispute
  pub webhook_endpoints : c.Table WebhookEndpoint
  pub webhook_deliveries : c.Table WebhookDelivery
  pub audit_logs : List AuditLog

pub record World (c : Client) : Type 0 where
  pub db : Db c
  -- The jobs added to the queues, the newest first.
  pub escrow_queue : List (EscrowJob × JobOptions)
  pub webhook_queue : List (WebhookJob × JobOptions)
  pub now : ℕ
  -- How many UUIDs have been drawn.
  pub drawn : ℕ

-- Where a model's table stands: `prisma.escrow` and the like.
pub record Delegate (c : Client) (V : Type 0) : Type 0 where
  pub rows : Db c → c.Table V
  pub store : c.Table V → Db c → Db c

module _ (c : Client) where
  abbrev pub users : Delegate c User
  users = record { rows = λ d. d.users; store = λ t d. record d { users = t } }

  abbrev pub refresh_tokens : Delegate c RefreshToken
  refresh_tokens = record {
    rows = λ d. d.refresh_tokens;
    store = λ t d. record d { refresh_tokens = t };
  }

  abbrev pub balances : Delegate c Balance
  balances = record { rows = λ d. d.balances; store = λ t d. record d { balances = t } }

  abbrev pub transactions : Delegate c Transaction
  transactions = record { rows = λ d. d.transactions; store = λ t d. record d { transactions = t } }

  abbrev pub escrows : Delegate c Escrow
  escrows = record { rows = λ d. d.escrows; store = λ t d. record d { escrows = t } }

  abbrev pub disputes : Delegate c Dispute
  disputes = record { rows = λ d. d.disputes; store = λ t d. record d { disputes = t } }

  abbrev pub webhook_endpoints : Delegate c WebhookEndpoint
  webhook_endpoints = record {
    rows = λ d. d.webhook_endpoints;
    store = λ t d. record d { webhook_endpoints = t };
  }

  abbrev pub webhook_deliveries : Delegate c WebhookDelivery
  webhook_deliveries = record {
    rows = λ d. d.webhook_deliveries;
    store = λ t d. record d { webhook_deliveries = t };
  }

-- What is stored under a key.
module _ {c : Client} (w : World c) where
  abbrev pub user_of : String → Option User
  user_of k = c.find_unique User k w.db.users

  abbrev pub balance_of : String → Option Balance
  balance_of k = c.find_unique Balance k w.db.balances

  abbrev pub transaction_of : String → Option Transaction
  transaction_of k = c.find_unique Transaction k w.db.transactions

  abbrev pub escrow_of : String → Option Escrow
  escrow_of k = c.find_unique Escrow k w.db.escrows

  abbrev pub dispute_of : String → Option Dispute
  dispute_of k = c.find_unique Dispute k w.db.disputes

  abbrev pub endpoint_of : String → Option WebhookEndpoint
  endpoint_of k = c.find_unique WebhookEndpoint k w.db.webhook_endpoints

  abbrev pub delivery_of : String → Option WebhookDelivery
  delivery_of k = c.find_unique WebhookDelivery k w.db.webhook_deliveries

  abbrev pub token_of : String → Option RefreshToken
  token_of k = c.find_unique RefreshToken k w.db.refresh_tokens
