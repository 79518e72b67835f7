-- ===== src/Worker/Chain.antt =====
-- What the processor asks of StellarService and of Node's `crypto`, and the answers that it gets
-- while one job runs. A call returns or throws; the answers are the environment's choice.
use nexus_hub_contract.Prelude.{ℕ, String, Bool, Option}
use nexus_hub_contract.Prelude.Int.{ℤ}
use nexus_hub_contract.Prisma.Client.{Client}
use nexus_hub_contract.Prisma.Action.{Action, Result}

-- The parameters of `initEscrow`; `amount` is in stroops.
pub record InitParams : Type 0 where
  pub escrow_id : String
  pub client_secret : String
  pub freelancer_address : String
  pub amount : ℤ
  pub milestone_hash : String
  pub description : String
  pub dispute_delay : ℕ
  pub milestones_total : ℕ
  pub expiry_ledger : ℕ

-- The fields that the processor reads of the raw record; `none` is `undefined`.
pub record OnChain : Type 0 where
  pub client_approved : Option Bool
  pub freelancer_approved : Option Bool
  pub milestones_completed : Option ℕ
  pub milestones_total : Option ℕ

pub record Stellar : Type 0 where
  pub admin_public_key : String
  pub decrypt_secret : (ciphertext : String) → Result String
  pub init_escrow : InitParams → Result String
  pub fund_escrow : (escrow_id client_secret : String) → Result String
  pub release_escrow : (escrow_id client_secret milestone_hash : String) → Result String
  pub refund_escrow : (escrow_id : String) → Result String
  pub approve_release : (escrow_id approver_secret : String) → Result String
  pub complete_milestone : (escrow_id freelancer_secret : String) → Result String
  pub claim_expired : (escrow_id : String) → Result String
  pub get_escrow_record : (escrow_id : String) → Result OnChain
  -- `createHash('sha256').update(s).digest('hex')`
  pub sha256_hex : String → String

abbrev pub call : {c : Client} {A : Type 0} → Result A → Action c A
call r w = (r, w)
