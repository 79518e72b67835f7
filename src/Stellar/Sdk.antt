-- ===== src/Stellar/Sdk.antt =====
-- What StellarService asks of @stellar/stellar-sdk, and the answers that it gets during one call.
use nexus_hub_contract.Prelude.{ℕ, String, Option, List, ⊤}
use nexus_hub_contract.Prelude.Int.{ℤ}
use nexus_hub_contract.Prisma.Action.{Result}
use nexus_hub_contract.Worker.Chain.{OnChain}

-- An `xdr.ScVal`.
pub data Arg : Type 0 where
  bytes : List ℕ → Arg
  address : String → Arg
  i128 : ℤ → Arg
  text : String → Arg
  u32 : ℕ → Arg

-- The status of `getTransaction`: `NOT_FOUND` is `pending`.
pub data TransactionStatus : Type 0 where
  success failed pending : TransactionStatus

-- A transaction as it is sent: the call, the entries of its authorization, and who signed it.
pub record Envelope (Key Entry : Type 0) : Type 0 where
  pub contract_id : String
  pub method : String
  pub args : List Arg
  pub timeout : ℕ
  pub auth : List Entry
  pub signatures : List Key

-- What a simulation gives: its error, or the ledger, the entries to sign and the value.
pub data Simulation (Entry Raw : Type 0) : Type 0 where
  simulation_error : String → Simulation Entry Raw
  simulated : (latest_ledger : ℕ) (auth : List Entry) (value : Option Raw) → Simulation Entry Raw

-- The answer of `sendTransaction`: the text of its error result, or the hash.
pub data Sent : Type 0 where
  refused : Option String → Sent
  sent : (hash : String) → Sent

pub record Sdk : Type 1 where
  pub Key : Type 0
  pub Entry : Type 0
  pub Raw : Type 0
  -- `Keypair.fromSecret`, `publicKey()`
  pub from_secret : String → Result Key
  pub public_key : Key → String
  -- `server.getAccount`
  pub get_account : String → Result ⊤
  pub simulate : (contract_id method : String) → List Arg → Simulation Entry Raw
  -- The address of an entry's credentials, where they are address credentials.
  pub entry_address : Entry → Option String
  -- `authorizeEntry(entry, signer, validUntil)`
  pub authorize_entry : Entry → Key → ℕ → Result Entry
  -- `Operation.toXDR` and `fromXDR` of the decoded `operations[0]` of the assembled transaction, the
  -- copy put in its place, and `auth` set on that copy: whether this throws, and the entries that
  -- the transaction then carries when it is signed and sent. Of the simulation's entries, and those
  -- that are set.
  pub set_auth : (simulated entries : List Entry) → Result (List Entry)
  pub send : Envelope Key Entry → Result Sent
  -- `getTransaction(hash)`, the n-th time.
  pub get_transaction : String → ℕ → Result TransactionStatus
  -- `scValToNative`
  pub to_native : Raw → OnChain
  -- `Buffer.from(text, 'hex')`
  pub from_hex : String → List ℕ
  -- `${n}`
  pub show_number : ℕ → String
