-- ===== src/Stellar/Service.antt =====
-- The entry points of the contract, as the worker's interface.
pub mod Laws
use Prim.Native.Char.{code}
use nexus_hub_contract.Prelude.{
  ℕ, String, ◌<>◌, Option, none, some, List, [], ◌∷◌, nat_eq, if◌then◌else◌,
}
use nexus_hub_contract.Prisma.Action.{Result, ok, throws, error}
use nexus_hub_contract.Worker.Chain.{Stellar, InitParams, OnChain}
use nexus_hub_contract.Stellar.Cipher.{Crypto, decrypt_secret}
use nexus_hub_contract.Stellar.Sdk.{Sdk, Arg, Simulation, simulation_error, simulated}
use nexus_hub_contract.Stellar.Invoke.{Config, invoke, ◌>>=◌}

-- `replace(/-/g, '')`
abbrev pub strip_hyphens : String → String
strip_hyphens String.[] = ""
strip_hyphens (String.◌∷◌ c s) =
    let rest = strip_hyphens s in if nat_eq (code c) 45 then rest else String.◌∷◌ c rest

module _ (sdk : Sdk) where
  abbrev pub escrow_id_to_bytes : String → List ℕ
  escrow_id_to_bytes escrow_id = sdk.from_hex (strip_hyphens escrow_id)

  module _ (config : Config sdk) where
    abbrev pub init_args : InitParams → sdk.Key → List Arg
    init_args p client =
        Arg.bytes (escrow_id_to_bytes p.escrow_id)
        ∷ Arg.address (sdk.public_key client)
        ∷ Arg.address p.freelancer_address
        ∷ Arg.address config.token_contract_id
        ∷ Arg.i128 p.amount
        ∷ Arg.bytes (sdk.from_hex p.milestone_hash)
        ∷ Arg.text p.description
        ∷ Arg.u32 p.dispute_delay
        ∷ Arg.u32 p.milestones_total
        ∷ Arg.u32 p.expiry_ledger
        ∷ []

    unfoldable pub init_escrow : InitParams → Result String
    init_escrow p = do
      client ← sdk.from_secret p.client_secret
      invoke sdk config "init_escrow" (init_args p client) (client ∷ [])

    unfoldable pub fund_escrow : String → String → Result String
    fund_escrow escrow_id client_secret = do
      client ← sdk.from_secret client_secret
      invoke sdk config "fund" (Arg.bytes (escrow_id_to_bytes escrow_id) ∷ []) (client ∷ [])

    unfoldable pub release_escrow : String → String → String → Result String
    release_escrow escrow_id client_secret milestone_hash = do
      client ← sdk.from_secret client_secret
      invoke sdk config "release"
          (Arg.bytes (escrow_id_to_bytes escrow_id)
            ∷ Arg.address (sdk.public_key client)
            ∷ Arg.bytes (sdk.from_hex milestone_hash)
            ∷ [])
          (client ∷ [])

    unfoldable pub refund_escrow : String → Result String
    refund_escrow escrow_id =
        invoke sdk config "refund" (Arg.bytes (escrow_id_to_bytes escrow_id) ∷ []) []

    unfoldable pub approve_release : String → String → Result String
    approve_release escrow_id approver_secret = do
      approver ← sdk.from_secret approver_secret
      invoke sdk config "approve_release"
          (Arg.bytes (escrow_id_to_bytes escrow_id) ∷ Arg.address (sdk.public_key approver) ∷ [])
          (approver ∷ [])

    unfoldable pub complete_milestone : String → String → Result String
    complete_milestone escrow_id freelancer_secret = do
      freelancer ← sdk.from_secret freelancer_secret
      invoke sdk config "complete_milestone" (Arg.bytes (escrow_id_to_bytes escrow_id) ∷ [])
          (freelancer ∷ [])

    unfoldable pub claim_expired : String → Result String
    claim_expired escrow_id =
        invoke sdk config "claim_expired" (Arg.bytes (escrow_id_to_bytes escrow_id) ∷ []) []

    -- A read: it is simulated, and never sent.
    unfoldable pub get_escrow_record : String → Result OnChain
    get_escrow_record escrow_id = do
      _ ← sdk.get_account (sdk.public_key config.admin_keypair)
      let result =
          sdk.simulate config.contract_id "get_escrow"
            (Arg.bytes (escrow_id_to_bytes escrow_id) ∷ [])
      elim result [
        | simulation_error e ↦ throws (error ("get_escrow simulation failed: " <> e))
        | simulated latest_ledger auth none ↦ throws (error "No result from get_escrow")
        | simulated latest_ledger auth (some value) ↦ ok (sdk.to_native value)
      ]

    unfoldable pub service : Crypto → (String → String) → Stellar
    service crypto sha256_hex = record {
      admin_public_key = sdk.public_key config.admin_keypair;
      decrypt_secret = decrypt_secret crypto;
      init_escrow = init_escrow;
      fund_escrow = fund_escrow;
      release_escrow = release_escrow;
      refund_escrow = refund_escrow;
      approve_release = approve_release;
      complete_milestone = complete_milestone;
      claim_expired = claim_expired;
      get_escrow_record = get_escrow_record;
      sha256_hex = sha256_hex;
    }
