-- ===== src/Stellar/Invoke.antt =====
-- `invoke` and waitForTransaction. What becomes of the entries that `invoke` sets on its copy of the
-- operation is for the SDK to say: `set_auth`.
pub mod Laws
pub mod Authorization
use nexus_hub_contract.Prelude.{
  ℕ, zero, suc, ◌+◌, String, ◌<>◌, Bool, not, Option, none, some, List, [], ◌∷◌, ⊤, ◌==◌,
  or_default, if◌then◌else◌,
}
use nexus_hub_contract.Prisma.Action.{Result, ok, throws, error}
use nexus_hub_contract.Stellar.Sdk.{
  Sdk, Arg, Envelope, Simulation, simulation_error, simulated, Sent, refused, sent,
  TransactionStatus, success, failed, pending,
}

infixl 5 ◌>>=◌
abbrev pub ◌>>=◌ : {A B : Type 0} → Result A → (A → Result B) → Result B
throws e >>= f = throws e
ok a >>= f = f a

-- The platform's own settings.
pub record Config (sdk : Sdk) : Type 0 where
  pub admin_keypair : sdk.Key
  pub contract_id : String
  pub token_contract_id : String

module _ (sdk : Sdk) where
  -- `signers.find((kp) => kp.publicKey() === entryAddress)`
  abbrev pub signer_of : List sdk.Key → String → Option sdk.Key
  signer_of [] address = none
  signer_of (kp ∷ kps) address =
      if sdk.public_key kp == address then some kp else signer_of kps address

  abbrev pub sign_entry : List sdk.Key → ℕ → sdk.Entry → Result sdk.Entry
  sign_entry signers valid_until entry = elim (sdk.entry_address entry) [
    | none ↦ ok entry
    | some address ↦ elim (signer_of signers address) [
      | none ↦ ok entry
      | some kp ↦ sdk.authorize_entry entry kp valid_until
    ]
  ]

  unfoldable pub sign_auth : List sdk.Key → ℕ → List sdk.Entry → Result (List sdk.Entry)
  sign_auth signers valid_until [] = ok []
  sign_auth signers valid_until (entry ∷ entries) =
      let rest = sign_auth signers valid_until entries in
      do signed ← sign_entry signers valid_until entry; others ← rest; ok (signed ∷ others)

  -- The admin signs the envelope, and the signers other than the admin.
  abbrev pub signatures : sdk.Key → List sdk.Key → List sdk.Key
  signatures admin [] = []
  signatures admin (kp ∷ kps) =
      let rest = signatures admin kps in
      if sdk.public_key kp == sdk.public_key admin then rest else kp ∷ rest

  -- The polls from the i-th on; `left` of the `attempts` are left.
  unfoldable pub poll : String → (attempts i left : ℕ) → Result String
  poll hash attempts i zero =
      throws
        (error ("Transaction " <> hash <> " timed out after " <> sdk.show_number attempts <> "s"))
  poll hash attempts i (suc left) =
      let later = poll hash attempts (suc i) left in
      do
        status ← sdk.get_transaction hash i
        elim status [
          | success ↦ ok hash
          | failed ↦ throws (error ("Transaction " <> hash <> " failed on-chain"))
          | pending ↦ later
        ]

  abbrev pub wait_for_transaction : String → Result String
  wait_for_transaction hash = poll hash 30 0 30

  -- What follows the answer of `sendTransaction`.
  unfoldable pub submitted : String → Sent → Result String
  unfolding poll
  submitted method (refused e) =
      throws (error ("Transaction " <> method <> " failed: " <> or_default e "unknown error"))
  submitted method (sent hash) = wait_for_transaction hash

  -- The assembled transaction, with the entries that it carries and its signatures.
  abbrev pub envelope :
      Config sdk → String → List Arg → List sdk.Key → List sdk.Entry → Envelope sdk.Key sdk.Entry
  envelope config method args signers carried = record {
    contract_id = config.contract_id;
    method = method;
    args = args;
    timeout = 30;
    auth = carried;
    signatures = config.admin_keypair ∷ signatures config.admin_keypair signers;
  }

  -- What follows the answer of `simulateTransaction`.
  unfoldable pub simulated_call :
      Config sdk → String → List Arg → List sdk.Key → Simulation sdk.Entry sdk.Raw → Result String
  unfolding sign_auth submitted
  simulated_call config method args signers (simulation_error e) =
      throws (error ("Simulation failed for " <> method <> ": " <> e))
  simulated_call config method args signers (simulated latest_ledger raw_auth value) = do
    signed_auth ← sign_auth signers (latest_ledger + 30) raw_auth
    carried ← sdk.set_auth raw_auth signed_auth
    result ← sdk.send (envelope config method args signers carried)
    submitted method result

  unfoldable pub invoke : Config sdk → String → List Arg → List sdk.Key → Result String
  unfolding simulated_call
  invoke config method args signers = do
    _ ← sdk.get_account (sdk.public_key config.admin_keypair)
    simulated_call config method args signers (sdk.simulate config.contract_id method args)
