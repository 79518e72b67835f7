-- ===== src/Contract/Interface/Requests.antt =====
-- Every transaction that the worker asks for, against the entry points.
use nexus_hub_contract.Prelude.{
  String, ◌≡◌, refl, Bool, true, false, not, Option, none, some, List, [], ◌∷◌, String-discrete,
}
use nexus_hub_contract.Prisma.Action.{Result}
use nexus_hub_contract.Stellar.Cipher.{Crypto}
use nexus_hub_contract.Stellar.Sdk.{Sdk, Arg}
use nexus_hub_contract.Stellar.Invoke.{Config, invoke, ◌>>=◌}
use nexus_hub_contract.Stellar.Service.{
  init_escrow, fund_escrow, release_escrow, refund_escrow, approve_release, complete_milestone,
  claim_expired, service, escrow_id_to_bytes, init_args,
}
use nexus_hub_contract.Stellar.Service.Laws.{Call, answer}
use nexus_hub_contract.Contract.Interface.{is_callable}

-- The entry point that a call is for.
abbrev pub method_of : Call → String
method_of (Call.init p) = "init_escrow"
method_of (Call.fund id secret) = "fund"
method_of (Call.release id secret hash) = "release"
method_of (Call.refund id) = "refund"
method_of (Call.approve id secret) = "approve_release"
method_of (Call.complete id secret) = "complete_milestone"
method_of (Call.claim id) = "claim_expired"

abbrev pub is_release : Call → Bool
is_release (Call.release id secret hash) = true
is_release _ = false

-- The secret of the party who signs; the administrator alone signs a refund or a claim.
abbrev pub secret_of : Call → Option String
secret_of (Call.init p) = some p.client_secret
secret_of (Call.fund id secret) = some secret
secret_of (Call.release id secret hash) = some secret
secret_of (Call.refund id) = none
secret_of (Call.approve id secret) = some secret
secret_of (Call.complete id secret) = some secret
secret_of (Call.claim id) = none

module _ (sdk : Sdk) (config : Config sdk) where
  -- The arguments, of which some name the key that signs.
  abbrev pub args_of : Call → sdk.Key → List Arg
  args_of (Call.init p) k = init_args sdk config p k
  args_of (Call.fund id secret) k = Arg.bytes (escrow_id_to_bytes sdk id) ∷ []
  args_of (Call.release id secret hash) k =
      Arg.bytes (escrow_id_to_bytes sdk id)
      ∷ Arg.address (sdk.public_key k)
      ∷ Arg.bytes (sdk.from_hex hash)
      ∷ []
  args_of (Call.refund id) k = Arg.bytes (escrow_id_to_bytes sdk id) ∷ []
  args_of (Call.approve id secret) k =
      Arg.bytes (escrow_id_to_bytes sdk id) ∷ Arg.address (sdk.public_key k) ∷ []
  args_of (Call.complete id secret) k = Arg.bytes (escrow_id_to_bytes sdk id) ∷ []
  args_of (Call.claim id) k = Arg.bytes (escrow_id_to_bytes sdk id) ∷ []

  abbrev pub requested : Call → Option String → Result String
  requested call none = invoke sdk config (method_of call) (args_of call config.admin_keypair) []
  requested call (some secret) =
      sdk.from_secret secret >>= λ k. invoke sdk config (method_of call) (args_of call k) (k ∷ [])

  answer-requested :
      (crypto : Crypto) (sha256_hex : String → String) (call : Call)
      → answer (service sdk config crypto sha256_hex) call ≡ requested call (secret_of call)
  unfolding service init_escrow fund_escrow release_escrow refund_escrow approve_release
      complete_milestone claim_expired
  answer-requested crypto sha (Call.init p) = refl
  answer-requested crypto sha (Call.fund id secret) = refl
  answer-requested crypto sha (Call.release id secret hash) = refl
  answer-requested crypto sha (Call.refund id) = refl
  answer-requested crypto sha (Call.approve id secret) = refl
  answer-requested crypto sha (Call.complete id secret) = refl
  answer-requested crypto sha (Call.claim id) = refl

  args_of-is_callable :
      (call : Call) (k : sdk.Key)
      → is_callable (method_of call) (args_of call k) ≡ not (is_release call)
  unfolding is_callable String-discrete
  args_of-is_callable (Call.init p) k = refl
  args_of-is_callable (Call.fund id secret) k = refl
  args_of-is_callable (Call.release id secret hash) k = refl
  args_of-is_callable (Call.refund id) k = refl
  args_of-is_callable (Call.approve id secret) k = refl
  args_of-is_callable (Call.complete id secret) k = refl
  args_of-is_callable (Call.claim id) k = refl

  -- Each call of the worker's chain interface invokes the entry point of its name with the key of
  -- its party, or with none; the arguments, whoever signs, fit the entry point for every call but a
  -- release.
  pub requests_fit :
      (crypto : Crypto) (sha256_hex : String → String) (call : Call)
      → (answer (service sdk config crypto sha256_hex) call ≡ requested call (secret_of call))
        × ((k : sdk.Key) → is_callable (method_of call) (args_of call k) ≡ not (is_release call))
  requests_fit crypto sha call = (answer-requested crypto sha call, args_of-is_callable call)
