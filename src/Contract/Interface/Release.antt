-- ===== src/Contract/Interface/Release.antt =====
-- The worker's release, which the contract has no entry point for.
use nexus_hub_contract.Prelude.{
  ℕ, String, ◌≡◌, ◌≢◌, refl, false, List, [], ◌∷◌, arith, inl, inr, String-discrete,
}
use nexus_hub_contract.Prisma.Client.{Client}
use nexus_hub_contract.Prisma.World.{World}
use nexus_hub_contract.Prisma.Action.{Exception, ok, throws, Result-cases}
use nexus_hub_contract.Stellar.Cipher.{Crypto}
use nexus_hub_contract.Stellar.Sdk.{Sdk, Arg}
use nexus_hub_contract.Stellar.Invoke.{Config, invoke}
use nexus_hub_contract.Stellar.Invoke.Laws.{returned-first}
use nexus_hub_contract.Stellar.Invoke.Authorization.{invoke-IsSent}
use nexus_hub_contract.Stellar.Service.{escrow_id_to_bytes, release_escrow, service}
use nexus_hub_contract.Worker.Chain.{Stellar}
use nexus_hub_contract.Worker.Settle
use nexus_hub_contract.Contract.Interface.{is_callable, Runs}

-- Three arguments, where release takes two.
release-is_callable :
    (id hash : List ℕ) (client : String)
    → is_callable "release" (Arg.bytes id ∷ Arg.address client ∷ Arg.bytes hash ∷ []) ≡ false
unfolding is_callable String-discrete
release-is_callable id hash client = refl

-- A worker whose calls of release always throw writes nothing when it handles a release.
module _ (c : Client) (stellar : Stellar) (x : (id secret hash : String) → Exception)
    (refuses : (id secret hash : String)
      → stellar.release_escrow id secret hash ≡ throws (x id secret hash)) where
  handler-same :
      (id client : String) (w : World c) → (Settle.release_escrow c stellar id client w).1 ≡ w
  unfolding Settle.release_escrow
  handler-same id client w = grind (arith, refuses)

  handler-throws :
      (id client : String) (w : World c) (r : String × String)
      → (Settle.release_escrow c stellar id client w).0 ≢ ok r
  unfolding Settle.release_escrow
  handler-throws id client w r = grind (arith, refuses)

module _ (sdk : Sdk) (config : Config sdk) (runs : Runs sdk config) where
  -- A call that does not fit never returns a hash.
  unfit-invoke :
      (method : String) (args : List Arg) (signers : List sdk.Key) (h : String)
      → is_callable method args ≡ false
      → invoke sdk config method args signers ≢ ok h
  unfit-invoke method args signers h unfit done =
      let (_, _, _, _, _, went, _, _, _) = invoke-IsSent sdk config method args signers h done in
      let (e, errs) = runs.unfit-fails method args unfit in ground arith

  release_escrow_refused :
      (id secret hash : String)
      → (x : Exception) × (release_escrow sdk config id secret hash ≡ throws x)
  unfolding release_escrow
  release_escrow_refused id secret hash =
      let args = λ (k : sdk.Key).
        Arg.bytes (escrow_id_to_bytes sdk id)
        ∷ Arg.address (sdk.public_key k)
        ∷ Arg.bytes (sdk.from_hex hash)
        ∷ [] in
      elim (Result-cases (release_escrow sdk config id secret hash)) [
        | inr stopped ↦ stopped
        | inl (h, done) ↦
            let (kp, _, sent) =
              returned-first (sdk.from_secret secret)
                (λ k. invoke sdk config "release" (args k) (k ∷ [])) done in
            absurd (
              unfit-invoke "release" (args kp) (kp ∷ []) h
                (release-is_callable (escrow_id_to_bytes sdk id) (sdk.from_hex hash)
                  (sdk.public_key kp))
                sent)
      ]

  refused :
      (crypto : Crypto) (sha256_hex : String → String) (id secret hash : String)
      → (service sdk config crypto sha256_hex).release_escrow id secret hash
        ≡ throws (release_escrow_refused id secret hash).0
  unfolding service
  refused crypto sha256_hex id secret hash = (release_escrow_refused id secret hash).1

  -- Against a network that runs this contract, a release job of the worker throws and leaves
  -- everything as it was, whatever the job names: the worker calls release with three arguments,
  -- and the contract's release has two parameters.
  pub release_stuck :
      (c : Client) (crypto : Crypto) (sha256_hex : String → String) (id client : String)
      (w : World c)
      → let (r, v) = Settle.release_escrow c (service sdk config crypto sha256_hex) id client w in
        ((x : Exception) × (r ≡ throws x)) × (v ≡ w)
  release_stuck c crypto sha256_hex id client w =
      let stellar = service sdk config crypto sha256_hex in
      let x = λ (i s h : String). (release_escrow_refused i s h).0 in
      let refuses = λ (i s h : String). refused crypto sha256_hex i s h in
      let same = handler-same c stellar x refuses id client w in
      elim (Result-cases (Settle.release_escrow c stellar id client w).0) [
        | inr stopped ↦ (stopped, same)
        | inl (r, done) ↦ absurd (handler-throws c stellar x refuses id client w r done)
      ]
