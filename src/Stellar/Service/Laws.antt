-- ===== src/Stellar/Service/Laws.antt =====
-- What a hash that the service returns stands for.
use nexus_hub_contract.Prelude.{String, ◌≡◌, List, [], ◌∷◌}
use nexus_hub_contract.Prisma.Action.{Result, ok}
use nexus_hub_contract.Worker.Chain.{Stellar, InitParams}
use nexus_hub_contract.Stellar.Cipher.{Crypto}
use nexus_hub_contract.Stellar.Sdk.{Sdk, Arg}
use nexus_hub_contract.Stellar.Invoke.{Config, invoke, ◌>>=◌}
use nexus_hub_contract.Stellar.Invoke.Laws.{IsConfirmed, returned-first, invoke-IsConfirmed}
use nexus_hub_contract.Stellar.Service.{
  init_escrow, fund_escrow, release_escrow, refund_escrow, approve_release, complete_milestone,
  claim_expired, service, escrow_id_to_bytes, init_args,
}

-- The calls of the worker's interface that send a transaction.
pub data Call : Type 0 where
  init : InitParams → Call
  fund approve complete : (escrow_id secret : String) → Call
  release : (escrow_id secret milestone_hash : String) → Call
  refund claim : (escrow_id : String) → Call

abbrev pub answer : Stellar → Call → Result String
answer s (Call.init p) = s.init_escrow p
answer s (Call.fund id secret) = s.fund_escrow id secret
answer s (Call.approve id secret) = s.approve_release id secret
answer s (Call.complete id secret) = s.complete_milestone id secret
answer s (Call.release id secret hash) = s.release_escrow id secret hash
answer s (Call.refund id) = s.refund_escrow id
answer s (Call.claim id) = s.claim_expired id

module _ (sdk : Sdk) (config : Config sdk) where
  signed-IsConfirmed :
      (secret method : String) (args : sdk.Key → List Arg) (h : String)
      → (sdk.from_secret secret >>= λ kp. invoke sdk config method (args kp) (kp ∷ [])) ≡ ok h
      → IsConfirmed sdk h 0 30
  signed-IsConfirmed secret method args h ended =
      let (kp, _, after) =
        returned-first (sdk.from_secret secret) (λ k. invoke sdk config method (args k) (k ∷ []))
          ended in
      invoke-IsConfirmed sdk config method (args kp) (kp ∷ []) h after

  init_escrow-IsConfirmed :
      (p : InitParams) (h : String) → init_escrow sdk config p ≡ ok h → IsConfirmed sdk h 0 30
  unfolding init_escrow
  init_escrow-IsConfirmed p h ended =
      signed-IsConfirmed p.client_secret "init_escrow" (init_args sdk config p) h ended

  -- Whichever call of the worker's chain interface returns a hash, that transaction was found to
  -- have succeeded in one of thirty polls.
  pub service-IsConfirmed :
      (crypto : Crypto) (sha256_hex : String → String) (call : Call) (h : String)
      → answer (service sdk config crypto sha256_hex) call ≡ ok h
      → IsConfirmed sdk h 0 30
  unfolding service fund_escrow release_escrow refund_escrow approve_release complete_milestone
      claim_expired
  service-IsConfirmed crypto sha (Call.init p) h e = init_escrow-IsConfirmed p h e
  service-IsConfirmed crypto sha (Call.fund id secret) h e =
      signed-IsConfirmed secret "fund" (λ _. Arg.bytes (escrow_id_to_bytes sdk id) ∷ []) h e
  service-IsConfirmed crypto sha (Call.release id secret hash) h e =
      signed-IsConfirmed secret "release"
        (λ k.
          Arg.bytes (escrow_id_to_bytes sdk id)
          ∷ Arg.address (sdk.public_key k)
          ∷ Arg.bytes (sdk.from_hex hash)
          ∷ [])
        h e
  service-IsConfirmed crypto sha (Call.refund id) h e =
      invoke-IsConfirmed sdk config "refund" (Arg.bytes (escrow_id_to_bytes sdk id) ∷ []) [] h e
  service-IsConfirmed crypto sha (Call.approve id secret) h e =
      signed-IsConfirmed secret "approve_release"
        (λ k. Arg.bytes (escrow_id_to_bytes sdk id) ∷ Arg.address (sdk.public_key k) ∷ []) h e
  service-IsConfirmed crypto sha (Call.complete id secret) h e =
      signed-IsConfirmed secret "complete_milestone"
        (λ _. Arg.bytes (escrow_id_to_bytes sdk id) ∷ []) h e
  service-IsConfirmed crypto sha (Call.claim id) h e =
      invoke-IsConfirmed sdk config "claim_expired" (Arg.bytes (escrow_id_to_bytes sdk id) ∷ []) []
        h e
