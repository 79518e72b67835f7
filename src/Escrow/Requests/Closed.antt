-- ===== src/Escrow/Requests/Closed.antt =====
-- Requests on a settled escrow.
use nexus_hub_contract.Prelude.{String, ◌≡◌, ◌≢◌, ◌⊎◌, Option, some, arith}
use nexus_hub_contract.Model.Enums.{EscrowStatus}
use nexus_hub_contract.Model.Rows.{Escrow}
use nexus_hub_contract.Model.Jobs.{Party}
use nexus_hub_contract.Prisma.Client.{Client}
use nexus_hub_contract.Prisma.World.{World, escrow_of}
use nexus_hub_contract.Prisma.Action.{ok}
use nexus_hub_contract.Escrow.Requests.{
  release_escrow, refund_escrow, approve_release, claim_expired,
}

abbrev pub IsSettled : EscrowStatus → Type 0
IsSettled s = (s ≡ EscrowStatus.refunded) ⊎ (s ≡ EscrowStatus.released)

module _ (c : Client) (user id m : String) (v : World c) {e : Escrow}
    (stored : escrow_of v id ≡ some e) (settled : IsSettled e.status) where
  pub release_escrow_settled :
      (feedback : Option String) → (release_escrow c user id feedback v).0 ≢ ok m
  unfolding release_escrow
  release_escrow_settled feedback = ground arith

  pub refund_escrow_settled : (reason : String) → (refund_escrow c user id reason v).0 ≢ ok m
  unfolding refund_escrow
  refund_escrow_settled reason = ground arith

  pub approve_release_settled : (role : Party) → (approve_release c user id role v).0 ≢ ok m
  unfolding approve_release
  approve_release_settled role = ground arith

  pub claim_expired_settled : (claim_expired c user id v).0 ≢ ok m
  unfolding claim_expired
  claim_expired_settled = ground arith
