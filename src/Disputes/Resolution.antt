-- ===== src/Disputes/Resolution.antt =====
-- What the resolution of a dispute changes, and what it leaves.
use nexus_hub_contract.Prelude.{String, ◌≡◌, ◌≢◌, ◌⊎◌, Option, some, arith}
use nexus_hub_contract.Model.Enums.{EscrowStatus, DisputeStatus}
use nexus_hub_contract.Model.Rows.{Escrow, Dispute}
use nexus_hub_contract.Prisma.Client.{Client, IsLawful}
use nexus_hub_contract.Prisma.World.{World, escrow_of, dispute_of}
use nexus_hub_contract.Prisma.Action.{ok}
use nexus_hub_contract.Model.Jobs.{Party}
use nexus_hub_contract.Escrow.Requests.{
  release_escrow, refund_escrow, approve_release, claim_expired,
}
use nexus_hub_contract.Escrow.Requests.Closed.{
  IsSettled, release_escrow_settled, refund_escrow_settled, approve_release_settled,
  claim_expired_settled,
}
use nexus_hub_contract.Disputes.{ResolveDisputeDto, resolve_dispute}

-- The status that a resolution gives the escrow, if it gives one.
abbrev pub outcome : DisputeStatus → EscrowStatus → EscrowStatus
outcome DisputeStatus.resolved_client s = EscrowStatus.refunded
outcome DisputeStatus.resolved_freelancer s = EscrowStatus.released
outcome _ s = s

module _ (c : Client) (laws : IsLawful c) where
  -- Only a dispute that is OPEN or UNDER_REVIEW is resolved; its row and the status of its escrow
  -- then show the resolution, every balance and transaction stays the same, and no escrow job is
  -- queued.
  pub resolve_dispute_lem :
      (admin id : String) (dto : ResolveDisputeDto) (w : World c) (updated d : Dispute) {e : Escrow}
      → (resolve_dispute c admin id dto w).0 ≡ ok updated
      → dispute_of w id ≡ some d
      → escrow_of w d.escrow_id ≡ some e
      → let v = (resolve_dispute c admin id dto w).1 in
        ((d.status ≡ DisputeStatus.opened) ⊎ (d.status ≡ DisputeStatus.under_review))
        × (dispute_of v id
            ≡ some (record d {
              status = dto.resolution;
              resolution = some dto.notes;
              resolved_at = some w.now;
            }))
        × (escrow_of v d.escrow_id ≡ some (record e { status = outcome dto.resolution e.status }))
        × (v.db.balances ≡ w.db.balances)
        × (v.db.transactions ≡ w.db.transactions)
        × (v.escrow_queue ≡ w.escrow_queue)
  unfolding resolve_dispute
  resolve_dispute_lem admin id dto w updated d h hd he = grind (arith, laws.find-update_self)

  -- After a dispute is resolved for either party every request that would move the escrow's money
  -- (release, refund, approval, claim) is refused, though no balance has changed.
  pub resolve_dispute_strands :
      (admin id user m : String) (dto : ResolveDisputeDto) (w : World c) (updated d : Dispute)
      {e : Escrow}
      → (resolve_dispute c admin id dto w).0 ≡ ok updated
      → (dto.resolution ≡ DisputeStatus.resolved_client)
        ⊎ (dto.resolution ≡ DisputeStatus.resolved_freelancer)
      → dispute_of w id ≡ some d
      → escrow_of w d.escrow_id ≡ some e
      → let v = (resolve_dispute c admin id dto w).1 in
        (v.db.balances ≡ w.db.balances)
        × ((feedback : Option String) → (release_escrow c user d.escrow_id feedback v).0 ≢ ok m)
        × ((reason : String) → (refund_escrow c user d.escrow_id reason v).0 ≢ ok m)
        × ((role : Party) → (approve_release c user d.escrow_id role v).0 ≢ ok m)
        × ((claim_expired c user d.escrow_id v).0 ≢ ok m)
  resolve_dispute_strands admin id user m dto w updated d {e} h either hd he =
      let v = (resolve_dispute c admin id dto w).1 in
      let (open_before, row, status, kept, booked, queued) =
        resolve_dispute_lem admin id dto w updated d h hd he in
      let settled : IsSettled (outcome dto.resolution e.status) = ground arith in
      (
        kept,
        release_escrow_settled c user d.escrow_id m v status settled,
        refund_escrow_settled c user d.escrow_id m v status settled,
        approve_release_settled c user d.escrow_id m v status settled,
        claim_expired_settled c user d.escrow_id m v status settled,
      )
