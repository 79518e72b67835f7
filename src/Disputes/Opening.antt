-- ===== src/Disputes/Opening.antt =====
-- When a dispute is opened, and what it changes.
use nexus_hub_contract.Prelude.{
  String, ◌≡◌, ◌≢◌, ◌⊎◌, inl, inr, Option-cases, some, none, Bool, arith, ◌==◌,
}
use nexus_hub_contract.Model.Enums.{EscrowStatus}
use nexus_hub_contract.Model.Rows.{Escrow, Dispute}
use nexus_hub_contract.Prisma.Client.{Client, IsLawful}
use nexus_hub_contract.Prisma.World.{World, escrow_of, dispute_of}
use nexus_hub_contract.Prisma.Action.{Exception, ok, throws}
use nexus_hub_contract.Escrow.Requests.Laws.{IsOpen}
use nexus_hub_contract.Disputes.{
  OpenDisputeDto, is_party, new_dispute, record_dispute, open_dispute,
}

module _ (c : Client) (laws : IsLawful c) where
  record_dispute_lem :
      (user : String) (dto : OpenDisputeDto) (w : World c) (d : Dispute) {row : Escrow}
      → (record_dispute c user dto w).0 ≡ ok d
      → escrow_of w dto.escrow_id ≡ some row
      → let v = (record_dispute c user dto w).1 in
        (d ≡ new_dispute (c.uuid w.drawn) w.now user dto)
        × (dispute_of v d.id ≡ some d)
        × (escrow_of v dto.escrow_id ≡ some (record row { status = EscrowStatus.disputed }))
        × (v.db.balances ≡ w.db.balances)
        × (v.db.transactions ≡ w.db.transactions)
  unfolding record_dispute
  record_dispute_lem user dto w d h stored =
      grind (arith, laws.find-create_self, laws.find-update_self)

  record_dispute_atomic :
      (user : String) (dto : OpenDisputeDto) (w : World c) (x : Exception)
      → (record_dispute c user dto w).0 ≡ throws x
      → (record_dispute c user dto w).1.db ≡ w.db
  unfolding record_dispute
  record_dispute_atomic user dto w x h = grind (arith, laws.rollback_lem)

  open_dispute_path :
      (user : String) (dto : OpenDisputeDto) (w : World c) (d : Dispute)
      → (open_dispute c user dto w).0 ≡ ok d
      → (e : Escrow) × (c.find_first Escrow (is_party dto.escrow_id user) w.db.escrows ≡ some e)
        × IsOpen e.status
        × ((record_dispute c user dto w).0 ≡ ok d)
        × ((open_dispute c user dto w).1.db ≡ (record_dispute c user dto w).1.db)
  unfolding open_dispute
  open_dispute_path user dto w d h =
      elim (Option-cases (c.find_first Escrow (is_party dto.escrow_id user) w.db.escrows)) [
        | inl missing ↦ absurd (ground arith)
        | inr (e, found) ↦ (e, found, ground arith, ground arith, ground arith)
      ]

  -- A dispute is opened only by a party of an escrow that is FUNDED or ACTIVE; it is then stored as
  -- OPEN and raised by that party, the escrow is DISPUTED, and no balance or transaction changes.
  pub open_dispute_lem :
      (user : String) (dto : OpenDisputeDto) (w : World c) (d : Dispute) {row : Escrow}
      → (open_dispute c user dto w).0 ≡ ok d
      → escrow_of w dto.escrow_id ≡ some row
      → let v = (open_dispute c user dto w).1 in
        ((e : Escrow) × (e.id ≡ dto.escrow_id)
          × IsOpen e.status
          × ((e.client_id ≡ user) ⊎ (e.freelancer_id ≡ user)))
        × (d ≡ new_dispute (c.uuid w.drawn) w.now user dto)
        × (dispute_of v d.id ≡ some d)
        × (escrow_of v dto.escrow_id ≡ some (record row { status = EscrowStatus.disputed }))
        × (v.db.balances ≡ w.db.balances)
        × (v.db.transactions ≡ w.db.transactions)
  open_dispute_lem user dto w d h stored =
      let (e, found, is_open, recorded, same) = open_dispute_path user dto w d h in
      let test = is_party dto.escrow_id user in
      let passes = laws.find_first-passes Escrow test e w.db.escrows found in
      let (new, dispute, status, kept, booked) = record_dispute_lem user dto w d recorded stored in
      (
        (e, ground arith, is_open, ground arith),
        new,
        ground arith,
        ground arith,
        ground arith,
        ground arith,
      )

  -- No stored dispute is about that escrow already.
  pub open_dispute_first :
      (user k : String) (dto : OpenDisputeDto) (w : World c) (d : Dispute) {other : Dispute}
      → (open_dispute c user dto w).0 ≡ ok d
      → dispute_of w k ≡ some other
      → other.escrow_id ≢ dto.escrow_id
  unfolding open_dispute
  open_dispute_first user k dto w d {other} h stored same =
      let test : Dispute → Bool = λ t. t.escrow_id == dto.escrow_id in
      let alone : c.find_first Dispute test w.db.disputes ≡ none = ground arith in
      let fails = laws.find_first-none Dispute test k other w.db.disputes alone stored in
      ground arith

  -- A refused request to open a dispute changes no row.
  pub open_dispute_atomic :
      (user : String) (dto : OpenDisputeDto) (w : World c) (x : Exception)
      → (open_dispute c user dto w).0 ≡ throws x
      → (open_dispute c user dto w).1.db ≡ w.db
  unfolding open_dispute
  open_dispute_atomic user dto w x h = ground (arith, record_dispute_atomic user dto w x)
