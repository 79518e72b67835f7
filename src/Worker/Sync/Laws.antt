-- ===== src/Worker/Sync/Laws.antt =====
-- What an approval and a milestone change in the database.
use nexus_hub_contract.Prelude.{
  ℕ, String, ◌≡◌, ◌≢◌, ◌<>◌, Bool, true, false, ◌&&◌, some, none, arith,
}
use nexus_hub_contract.Model.Enums.{EscrowStatus}
use nexus_hub_contract.Model.Rows.{Escrow, Balance}
use nexus_hub_contract.Model.Jobs.{Party}
use nexus_hub_contract.Prisma.Client.{Client, IsLawful}
use nexus_hub_contract.Prisma.World.{World, balance_of, escrow_of, transaction_of}
use nexus_hub_contract.Prisma.Action.{ok}
use nexus_hub_contract.Worker.Settle.Payment.{paid, unreserved}
use nexus_hub_contract.Worker.Sync.{record_approval, record_milestone}

module _ (c : Client) (laws : IsLawful c) where
  -- One approval alone pays nobody: the two flags of the row are set; its status, every balance and
  -- every transaction stay the same.
  pub record_approval_waits :
      (e : Escrow) (id approver : String) (role : Party) (cf ff : Bool) (tx : String) (w : World c)
      {row : Escrow}
      → (cf && ff) ≡ false
      → escrow_of w id ≡ some row
      → let (r, v) = record_approval c e id approver role cf ff tx w in
        (r ≡ ok tt)
        × (escrow_of v id ≡ some (record row { client_approved = cf; freelancer_approved = ff }))
        × (v.db.balances ≡ w.db.balances)
        × (v.db.transactions ≡ w.db.transactions)
  unfolding record_approval
  record_approval_waits e id approver role cf ff tx w waits he =
      grind (arith, laws.find-update_self)

  -- Both approvals, of an escrow between two users with balances, under a key that is not taken,
  -- release the escrow and pay the freelancer, as a release by the client does.
  pub record_approval_pays :
      (e : Escrow) (id approver : String) (role : Party) (tx user : String) (w : World c)
      {row : Escrow} {bf bc : Balance}
      → e.client_id ≢ e.freelancer_id
      → user ≢ e.freelancer_id
      → user ≢ e.client_id
      → escrow_of w id ≡ some row
      → balance_of w e.freelancer_id ≡ some bf
      → balance_of w e.client_id ≡ some bc
      → transaction_of w ("approve-release-" <> id) ≡ none
      → let (r, v) = record_approval c e id approver role true true tx w in
        (r ≡ ok tt)
        × (balance_of v e.freelancer_id ≡ some (paid e.amount bf))
        × (balance_of v e.client_id ≡ some (unreserved e.amount bc))
        × (balance_of v user ≡ balance_of w user)
        × (escrow_of v id
            ≡ some (record row {
              client_approved = true;
              freelancer_approved = true;
              status = EscrowStatus.released;
              released_at = some w.now;
              stellar_tx_hash = some tx;
            }))
  unfolding record_approval
  record_approval_pays e id approver role tx user w ne nf nc he hf hc ht =
      grind (arith, laws.find-update_self, laws.find-update_ne)

  -- A milestone changes the count of its own escrow, and no balance, transaction or other escrow.
  pub record_milestone_lem :
      (id freelancer : String) (done total : ℕ) (tx other : String) (w : World c) {row : Escrow}
      → other ≢ id
      → escrow_of w id ≡ some row
      → let (r, v) = record_milestone c id freelancer done total tx w in
        (r ≡ ok tt)
        × (escrow_of v id ≡ some (record row { milestones_completed = done }))
        × (escrow_of v other ≡ escrow_of w other)
        × (v.db.balances ≡ w.db.balances)
        × (v.db.transactions ≡ w.db.transactions)
  unfolding record_milestone
  record_milestone_lem id freelancer done total tx other w ne he =
      grind (arith, laws.find-update_self, laws.find-update_ne)
