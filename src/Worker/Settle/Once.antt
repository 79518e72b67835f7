-- ===== src/Worker/Settle/Once.antt =====
-- A settlement that throws, and one that runs again.
use nexus_hub_contract.Prelude.{String, ◌≡◌, ◌<>◌, Option, some, arith}
use nexus_hub_contract.Model.Rows.{Escrow, Transaction}
use nexus_hub_contract.Prisma.Client.{Client, IsLawful}
use nexus_hub_contract.Prisma.World.{World, transaction_of}
use nexus_hub_contract.Prisma.Action.{Exception, throws}
use nexus_hub_contract.Worker.Chain.{Stellar}
use nexus_hub_contract.Worker.Settle.{
  record_release, record_refund, record_expiry, release_escrow, refund_escrow, claim_expired,
}

module _ (c : Client) (laws : IsLawful c) where
  -- The writes of a release that throw have changed no row.
  pub record_release_atomic :
      (e : Escrow) (id client tx : String) (w : World c) (x : Exception)
      → (record_release c e id client tx w).0 ≡ throws x
      → (record_release c e id client tx w).1.db ≡ w.db
  unfolding record_release
  record_release_atomic e id client tx w x h = grind (arith, laws.rollback_lem)

  pub record_refund_atomic :
      (e : Escrow) (id admin reason tx : String) (w : World c) (x : Exception)
      → (record_refund c e id admin reason tx w).0 ≡ throws x
      → (record_refund c e id admin reason tx w).1.db ≡ w.db
  unfolding record_refund
  record_refund_atomic e id admin reason tx w x h = grind (arith, laws.rollback_lem)

  pub record_expiry_atomic :
      (e : Escrow) (id : String) (by : Option String) (tx : String) (w : World c) (x : Exception)
      → (record_expiry c e id by tx w).0 ≡ throws x
      → (record_expiry c e id by tx w).1.db ≡ w.db
  unfolding record_expiry
  record_expiry_atomic e id by tx w x h = grind (arith, laws.rollback_lem)

  module _ (stellar : Stellar) (id : String) (w : World c) where
    -- Once the transaction of a release is stored, a release job of that escrow changes no row,
    -- whatever the chain answers.
    pub release_escrow_again :
        (client : String) {t : Transaction}
        → transaction_of w ("release-" <> id) ≡ some t
        → (release_escrow c stellar id client w).1.db ≡ w.db
    unfolding release_escrow
    release_escrow_again client h = grind (arith, laws.rollback_lem)

    pub refund_escrow_again :
        (admin reason : String) {t : Transaction}
        → transaction_of w ("refund-" <> id) ≡ some t
        → (refund_escrow c stellar id admin reason w).1.db ≡ w.db
    unfolding refund_escrow
    refund_escrow_again admin reason h = grind (arith, laws.rollback_lem)

    pub claim_expired_again :
        (by : Option String) {t : Transaction}
        → transaction_of w ("expired-" <> id) ≡ some t
        → (claim_expired c stellar id by w).1.db ≡ w.db
    unfolding claim_expired
    claim_expired_again by h = grind (arith, laws.rollback_lem)
