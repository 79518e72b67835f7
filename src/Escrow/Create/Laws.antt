-- ===== src/Escrow/Create/Laws.antt =====
-- What createEscrow does to the client's balance, and when it does nothing.
use nexus_hub_contract.Prelude.{
  String, ◌≡◌, ◌≢◌, refl, Option-cases, inl, inr, true, false, some, none, arith, ◌∙◌, truthy,
}
use native.Mathlib.Decide.{ℕ_discrete}
use nexus_hub_contract.Model.Decimal.{Decimal, lt}
use nexus_hub_contract.Model.Enums.{UserRole}
use nexus_hub_contract.Model.Rows.{Escrow, Balance, Transaction, User}
use nexus_hub_contract.Prisma.Client.{Client, IsLawful}
use nexus_hub_contract.Prisma.World.{World, balance_of, transaction_of, user_of}
use nexus_hub_contract.Prisma.Action.{Exception, ok, throws, bad_request}
use nexus_hub_contract.Escrow.Create.{
  CreateEscrowDto, existing, created, amount_of, debit_of, fee_of, at_version, locked,
  funded_balance, lock_balance, create_escrow, lock_transaction,
}

module _ (c : Client) (laws : IsLawful c) where
  -- A balance that covers the debit is returned; any other throws, and nothing changes.
  funded_balance_covers :
      (client : String) (total : Decimal) (w : World c) (b : Balance)
      → (funded_balance c client total w).0 ≡ ok b
      → (balance_of w client ≡ some b) × (lt b.available_amount total ≡ false)
  unfolding funded_balance
  funded_balance_covers client total w b h = ground arith

  -- The optimistic lock, on a row read earlier: if the stored row still has that version, it is
  -- debited and its version moves on.
  lock_balance_held :
      (client : String) (seen b : Balance) (total amount : Decimal) (w : World c)
      → balance_of w client ≡ some b
      → b.user_id ≡ client
      → b.version ≡ seen.version
      → let (r, v) = lock_balance c client seen total amount w in
        (r ≡ ok tt) × (balance_of v client ≡ some (locked total amount b))
  unfolding lock_balance
  lock_balance_held client seen b total amount w h own same =
      let test = at_version client seen.version in
      let passes : test b ≡ true = ground arith in
      let counted = laws.count-zero Balance test client b w.db.balances in
      let changed =
        laws.find-update_many Balance client test (locked total amount) b w.db.balances h in
      ground (arith, counted, changed)

  -- If no stored row of the client has that version, the lock throws, and no balance changes.
  pub lock_balance_stale :
      (client j : String) (seen : Balance) {bj : Balance} (total amount : Decimal) (w : World c)
      → ((k : String) (b : Balance)
          → balance_of w k ≡ some b
          → b.user_id ≡ client
          → b.version ≢ seen.version)
      → balance_of w j ≡ some bj
      → let (r, v) = lock_balance c client seen total amount w in
        (r ≡ throws (bad_request "Balance modified concurrently. Please retry."))
        × (balance_of v j ≡ some bj)
  unfolding lock_balance
  lock_balance_stale client j seen {bj} total amount w stale hj =
      let test = at_version client seen.version in
      elim (ℕ_discrete (c.count Balance test w.db.balances) 0) [
        | yes zero_rows ↦
            let fails = laws.count-zero Balance test j bj w.db.balances zero_rows hj in
            let changed =
              laws.find-update_many Balance j test (locked total amount) bj w.db.balances hj in
            (ground arith, changed ∙ rw fails)
        | no some_rows ↦
            let (k, b, stored, passes) = laws.count-ne-zero Balance test w.db.balances some_rows in
            absurd (stale k b stored (ground arith) (ground arith))
      ]

  -- A request to create an escrow that throws has changed no row and queued no job.
  pub create_escrow_atomic :
      (client key : String) (dto : CreateEscrowDto) (w : World c) (x : Exception)
      → (create_escrow c client dto key w).0 ≡ throws x
      → let v = (create_escrow c client dto key w).1 in
        (v.db ≡ w.db) × (v.escrow_queue ≡ w.escrow_queue)
  unfolding create_escrow
  create_escrow_atomic client key dto w x h = grind (arith, laws.rollback_lem)

  -- A new escrow is made only if the client's stored balance covers amount and fee, and the target
  -- is a freelancer with a Stellar address.
  pub create_escrow_covered :
      (client key : String) (dto : CreateEscrowDto) (w : World c) (e : Escrow)
      → (create_escrow c client dto key w).0 ≡ ok (created e)
      → ((b : Balance) × (balance_of w client ≡ some b)
          × (lt b.available_amount (debit_of dto) ≡ false))
        × ((u : User) × (user_of w dto.freelancer_id ≡ some u)
            × (u.role ≡ UserRole.freelancer)
            × (truthy u.stellar_public_key ≢ none))
  unfolding create_escrow
  create_escrow_covered client key dto w e h = elim (Option-cases (user_of w dto.freelancer_id)) [
    | inl missing ↦ absurd (ground arith)
    | inr (u, hu) ↦ elim (Option-cases (balance_of w client)) [
      | inl missing ↦ absurd (ground arith)
      | inr (b, hb) ↦ ((b, hb, ground arith), (u, hu, ground arith, ground arith))
    ]
  ]

  create_escrow_existing :
      (client key : String) (dto : CreateEscrowDto) (w : World c) {t : Transaction}
      → transaction_of w key ≡ some t
      → create_escrow c client dto key w ≡ (ok (existing t), w)
  unfolding create_escrow
  create_escrow_existing client key dto w h = ground arith

  pub create_escrow_books :
      (client key : String) (dto : CreateEscrowDto) (w : World c) (e : Escrow)
      → (create_escrow c client dto key w).0 ≡ ok (created e)
      → transaction_of (create_escrow c client dto key w).1 key
        ≡ some (lock_transaction key e.id w.now client dto (debit_of dto) (fee_of (amount_of dto)))
  unfolding create_escrow
  create_escrow_books client key dto w e h = grind (arith, laws.find-create_self)

  -- A request that is sent again under its key, in any form and by anyone, returns the stored
  -- transaction and changes nothing.
  pub create_escrow_again :
      (client key client' : String) (dto dto' : CreateEscrowDto) (w : World c) (e : Escrow)
      → (create_escrow c client dto key w).0 ≡ ok (created e)
      → let v = (create_escrow c client dto key w).1 in
        (t : Transaction) × (t.escrow_id ≡ some e.id)
        × (create_escrow c client' dto' key v ≡ (ok (existing t), v))
  create_escrow_again client key client' dto dto' w e h =
      let booked = create_escrow_books client key dto w e h in
      (_, refl, create_escrow_existing client' key dto' (create_escrow c client dto key w).1 booked)
