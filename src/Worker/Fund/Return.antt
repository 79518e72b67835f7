-- ===== src/Worker/Fund/Return.antt =====
-- createEscrow, and the run of its funding job that the chain refuses.
use nexus_hub_contract.Prelude.{ℕ, ◌+◌, String, ◌≡◌, refl, some, true, arith, ap, ◌∙◌, inl, inr}
use nexus_hub_contract.Prelude.Int.{ℤ, ◌+ℤ◌, -ℤ_cancel, +ℤ_cancel}
use nexus_hub_contract.Model.Decimal.{Decimal, to_column, to_fixed_7}
use nexus_hub_contract.Model.Decimal.Exact.{
  ten_thousandths, to_column-amount, to_column-fee, increment-amount, decrement-debit,
}
use nexus_hub_contract.Model.Enums.{EscrowStatus, TransactionStatus}
use nexus_hub_contract.Model.Rows.{Escrow, Balance, Transaction}
use nexus_hub_contract.Prisma.Client.{Client, IsLawful}
use nexus_hub_contract.Prisma.World.{World, balance_of, escrow_of, transaction_of}
use nexus_hub_contract.Prisma.Action.{Exception, ok, throws, Result-cases}
use nexus_hub_contract.Escrow.Create.{
  CreateEscrowDto, created, at_version, locked, debit_of, amount_of, fee_of, lock_transaction,
  create_escrow,
}
use nexus_hub_contract.Escrow.Create.Laws.{create_escrow_books}
use nexus_hub_contract.Escrow.Create.Interleaving.{created-balances}
use nexus_hub_contract.Worker.Chain.{Stellar}
use nexus_hub_contract.Worker.Fund.{is_pending_lock, try_fund, handle_fund_failure, fund_escrow}
use nexus_hub_contract.Worker.Fund.Failure.{
  Refuses, credit, try_fund-same, try_fund-throws, fund_escrow_refused,
}

module _ (c : Client) (laws : IsLawful c) where
  create_escrow-stores :
      (client key : String) (dto : CreateEscrowDto) (w : World c) (e : Escrow)
      → (create_escrow c client dto key w).0 ≡ ok (created e)
      → (escrow_of (create_escrow c client dto key w).1 e.id ≡ some e)
        × (e.amount ≡ to_column (amount_of dto))
        × (e.fee ≡ to_column (fee_of (amount_of dto)))
  unfolding create_escrow
  create_escrow-stores client key dto w e done = grind (arith, laws.find-create_self)

  -- The stored balance has the version that the lock asked for.
  create_escrow-locks :
      (client key : String) (dto : CreateEscrowDto) (w : World c) (e : Escrow) {b : Balance}
      → balance_of w client ≡ some b
      → b.user_id ≡ client
      → (create_escrow c client dto key w).0 ≡ ok (created e)
      → balance_of (create_escrow c client dto key w).1 client
        ≡ some (locked (debit_of dto) (amount_of dto) b)
  create_escrow-locks client key dto w e {b} h own done =
      let locks = created-balances c laws client key dto w b e h done in
      let test = at_version client b.version in
      let change = locked (debit_of dto) (amount_of dto) in
      let stored =
        ap (c.find_unique Balance client) locks
        ∙ laws.find-update_many Balance client test change b w.db.balances h in
      ground (arith, stored)

  -- Whole ten-thousandths are debited and credited exactly.
  credit-locked :
      (n : ℕ) (dto : CreateEscrowDto) (b : Balance)
      → dto.amount ≡ ten_thousandths n
      → credit
          (to_column (amount_of dto) +ℤ to_column (fee_of (amount_of dto)))
          (to_column (amount_of dto))
          (locked (debit_of dto) (amount_of dto) b)
        ≡ record b { version = b.version + 1 }
  unfolding debit_of
  credit-locked n dto b whole =
      rw
        (
          whole, to_column-amount, to_column-fee, increment-amount, decrement-debit, -ℤ_cancel,
          +ℤ_cancel,
        )
        refl

  handle_fund_failure-fails :
      (id client key : String) (w : World c) {t : Transaction}
      → transaction_of w key ≡ some t
      → is_pending_lock id t ≡ true
      → transaction_of (handle_fund_failure c id client w).1 key
        ≡ some (record t { status = TransactionStatus.failed })
  unfolding handle_fund_failure
  handle_fund_failure-fails id client key w {t} ht pending =
      let changed =
        laws.find-update_many Transaction key (is_pending_lock id)
          (λ t. record t { status = TransactionStatus.failed }) t w.db.transactions ht in
      grind (arith, laws.rollback_lem, changed)

  -- A run that the chain refuses fails the pending lock of the escrow.
  fund_escrow-fails :
      (s : Stellar) (id client key : String) (amount : ℤ) (w : World c) {t : Transaction}
      → Refuses s
      → transaction_of w key ≡ some t
      → is_pending_lock id t ≡ true
      → transaction_of (fund_escrow c s id client amount w).1 key
        ≡ some (record t { status = TransactionStatus.failed })
  unfolding fund_escrow
  fund_escrow-fails s id client key amount w refuses ht pending =
      let failed = handle_fund_failure-fails id client key w ht pending in
      elim (Result-cases (try_fund c s id client amount w).0) [
        | inl (r, ended) ↦ absurd (try_fund-throws c laws s id client amount w r refuses ended)
        | inr (x, ended) ↦
            let same = try_fund-same c laws s id client amount w refuses in ground arith
      ]

  pending_lock :
      (key id client : String) (now : ℕ) (dto : CreateEscrowDto) (amount fee : Decimal)
      → is_pending_lock id (lock_transaction key id now client dto amount fee) ≡ true
  pending_lock key id client now dto amount fee = ground arith

  -- After createEscrow, for an amount in whole ten-thousandths and a client with a balance row of
  -- their own, one run of the funding job that the chain refuses throws and undoes the debit: the
  -- balance is what it was but for its version, which has moved on once, the escrow is CANCELLED,
  -- and the booking, which the creation left PENDING, is FAILED.
  pub refused_restores :
      (s : Stellar) (client key : String) (n : ℕ) (dto : CreateEscrowDto) (w : World c) (e : Escrow)
      {b : Balance}
      → Refuses s
      → dto.amount ≡ ten_thousandths n
      → balance_of w client ≡ some b
      → b.user_id ≡ client
      → (create_escrow c client dto key w).0 ≡ ok (created e)
      → let v = (create_escrow c client dto key w).1 in
        let (r, u) = fund_escrow c s e.id client (to_fixed_7 (amount_of dto)) v in
        let t =
          lock_transaction key e.id w.now client dto (debit_of dto) (fee_of (amount_of dto)) in
        ((x : Exception) × (r ≡ throws x))
        × (balance_of u client ≡ some (record b { version = b.version + 1 }))
        × (escrow_of u e.id ≡ some (record e { status = EscrowStatus.cancelled }))
        × (transaction_of v key ≡ some t)
        × (transaction_of u key ≡ some (record t { status = TransactionStatus.failed }))
  refused_restores s client key n dto w e {b} refuses whole h own done =
      let (stored, amount, fee) = create_escrow-stores client key dto w e done in
      let locks = create_escrow-locks client key dto w e h own done in
      let v = (create_escrow c client dto key w).1 in
      let job = to_fixed_7 (amount_of dto) in
      let (fails, paid, cancelled) =
        fund_escrow_refused c laws s e.id client job v refuses stored locks in
      let booked = create_escrow_books c laws client key dto w e done in
      (
        fails,
        paid ∙ rw (amount, fee) (ap some (credit-locked n dto b whole)),
        cancelled,
        booked,
        fund_escrow-fails s e.id client key job v refuses booked
            (pending_lock key e.id client w.now dto (debit_of dto) (fee_of (amount_of dto))),
      )
