-- ===== src/Escrow/Create/Interleaving.antt =====
-- Two requests of one client at the same time: both have read the balance, and one is through.
use nexus_hub_contract.Prelude.{
  ℕ, String, ◌≡◌, ◌≢◌, sym, ap, ◌∙◌, some, arith, inl, inr, Option-cases, Bool-cases,
}
use nexus_hub_contract.Model.Decimal.{Decimal}
use nexus_hub_contract.Model.Rows.{Balance, Escrow}
use nexus_hub_contract.Prisma.Client.{Client, IsLawful}
use nexus_hub_contract.Prisma.World.{World, balance_of}
use nexus_hub_contract.Prisma.Action.{Exception, ok, throws, bad_request, transaction}
use nexus_hub_contract.Escrow.Create.{
  CreateEscrowDto, created, at_version, locked, debit_of, amount_of, lock_balance, commit_escrow,
  create_escrow,
}
use nexus_hub_contract.Escrow.Create.Laws.{lock_balance_stale}

module _ (c : Client) (laws : IsLawful c) where
  -- A row of the user that is changed by a lock has another version than the lock asked for.
  locked-version :
      (client k : String) (n : ℕ) (total amount : Decimal) (t : c.Table Balance) (r : Balance)
      → c.find_unique Balance k
          (c.update_many Balance (at_version client n) (locked total amount) t)
        ≡ some r
      → r.user_id ≡ client
      → r.version ≢ n
  locked-version client k n total amount t r h own same =
      elim (Option-cases (c.find_unique Balance k t)) [
        | inl gone ↦
            let still =
              laws.find-update_many_none Balance k (at_version client n) (locked total amount) t
                gone in
            cc
        | inr (b, there) ↦
            let changed =
              laws.find-update_many Balance k (at_version client n) (locked total amount) b t
                there in
            elim (Bool-cases (at_version client n b)) [
              | inl passed ↦ ground arith
              | inr failed ↦ ground arith
            ]
      ]

  pub created-balances :
      (client key : String) (dto : CreateEscrowDto) (w : World c) (b : Balance) (e : Escrow)
      → balance_of w client ≡ some b
      → (create_escrow c client dto key w).0 ≡ ok (created e)
      → (create_escrow c client dto key w).1.db.balances
        ≡ c.update_many Balance
            (at_version client b.version)
            (locked (debit_of dto) (amount_of dto))
            w.db.balances
  unfolding create_escrow
  created-balances client key dto w b e h done = grind arith

  commit_escrow-throws :
      (client key : String) (dto : CreateEscrowDto) (b : Balance) (w : World c) (x : Exception)
      → (lock_balance c client b (debit_of dto) (amount_of dto) w).0 ≡ throws x
      → let (r, v) = transaction (commit_escrow c client dto key b) w in
        (r ≡ throws x) × (v.db ≡ w.db) × (v.escrow_queue ≡ w.escrow_queue)
  unfolding commit_escrow lock_balance
  commit_escrow-throws client key dto b w x h = grind (arith, laws.rollback_lem)

  -- Where two requests of one client have read the same balance and one of them makes its escrow
  -- first, the rest of the other's transaction throws as modified concurrently, and changes no row
  -- and queues no job.
  pub interleaved_once :
      (client first second : String) (mine other : CreateEscrowDto) (w : World c) (b : Balance)
      (e : Escrow)
      → balance_of w client ≡ some b
      → (create_escrow c client other first w).0 ≡ ok (created e)
      → let v = (create_escrow c client other first w).1 in
        let (r, u) = transaction (commit_escrow c client mine second b) v in
        (r ≡ throws (bad_request "Balance modified concurrently. Please retry."))
        × (u.db ≡ v.db)
        × (u.escrow_queue ≡ v.escrow_queue)
  interleaved_once client first second mine other w b e h done =
      let v = (create_escrow c client other first w).1 in
      let locks = created-balances client first other w b e h done in
      let test = at_version client b.version in
      let change = locked (debit_of other) (amount_of other) in
      let stored =
        ap (c.find_unique Balance client) locks
        ∙ laws.find-update_many Balance client test change b w.db.balances h in
      let (fails, _) =
        lock_balance_stale c laws client client b (debit_of mine) (amount_of mine) v
          (λ k r there.
            locked-version client k b.version (debit_of other) (amount_of other) w.db.balances r
              (sym (ap (c.find_unique Balance k) locks) ∙ there))
          stored in
      commit_escrow-throws client second mine b v _ fails
