-- ===== src/Tests/FundTests.antt =====
-- Funding jobs at concrete inputs.
use nexus_hub_contract.Prelude.{◌≡◌, refl, some, ◌⊎◌, String-discrete}
use nexus_hub_contract.Prelude.Int.{pos, ◌+ℤ◌, ◌-ℤ◌, times}
use nexus_hub_contract.Model.Enums.{EscrowStatus, WebhookEvent}
use nexus_hub_contract.Model.Rows.{Escrow}
use nexus_hub_contract.Prisma.World.{World, balance_of, escrow_of, transaction_of}
use nexus_hub_contract.Prisma.Action.{Exception, ok, throws, error}
use nexus_hub_contract.Prisma.Memory.{memory, memory-IsLawful}
use nexus_hub_contract.Model.Decimal.{lt, to_column, increment, decrement, to_fixed_7}
use nexus_hub_contract.Escrow.Create.{
  new_escrow, lock_transaction, create_escrow, amount_of, fee_of, debit_of, fits_columns,
}
use nexus_hub_contract.Worker.Chain.{Stellar}
use nexus_hub_contract.Worker.Notify.{fire_webhook}
use nexus_hub_contract.Worker.Fund.{record_funding, fund_escrow}
use nexus_hub_contract.Worker.Fund.Failure.{credit}
use nexus_hub_contract.Worker.Fund.Return.{refused_restores}
use nexus_hub_contract.Worker.Fund.Outcome.{
  Accepts, funded, completed, notice, fund_escrow_accepted,
}
use nexus_hub_contract.Tests.Fixtures.{purse, funded_world, alice, bob}
use nexus_hub_contract.Tests.EscrowTests.{request}
use nexus_hub_contract.Tests.WorkerTests.{silent}

-- The escrow of the request and its booking, in the world after it.
abbrev site : Escrow
site = new_escrow "u" 7 "alice" request (amount_of request) (fee_of (amount_of request))

abbrev made : World memory
made = (create_escrow memory "alice" request "k" funded_world).1

refused_restores_example :
    balance_of
      (fund_escrow memory silent "u" "alice" (to_fixed_7 (amount_of request)) made).1
      "alice"
    ≡ some (record (purse "alice") { version = 1 })
unfolding String-discrete create_escrow ◌+ℤ◌ ◌-ℤ◌ debit_of lt times fits_columns to_column increment
    decrement to_fixed_7
refused_restores_example =
    (refused_restores memory memory-IsLawful silent "alice" "k" 20_000 request funded_world site
      {b = purse "alice"} (error "no", λ id secret. refl) refl refl refl refl).1

-- A chain that funds.
abbrev willing : Stellar
willing = record silent { init_escrow = λ p. ok "hash"; fund_escrow = λ id s. ok "tx" }

willing-Accepts : Accepts willing "tx"
willing-Accepts = (λ s. (s, refl), λ p. ("hash", refl), λ id s. refl)

fund_escrow_accepted_example :
    let u = (record_funding memory willing "u" "alice" (pos 1) "tx" made).1 in
    let told =
      (fire_webhook memory WebhookEvent.escrow_funded (notice "u" "tx" (pos 1)) "alice" u).0 in
    let (r, v) = fund_escrow memory willing "u" "alice" (pos 1) made in
    let b = record (purse "alice") {
      available_amount = pos 497_980_000;
      reserved_amount = pos 102_000_000;
      version = 1;
    } in
    let t =
      lock_transaction "k" "u" 7 "alice" request (debit_of request) (fee_of (amount_of request)) in
    ((told ≡ ok tt)
      × (r ≡ ok ("u", "tx"))
      × (escrow_of v "u" ≡ some (funded willing "u" 7 "tx" site))
      × (balance_of v "alice" ≡ some b)
      × (transaction_of v "k" ≡ some (completed "tx" t)))
    ⊎ ((x : Exception) × (told ≡ throws x)
        × (r ≡ throws x)
        × (escrow_of v "u"
            ≡ some (record (funded willing "u" 7 "tx" site) { status = EscrowStatus.cancelled }))
        × (balance_of v "alice" ≡ some (credit (pos 2_020_000) (pos 2_000_000) b))
        × (transaction_of v "k" ≡ some (completed "tx" t)))
unfolding String-discrete create_escrow ◌+ℤ◌ ◌-ℤ◌ lt times debit_of fits_columns to_column decrement
    increment
fund_escrow_accepted_example =
    fund_escrow_accepted memory memory-IsLawful willing "u" "alice" "tx" "k" "SA" "GB" (pos 1) made
      {e = site} {uc = alice} {uf = bob} willing-Accepts refl refl refl refl refl refl refl refl
