-- ===== src/Worker/Settle/Payment.antt =====
-- What a settled escrow does to the balances.
use nexus_hub_contract.Prelude.{String, ◌≡◌, ◌≢◌, ◌<>◌, Option, some, none, arith}
use nexus_hub_contract.Prelude.Int.{ℤ, ◌+ℤ◌, ◌-ℤ◌, int_laws}
use nexus_hub_contract.Model.Enums.{EscrowStatus}
use nexus_hub_contract.Model.Rows.{Escrow, Balance}
use nexus_hub_contract.Prisma.Client.{Client, IsLawful}
use nexus_hub_contract.Prisma.World.{World, balance_of, escrow_of, transaction_of}
use nexus_hub_contract.Prisma.Action.{ok}
use nexus_hub_contract.Worker.Settle.{record_release, record_refund, record_expiry}

-- The balance after a payment of `x` to the user, and after the release of a reserve of `x`.
abbrev pub paid : ℤ → Balance → Balance
paid x b = record b { available_amount = b.available_amount +ℤ x }

abbrev pub unreserved : ℤ → Balance → Balance
unreserved x b = record b { reserved_amount = b.reserved_amount -ℤ x }

-- All that the user has, spendable or reserved.
abbrev pub held : Balance → ℤ
held b = b.available_amount +ℤ b.reserved_amount

module _ (c : Client) (laws : IsLawful c) where
  -- A release of an escrow between two users, who have balances, under a key that is not taken pays
  -- the freelancer the amount, lowers the client's reserve by it, changes no other balance, and
  -- leaves the escrow RELEASED with the hash.
  pub record_release_pays :
      (e : Escrow) (id client tx user : String) (w : World c) {row : Escrow} {bf bc : Balance}
      → e.client_id ≢ e.freelancer_id
      → user ≢ e.freelancer_id
      → user ≢ e.client_id
      → escrow_of w id ≡ some row
      → balance_of w e.freelancer_id ≡ some bf
      → balance_of w e.client_id ≡ some bc
      → transaction_of w ("release-" <> id) ≡ none
      → let (r, v) = record_release c e id client tx w in
        (r ≡ ok tt)
        × (balance_of v e.freelancer_id ≡ some (paid e.amount bf))
        × (balance_of v e.client_id ≡ some (unreserved e.amount bc))
        × (balance_of v user ≡ balance_of w user)
        × (escrow_of v id
            ≡ some (record row {
              status = EscrowStatus.released;
              released_at = some w.now;
              stellar_tx_hash = some tx;
            }))
  unfolding record_release
  record_release_pays e id client tx user w ne nf nc he hf hc ht =
      grind (arith, laws.find-update_self, laws.find-update_ne)

  -- A refund to a client with a balance, under a key that is not taken, moves the amount from the
  -- reserve to what the client can spend; every other balance stays the same, and the escrow is
  -- REFUNDED.
  pub record_refund_returns :
      (e : Escrow) (id admin reason tx user : String) (w : World c) {row : Escrow} {bc : Balance}
      → user ≢ e.client_id
      → escrow_of w id ≡ some row
      → balance_of w e.client_id ≡ some bc
      → transaction_of w ("refund-" <> id) ≡ none
      → let (r, v) = record_refund c e id admin reason tx w in
        (r ≡ ok tt)
        × (balance_of v e.client_id ≡ some (unreserved e.amount (paid e.amount bc)))
        × (balance_of v user ≡ balance_of w user)
        × (escrow_of v id
            ≡ some (record row {
              status = EscrowStatus.refunded;
              refunded_at = some w.now;
              stellar_tx_hash = some tx;
            }))
  unfolding record_refund
  record_refund_returns e id admin reason tx user w nc he hc ht =
      grind (arith, laws.find-update_self, laws.find-update_ne)

  -- An expiry claim of a client with a balance, under a key that is not taken, moves the amount
  -- from the reserve to what the client can spend; every other balance stays the same, and the
  -- escrow is REFUNDED with the time of expiry.
  pub record_expiry_returns :
      (e : Escrow) (id : String) (by : Option String) (tx user : String) (w : World c)
      {row : Escrow} {bc : Balance}
      → user ≢ e.client_id
      → escrow_of w id ≡ some row
      → balance_of w e.client_id ≡ some bc
      → transaction_of w ("expired-" <> id) ≡ none
      → let (r, v) = record_expiry c e id by tx w in
        (r ≡ ok tt)
        × (balance_of v e.client_id ≡ some (unreserved e.amount (paid e.amount bc)))
        × (balance_of v user ≡ balance_of w user)
        × (escrow_of v id
            ≡ some (record row {
              status = EscrowStatus.refunded;
              refunded_at = some w.now;
              expired_at = some w.now;
              stellar_tx_hash = some tx;
            }))
  unfolding record_expiry
  record_expiry_returns e id by tx user w nc he hc ht =
      grind (arith, laws.find-update_self, laws.find-update_ne)

pub held-return : (x : ℤ) (b : Balance) → held (unreserved x (paid x b)) ≡ held b
held-return x b = omega int_laws
