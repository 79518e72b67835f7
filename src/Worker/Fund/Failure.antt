-- ===== src/Worker/Fund/Failure.antt =====
-- The runs of a funding job that the chain refuses.
use nexus_hub_contract.Prelude.{String, ◌≡◌, ◌≢◌, inl, inr, List, [], ◌∷◌, some, arith, length, All}
use nexus_hub_contract.Prelude.Int.{ℤ, ◌+ℤ◌, ◌-ℤ◌, times, repeats}
use nexus_hub_contract.Model.Enums.{EscrowStatus}
use nexus_hub_contract.Model.Rows.{Escrow, Balance}
use nexus_hub_contract.Prisma.Client.{Client, IsLawful}
use nexus_hub_contract.Prisma.World.{World, balance_of, escrow_of}
use nexus_hub_contract.Prisma.Action.{Exception, ok, throws, Result-cases}
use nexus_hub_contract.Worker.Chain.{Stellar}
use nexus_hub_contract.Worker.Fund.{try_fund, handle_fund_failure, fund_escrow}

-- The chain refuses to fund: the call throws.
abbrev pub Refuses : Stellar → Type 0
Refuses s = (x : Exception) × ((id secret : String) → s.fund_escrow id secret ≡ throws x)

-- The runs of one FUND_ESCROW job: the queue starts the next one after each that throws. The list
-- holds the chain's answers in each run that the job's `attempts` allow.
unfoldable pub attempts : (c : Client) → List Stellar → String → String → ℤ → World c → World c
attempts c [] id client amount w = w
attempts c (s ∷ ss) id client amount w =
    let (r, v) = fund_escrow c s id client amount w in
    elim r [ ok _ ↦ v | throws _ ↦ attempts c ss id client amount v ]

-- One credit of `total` to what is available, with a cut of the reserve by `amount`.
abbrev pub credit : ℤ → ℤ → Balance → Balance
credit total amount b = record b {
  available_amount = b.available_amount +ℤ total;
  reserved_amount = b.reserved_amount -ℤ amount;
}

module _ (c : Client) (laws : IsLawful c) where
  pub try_fund-same :
      (s : Stellar) (id client : String) (amount : ℤ) (w : World c)
      → Refuses s
      → (try_fund c s id client amount w).1 ≡ w
  unfolding try_fund
  try_fund-same s id client amount w (x, refuses) = grind (arith, refuses)

  pub try_fund-throws :
      (s : Stellar) (id client : String) (amount : ℤ) (w : World c) (r : String × String)
      → Refuses s
      → (try_fund c s id client amount w).0 ≢ ok r
  unfolding try_fund
  try_fund-throws s id client amount w r (x, refuses) = grind (arith, refuses)

  pub handle_fund_failure_lem :
      (id client : String) (w : World c) {e : Escrow} {b : Balance}
      → escrow_of w id ≡ some e
      → balance_of w client ≡ some b
      → let (r, v) = handle_fund_failure c id client w in
        (r ≡ ok tt)
        × (balance_of v client ≡ some (credit (e.amount +ℤ e.fee) e.amount b))
        × (escrow_of v id ≡ some (record e { status = EscrowStatus.cancelled }))
  unfolding handle_fund_failure
  handle_fund_failure_lem id client w he hb = grind (arith, laws.find-update_self)

  -- A run that the chain refuses throws, credits the client with the amount and the fee, cuts the
  -- reserve by the amount, and cancels the escrow.
  pub fund_escrow_refused :
      (s : Stellar) (id client : String) (amount : ℤ) (w : World c) {e : Escrow} {b : Balance}
      → Refuses s
      → escrow_of w id ≡ some e
      → balance_of w client ≡ some b
      → let (r, v) = fund_escrow c s id client amount w in
        ((x : Exception) × (r ≡ throws x))
        × (balance_of v client ≡ some (credit (e.amount +ℤ e.fee) e.amount b))
        × (escrow_of v id ≡ some (record e { status = EscrowStatus.cancelled }))
  unfolding fund_escrow
  fund_escrow_refused s id client amount w {e} {b} refuses he hb =
      elim (Result-cases (try_fund c s id client amount w).0) [
        | inl (a, ended) ↦ absurd (try_fund-throws s id client amount w a refuses ended)
        | inr (x, ended) ↦
            let same = try_fund-same s id client amount w refuses in
            let (done, paid, cancelled) = handle_fund_failure_lem id client w he hb in
            ((x, ground arith), ground arith, ground arith)
      ]

  -- Every run of a funding job that the chain refuses credits the client anew: after all of them
  -- the client has the amount and the fee once for each run, and the reserve is cut as often.
  pub attempts_refused :
      (ss : List Stellar) (id client : String) (amount : ℤ) (w : World c) {e : Escrow} {b : Balance}
      → All Refuses ss
      → escrow_of w id ≡ some e
      → balance_of w client ≡ some b
      → balance_of (attempts c ss id client amount w) client
        ≡ some (record b {
          available_amount = b.available_amount +ℤ times (length ss) (e.amount +ℤ e.fee);
          reserved_amount = b.reserved_amount -ℤ times (length ss) e.amount;
        })
  unfolding attempts
  attempts_refused [] id client amount w refuse he hb = simp (hb, repeats)
  attempts_refused (s ∷ ss) id client amount w {e} {b} (no_funds, refuse) he hb =
      let ((x, ended), paid, cancelled) = fund_escrow_refused s id client amount w no_funds he hb in
      let v = (fund_escrow c s id client amount w).1 in
      let rest = attempts_refused ss id client amount v refuse cancelled paid in
      rw (ended, attempts) (simp (rest, repeats))
