-- ===== src/Worker/Fund/Outcome.antt =====
-- A run of a funding job that the chain accepts.
use nexus_hub_contract.Prelude.{
  ℕ, String, ◌≡◌, ◌<>◌, some, [], ◌∷◌, true, false, arith, truthy, inl, inr, ◌⊎◌, Option-cases,
  or_default, ap, ◌∙◌,
}
use nexus_hub_contract.Prelude.Int.{ℤ, ◌+ℤ◌}
use nexus_hub_contract.Model.Enums.{EscrowStatus, TransactionStatus, WebhookEvent}
use nexus_hub_contract.Model.Rows.{Escrow, Balance, Transaction, User, Json, Payload}
use nexus_hub_contract.Prisma.Client.{Client, IsLawful}
use nexus_hub_contract.Prisma.World.{World, balance_of, escrow_of, transaction_of, user_of}
use nexus_hub_contract.Prisma.Action.{Exception, ok, throws, Result-cases}
use nexus_hub_contract.Worker.Chain.{Stellar, InitParams}
use nexus_hub_contract.Worker.Notify.{fire_webhook}
use nexus_hub_contract.Worker.Notify.Laws.{fire_webhook-SameRows}
use nexus_hub_contract.Worker.Fund.Stroops.{stroops_of}
use nexus_hub_contract.Worker.Fund.{
  is_pending_lock, record_funding, try_fund, handle_fund_failure, fund_escrow,
}
use nexus_hub_contract.Worker.Fund.Failure.{credit, handle_fund_failure_lem}

-- The chain answers every call of a funding job, and funds under the hash.
abbrev pub Accepts : Stellar → String → Type 0
Accepts s tx =
    ((ciphertext : String) → (secret : String) × (s.decrypt_secret ciphertext ≡ ok secret))
    × ((p : InitParams) → (hash : String) × (s.init_escrow p ≡ ok hash))
    × ((id secret : String) → s.fund_escrow id secret ≡ ok tx)

-- The rows after the chain has funded the escrow.
abbrev pub funded : Stellar → String → ℕ → String → Escrow → Escrow
funded s id now tx e = record e {
  status = EscrowStatus.funded;
  stellar_contract_id = some (s.admin_public_key <> "_" <> id);
  stellar_tx_hash = some tx;
  funded_at = some now;
}

abbrev pub completed : String → Transaction → Transaction
completed tx t = record t { status = TransactionStatus.completed; reference = some tx }

-- The payload of ESCROW_FUNDED.
abbrev pub notice : String → String → ℤ → Payload
notice id tx amount =
    ("escrowId", Json.text id) ∷ ("txHash", Json.text tx) ∷ ("amount", Json.decimal amount) ∷ []

module _ (c : Client) (laws : IsLawful c) (s : Stellar) where
  record_funding_lem :
      (id client tx : String) (amount : ℤ) (w : World c) {e : Escrow}
      → escrow_of w id ≡ some e
      → let (r, v) = record_funding c s id client amount tx w in
        (r ≡ ok tt)
        × (escrow_of v id ≡ some (funded s id w.now tx e))
        × (v.db.balances ≡ w.db.balances)
  unfolding record_funding
  record_funding_lem id client tx amount w he = grind (arith, laws.find-update_self)

  record_funding-completes :
      (id client tx key : String) (amount : ℤ) (w : World c) {e : Escrow} {t : Transaction}
      → escrow_of w id ≡ some e
      → transaction_of w key ≡ some t
      → is_pending_lock id t ≡ true
      → transaction_of (record_funding c s id client amount tx w).1 key ≡ some (completed tx t)
  unfolding record_funding
  record_funding-completes id client tx key amount w {e} {t} he ht pending =
      let changed =
        laws.find-update_many Transaction key (is_pending_lock id) (completed tx) t
          w.db.transactions ht in
      ground (arith, changed)

  -- The webhooks come last.
  try_fund_accepted :
      (id client tx encrypted address : String) (amount : ℤ) (w : World c) {e : Escrow}
      {uc uf : User}
      → Accepts s tx
      → escrow_of w id ≡ some e
      → user_of w client ≡ some uc
      → truthy uc.stellar_secret_encrypted ≡ some encrypted
      → user_of w e.freelancer_id ≡ some uf
      → truthy uf.stellar_public_key ≡ some address
      → let u = (record_funding c s id client amount tx w).1 in
        let (n, v) = fire_webhook c WebhookEvent.escrow_funded (notice id tx amount) client u in
        try_fund c s id client amount w ≡ (elim n [ ok _ ↦ ok (id, tx) | throws x ↦ throws x ], v)
  unfolding try_fund
  try_fund_accepted id client tx encrypted address amount w {e} (decrypts, inits, funds) he hc key
        hf to =
      let (secret, decrypted) = decrypts encrypted in
      let (recorded, _, _) = record_funding_lem id client tx amount w he in
      let paid = funds id secret in
      elim (Option-cases (truthy e.stellar_contract_id)) [
        | inl unset ↦
            let (hash, begun) = inits (record {
              escrow_id = id;
              client_secret = secret;
              freelancer_address = address;
              amount = stroops_of amount;
              milestone_hash = or_default e.milestone_hash (s.sha256_hex id);
              description = e.description;
              dispute_delay = 0;
              milestones_total = e.milestones_total;
              expiry_ledger = e.expiry_ledger;
            }) in
            grind arith
        | inr (contract, set) ↦ grind arith
      ]

  -- What the webhooks leave is what the writes after the confirmation left.
  told_rows :
      (id client tx key : String) (amount : ℤ) (w : World c) {e : Escrow} {b : Balance}
      {t : Transaction}
      → escrow_of w id ≡ some e
      → balance_of w client ≡ some b
      → transaction_of w key ≡ some t
      → is_pending_lock id t ≡ true
      → let u = (record_funding c s id client amount tx w).1 in
        let v = (fire_webhook c WebhookEvent.escrow_funded (notice id tx amount) client u).1 in
        (escrow_of v id ≡ some (funded s id w.now tx e))
        × (balance_of v client ≡ some b)
        × (transaction_of v key ≡ some (completed tx t))
  told_rows id client tx key amount w he hb ht pending =
      let u = (record_funding c s id client amount tx w).1 in
      let (_, escrow, balances) = record_funding_lem id client tx amount w he in
      let paid = record_funding-completes id client tx key amount w he ht pending in
      let same =
        fire_webhook-SameRows c laws WebhookEvent.escrow_funded (notice id tx amount) client u in
      (
        ap (λ d. c.find_unique Escrow id d.escrows) same ∙ escrow,
        ap (λ d. c.find_unique Balance client d.balances) same
            ∙ ap (c.find_unique Balance client) balances
            ∙ hb,
        ap (λ d. c.find_unique Transaction key d.transactions) same ∙ paid,
      )

  completed-done : (id tx : String) (t : Transaction) → is_pending_lock id (completed tx t) ≡ false
  completed-done id tx t = ground arith

  -- A failure leaves a transaction alone that is no pending lock of the escrow.
  handle_fund_failure-keeps :
      (id client key : String) (w : World c) (t : Transaction) {e : Escrow} {b : Balance}
      → escrow_of w id ≡ some e
      → balance_of w client ≡ some b
      → transaction_of w key ≡ some t
      → is_pending_lock id t ≡ false
      → transaction_of (handle_fund_failure c id client w).1 key ≡ some t
  unfolding handle_fund_failure
  handle_fund_failure-keeps id client key w t he hb ht other =
      let changed =
        laws.find-update_many Transaction key (is_pending_lock id)
          (λ t. record t { status = TransactionStatus.failed }) t w.db.transactions ht in
      ground (arith, changed)

  -- A run of a funding job that the chain accepts, of an escrow whose client has a key, a balance
  -- and a pending booking and whose freelancer has an address: if the webhooks are queued, it
  -- returns the hash, the escrow is FUNDED, the booking COMPLETED, and the balance stays the same;
  -- if queueing them throws, the run throws likewise, the booking stays COMPLETED, but the escrow
  -- is CANCELLED and the client credited with amount and fee, and the reserve is cut by the amount.
  pub fund_escrow_accepted :
      (id client tx key encrypted address : String) (amount : ℤ) (w : World c) {e : Escrow}
      {uc uf : User} {b : Balance} {t : Transaction}
      → Accepts s tx
      → escrow_of w id ≡ some e
      → user_of w client ≡ some uc
      → truthy uc.stellar_secret_encrypted ≡ some encrypted
      → user_of w e.freelancer_id ≡ some uf
      → truthy uf.stellar_public_key ≡ some address
      → balance_of w client ≡ some b
      → transaction_of w key ≡ some t
      → is_pending_lock id t ≡ true
      → let u = (record_funding c s id client amount tx w).1 in
        let told = (fire_webhook c WebhookEvent.escrow_funded (notice id tx amount) client u).0 in
        let (r, v) = fund_escrow c s id client amount w in
        ((told ≡ ok tt)
          × (r ≡ ok (id, tx))
          × (escrow_of v id ≡ some (funded s id w.now tx e))
          × (balance_of v client ≡ some b)
          × (transaction_of v key ≡ some (completed tx t)))
        ⊎ ((x : Exception) × (told ≡ throws x)
            × (r ≡ throws x)
            × (escrow_of v id
                ≡ some (record (funded s id w.now tx e) { status = EscrowStatus.cancelled }))
            × (balance_of v client ≡ some (credit (e.amount +ℤ e.fee) e.amount b))
            × (transaction_of v key ≡ some (completed tx t)))
  unfolding fund_escrow
  fund_escrow_accepted id client tx key encrypted address amount w {e} {b = b} {t} accepts he hc
        secret hf to hb ht pending =
      let run =
        try_fund_accepted id client tx encrypted address amount w accepts he hc secret hf to in
      let (escrow, balance, booked) = told_rows id client tx key amount w he hb ht pending in
      let u = (record_funding c s id client amount tx w).1 in
      let n = fire_webhook c WebhookEvent.escrow_funded (notice id tx amount) client u in
      elim (Result-cases n.0) [
        | inl (_, done) ↦ inl (done, ground arith, ground arith, ground arith, ground arith)
        | inr (x, failed) ↦
            let (handled, credited, cancelled) =
              handle_fund_failure_lem c laws id client n.1 escrow balance in
            let kept =
              handle_fund_failure-keeps id client key n.1 (completed tx t) escrow balance booked
                (completed-done id tx t) in
            inr (x, failed, ground arith, ground arith, ground arith, ground arith)
      ]
