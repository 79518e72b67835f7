-- ===== src/Stellar/Invoke/Laws.antt =====
-- When a call returns a hash, and how the poll ends.
use nexus_hub_contract.Prelude.{
  ℕ, zero, suc, ◌+◌, ◌<◌, ◌≡◌, refl, inl, inr, String, ◌<>◌, List, arith,
}
use nexus_hub_contract.Prisma.Action.{Result, ok, throws, error, Result-cases}
use nexus_hub_contract.Stellar.Sdk.{
  Sdk, Arg, Simulation, simulation_error, simulated, Sent, refused, sent, TransactionStatus,
  success, failed, pending,
}
use nexus_hub_contract.Stellar.Invoke.{
  Config, sign_auth, poll, wait_for_transaction, submitted, envelope, simulated_call, invoke, ◌>>=◌,
}

-- A chain of two calls returns only if the first did, and the second from there.
pub returned-first :
    {Answer Next : Type 0} {next : Next} (first : Result Answer) (then : Answer → Result Next)
    → (first >>= then) ≡ ok next
    → (answer : Answer) × (first ≡ ok answer) × (then answer ≡ ok next)
returned-first (ok answer) then done = (answer, refl, done)
returned-first (throws x) then done = absurd (ground arith)

module _ (sdk : Sdk) where
  -- The transaction has succeeded in one of the polls from `i` on.
  abbrev pub IsConfirmed : String → (i left : ℕ) → Type 0
  IsConfirmed hash i left =
      (n : ℕ) × (n < left) × (sdk.get_transaction hash (i + n) ≡ ok TransactionStatus.success)

  pub poll-IsConfirmed :
      (hash h : String) (attempts i left : ℕ)
      → poll sdk hash attempts i left ≡ ok h
      → (h ≡ hash) × IsConfirmed hash i left
  unfolding poll
  poll-IsConfirmed hash h attempts i zero ended = absurd (ground arith)
  poll-IsConfirmed hash h attempts i (suc left) ended =
      elim (Result-cases (sdk.get_transaction hash i)) [
        | inr (x, answer) ↦ absurd (grind arith)
        | inl (success, answer) ↦ (grind arith, (0, omega arith, grind arith))
        | inl (failed, answer) ↦ absurd (grind arith)
        | inl (pending, answer) ↦
            let (same, (n, below, confirmed)) =
              poll-IsConfirmed hash h attempts (suc i) left (grind arith) in
            let shift : suc i + n ≡ i + suc n = omega arith in
            (same, (suc n, omega arith, rw shift at confirmed))
      ]

  -- The poll returns the hash at the first answer that is not pending where that one is a success,
  -- however many pending answers come first, as long as it is one of the attempts.
  pub poll_pending :
      (hash : String) (attempts i n left : ℕ)
      → ((j : ℕ) → j < n → sdk.get_transaction hash (i + j) ≡ ok TransactionStatus.pending)
      → poll sdk hash attempts i (n + left) ≡ poll sdk hash attempts (i + n) left
  unfolding poll
  poll_pending hash attempts i zero left waits =
      let start : i + 0 ≡ i = omega arith in
      let all : 0 + left ≡ left = omega arith in rw (start, all) refl
  poll_pending hash attempts i (suc n) left waits =
      let now : sdk.get_transaction hash i ≡ ok TransactionStatus.pending =
        let start : i + 0 ≡ i = omega arith in rw start at (waits 0 (omega arith)) in
      let later = poll_pending hash attempts (suc i) n left λ j below.
        let shift : suc i + j ≡ i + suc j = omega arith in rw shift (waits (suc j) (omega arith)) in
      let step : suc n + left ≡ suc (n + left) = omega arith in
      let shift : i + suc n ≡ suc i + n = omega arith in rw (step, shift, poll, now) later

  -- The queue of polls ends after thirty pending answers: the call throws.
  pub wait_for_transaction_times_out :
      (hash : String)
      → ((j : ℕ) → j < 30 → sdk.get_transaction hash j ≡ ok TransactionStatus.pending)
      → wait_for_transaction sdk hash
        ≡ throws
            (error ("Transaction " <> hash <> " timed out after " <> sdk.show_number 30 <> "s"))
  unfolding poll
  wait_for_transaction_times_out hash waits =
      poll_pending hash 30 0 30 0
        λ j below. let start : 0 + j ≡ j = omega arith in rw start (waits j below)

  submitted-IsConfirmed :
      (method h : String) (s : Sent) → submitted sdk method s ≡ ok h → IsConfirmed h 0 30
  unfolding submitted
  submitted-IsConfirmed method h (refused e) ended = absurd (ground arith)
  submitted-IsConfirmed method h (sent hash) ended =
      let (same, confirmed) = poll-IsConfirmed hash h 30 0 30 ended in rw same confirmed

  simulated_call-IsConfirmed :
      (config : Config sdk) (method : String) (args : List Arg) (signers : List sdk.Key)
      (h : String) (s : Simulation sdk.Entry sdk.Raw)
      → simulated_call sdk config method args signers s ≡ ok h
      → IsConfirmed h 0 30
  unfolding simulated_call
  simulated_call-IsConfirmed config method args signers h (simulation_error e) ended =
      absurd (ground arith)
  simulated_call-IsConfirmed config method args signers h (simulated ledger auth value) ended =
      let (entries, _, after_signing) =
        returned-first (sign_auth sdk signers (ledger + 30) auth)
          (λ entries. sdk.set_auth auth entries >>= λ carried.
            sdk.send (envelope sdk config method args signers carried) >>= submitted sdk method)
          ended in
      let (carried, _, after_setting) =
        returned-first (sdk.set_auth auth entries)
          (λ carried.
            sdk.send (envelope sdk config method args signers carried) >>= submitted sdk method)
          after_signing in
      let (result, _, after_sending) =
        returned-first (sdk.send (envelope sdk config method args signers carried))
          (submitted sdk method) after_setting in
      submitted-IsConfirmed method h result after_sending

  -- A call that returns a hash has waited until the network found that transaction to have
  -- succeeded, in one of thirty polls.
  pub invoke-IsConfirmed :
      (config : Config sdk) (method : String) (args : List Arg) (signers : List sdk.Key)
      (h : String)
      → invoke sdk config method args signers ≡ ok h
      → IsConfirmed h 0 30
  unfolding invoke
  invoke-IsConfirmed config method args signers h ended =
      let call =
        simulated_call sdk config method args signers
          (sdk.simulate config.contract_id method args) in
      let (_, _, after) =
        returned-first (sdk.get_account (sdk.public_key config.admin_keypair)) (λ _. call) ended in
      simulated_call-IsConfirmed config method args signers h _ after
