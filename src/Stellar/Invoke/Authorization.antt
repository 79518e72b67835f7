-- ===== src/Stellar/Invoke/Authorization.antt =====
-- Which authorization entries a call signs, and by whom, for the transaction that it sends.
use mathlib.Core.List.{Memᴰ, Forall₂}
use nexus_hub_contract.Prelude.{
  ℕ, ◌+◌, String, ◌≡◌, ◌≢◌, refl, sym, ◌∙◌, ap, ◌==◌, Option, none, some, List, [], ◌∷◌, ◌⊎◌, inl,
  inr, arith, Option-cases, Bool-cases,
}
use nexus_hub_contract.Prisma.Action.{ok}
use nexus_hub_contract.Stellar.Sdk.{
  Sdk, Arg, Simulation, simulation_error, simulated, Sent, refused, sent,
}
use nexus_hub_contract.Stellar.Invoke.{
  Config, signer_of, sign_entry, sign_auth, submitted, envelope, simulated_call, invoke, ◌>>=◌,
}
use nexus_hub_contract.Stellar.Invoke.Laws.{returned-first, poll-IsConfirmed}

module _ (sdk : Sdk) (signers : List sdk.Key) (until : ℕ) where
  -- An entry as it is sent: signed by one of the signers, whose address it asks for, or as it came,
  -- where it asks for none of them.
  abbrev pub IsSigned : (raw entry : sdk.Entry) → Type 0
  IsSigned raw entry =
      ((kp : sdk.Key) × Memᴰ kp signers
        × (sdk.entry_address raw ≡ some (sdk.public_key kp))
        × (sdk.authorize_entry raw kp until ≡ ok entry))
      ⊎ ((entry ≡ raw)
          × ((kp : sdk.Key) → Memᴰ kp signers → sdk.entry_address raw ≢ some (sdk.public_key kp)))

module _ (sdk : Sdk) where
  signer_of-some :
      (signers : List sdk.Key) (address : String) (kp : sdk.Key)
      → signer_of sdk signers address ≡ some kp
      → Memᴰ kp signers × (sdk.public_key kp ≡ address)
  signer_of-some [] address kp h = absurd (ground arith)
  signer_of-some (k ∷ ks) address kp h = elim (Bool-cases (sdk.public_key k == address)) [
    | inl here ↦ (Memᴰ.head (ground arith), ground arith)
    | inr there ↦
        let (inside, asked) = signer_of-some ks address kp (ground arith) in
        (Memᴰ.tail inside, asked)
  ]

  signer_of-none :
      (signers : List sdk.Key) (address : String) (kp : sdk.Key)
      → signer_of sdk signers address ≡ none
      → Memᴰ kp signers
      → sdk.public_key kp ≢ address
  signer_of-none [] address kp h inside asked = elim inside [ ]
  signer_of-none (k ∷ ks) address kp h (Memᴰ.head same) asked =
      let taken : sdk.public_key k ≡ address = sym (ap (sdk.public_key) same) ∙ asked in
      ground arith
  signer_of-none (k ∷ ks) address kp h (Memᴰ.tail inside) asked =
      elim (Bool-cases (sdk.public_key k == address)) [
        | inl here ↦ ground arith
        | inr there ↦ signer_of-none ks address kp (ground arith) inside asked
      ]

  sign_entry-IsSigned :
      (signers : List sdk.Key) (until : ℕ) (raw entry : sdk.Entry)
      → sign_entry sdk signers until raw ≡ ok entry
      → IsSigned sdk signers until raw entry
  sign_entry-IsSigned signers until raw entry h = elim (Option-cases (sdk.entry_address raw)) [
    | inl unasked ↦ inr (ground arith, λ kp inside asked. absurd (ground arith))
    | inr (address, wanted) ↦ elim (Option-cases (signer_of sdk signers address)) [
      | inl nobody ↦ inr (
        ground arith,
        λ kp inside asked. absurd (signer_of-none signers address kp nobody inside (ground arith)),
      )
      | inr (kp, found) ↦
          let (inside, asked) = signer_of-some signers address kp found in
          inl (kp, inside, wanted ∙ ap some (sym asked), ground arith)
    ]
  ]

  sign_auth-IsSigned :
      (signers : List sdk.Key) (until : ℕ) (raw entries : List sdk.Entry)
      → sign_auth sdk signers until raw ≡ ok entries
      → Forall₂ (IsSigned sdk signers until) raw entries
  unfolding sign_auth
  sign_auth-IsSigned signers until [] entries h =
      let same : [] ≡ entries = ground arith in rw (sym same) Forall₂.nil
  sign_auth-IsSigned signers until (raw ∷ raws) entries h =
      let (entry, signed, after) =
        returned-first (sign_entry sdk signers until raw)
          (λ entry. sign_auth sdk signers until raws >>= λ others. ok (entry ∷ others)) h in
      let (others, rest, all) =
        returned-first (sign_auth sdk signers until raws) (λ others. ok (entry ∷ others)) after in
      let same : entry ∷ others ≡ entries = ground arith in
      rw (sym same) (
        Forall₂.cons (sign_entry-IsSigned signers until raw entry signed)
          (sign_auth-IsSigned signers until raws others rest))

  -- Only the hash that was sent is returned.
  submitted-sent :
      (method h : String) (answer : Sent) → submitted sdk method answer ≡ ok h → answer ≡ sent h
  unfolding submitted
  submitted-sent method h (refused e) ended = absurd (ground arith)
  submitted-sent method h (sent hash) ended =
      ap sent (sym (poll-IsConfirmed sdk hash h 30 0 30 ended).0)

  module _ (config : Config sdk) (method : String) (args : List Arg) (signers : List sdk.Key) where
    -- The transaction was sent after that simulation, as the SDK made it of entries signed so.
    abbrev pub IsSent : String → Simulation sdk.Entry sdk.Raw → Type 0
    IsSent h s =
        (ledger : ℕ) × (raw : List sdk.Entry) × (entries : List sdk.Entry) × (carried : List
          sdk.Entry)
        × (value : Option sdk.Raw) × (s ≡ simulated ledger raw value)
        × (sdk.set_auth raw entries ≡ ok carried)
        × (sdk.send (envelope sdk config method args signers carried) ≡ ok (sent h))
        × Forall₂ (IsSigned sdk signers (ledger + 30)) raw entries

    simulated_call-IsSent :
        (h : String) (s : Simulation sdk.Entry sdk.Raw)
        → simulated_call sdk config method args signers s ≡ ok h
        → IsSent h s
    unfolding simulated_call
    simulated_call-IsSent h (simulation_error e) ended = absurd (ground arith)
    simulated_call-IsSent h (simulated ledger raw value) ended =
        let (entries, signed, after_signing) =
          returned-first (sign_auth sdk signers (ledger + 30) raw)
            (λ entries. sdk.set_auth raw entries >>= λ carried.
              sdk.send (envelope sdk config method args signers carried) >>= submitted sdk method)
            ended in
        let (carried, set, after_setting) =
          returned-first (sdk.set_auth raw entries)
            (λ carried.
              sdk.send (envelope sdk config method args signers carried) >>= submitted sdk method)
            after_signing in
        let (result, went, after_sending) =
          returned-first (sdk.send (envelope sdk config method args signers carried))
            (submitted sdk method) after_setting in
        (
          ledger,
          raw,
          entries,
          carried,
          value,
          refl,
          set,
          went ∙ ap ok (submitted-sent method h result after_sending),
          sign_auth-IsSigned signers (ledger + 30) raw entries signed,
        )

    -- A call that returns a hash was simulated without an error, and each authorization entry of
    -- the simulation has in its place one that is signed by one of the call's signers, whose
    -- address it asks for, until 30 ledgers after the simulation's, or is as it came, where it asks
    -- for none of them; these were set on the operation, and the transaction with what the SDK then
    -- carries was sent, and answered with that hash.
    pub invoke-IsSent :
        (h : String)
        → invoke sdk config method args signers ≡ ok h
        → IsSent h (sdk.simulate config.contract_id method args)
    unfolding invoke
    invoke-IsSent h ended =
        let s = sdk.simulate config.contract_id method args in
        let (_, _, after) =
          returned-first (sdk.get_account (sdk.public_key config.admin_keypair))
            (λ _. simulated_call sdk config method args signers s) ended in
        simulated_call-IsSent h s after
