-- ===== src/Contract/Lifecycle/Payment.antt =====
-- The entry points that release funds do what the contract promises.
use nexus_hub_contract.Prelude.{
  ◌≡◌, Bool, true, false, Option, some, inl, inr, ◌⊎◌, arith, Option-cases, Bool-cases, ◌∷◌, ◌==◌,
  ◌&&◌,
}
use nexus_hub_contract.Prelude.Int.{◌-ℤ◌}
use nexus_hub_contract.Contract.Bytes.{Bytes, lookup, insert, insert_twice}
use nexus_hub_contract.Contract.Types.{Address, EscrowStatus, EscrowRecord, Event}
use nexus_hub_contract.Contract.Host.{Env, Tokens, Machine, returned, Outcome-cases}
use nexus_hub_contract.Contract.Settlement.{
  do_release, release, resolve_dispute, approve, approve_release,
}
use nexus_hub_contract.Contract.Lifecycle.Progress.{not_open-IsOpen}
use nexus_hub_contract.Contract.Lifecycle.{IsOpen, Flow, Flows, Moves, Updates, SameSettings}

module _ (t : Tokens) (env : Env) where
  do_release-Flows :
      (r : EscrowRecord) (s v : Machine t)
      → do_release env r s ≡ returned tt v
      → (v ≡ record s { tokens = v.tokens }) × Flows t env r Flow.pay s.tokens v.tokens
  unfolding do_release
  do_release-Flows r s v h =
      elim (Option-cases (
        t.transfer env r.token env.current_contract_address r.freelancer
          (r.amount -ℤ r.platform_fee) s.tokens)) [
            | inl refused ↦ absurd (ground arith)
            | inr (m, paid) ↦ (ground arith, (m, paid, ground arith))
          ]

module _ (t : Tokens) (env : Env) (s s' : Machine t) where
  pub release-Updates :
      (id : Bytes) (hash : Option Bytes)
      → release env id hash s ≡ returned tt s'
      → Updates t env s s'
  unfolding release
  release-Updates id hash h = elim (Option-cases (lookup id s.escrows)) [
    | inl gone ↦ absurd (ground arith)
    | inr (r, there) ↦ elim (Outcome-cases (do_release env r s)) [
      | inr stuck ↦ absurd (grind arith)
      | inl (_, v, done) ↦
          let (same, flows) = do_release-Flows t env r s v done in
          (
            id,
            r,
            record r { status = EscrowStatus.released },
            Flow.pay,
            there,
            Moves.release (not_open-IsOpen r (ground arith)) (ground arith),
            ground arith,
            let stays : v.tokens ≡ s'.tokens = ground arith in rw stays at flows,
            ground arith,
          )
    ]
  ]

  pub resolve_dispute-Updates :
      (id : Bytes) (to_freelancer : Bool)
      → resolve_dispute env id to_freelancer s ≡ returned tt s'
      → Updates t env s s'
  unfolding resolve_dispute
  resolve_dispute-Updates id false h = elim (Option-cases (lookup id s.escrows)) [
    | inl gone ↦ absurd (ground arith)
    | inr (r, there) ↦ (
      id,
      r,
      record r { status = EscrowStatus.refunded },
      Flow.give_back,
      there,
      Moves.refund (inr (ground arith)) (ground arith),
      ground arith,
      ground arith,
      ground arith,
    )
  ]
  resolve_dispute-Updates id true h = elim (Option-cases (lookup id s.escrows)) [
    | inl gone ↦ absurd (ground arith)
    | inr (r, there) ↦ elim (Outcome-cases (do_release env r s)) [
      | inr stuck ↦ absurd (grind arith)
      | inl (_, v, done) ↦
          let (same, flows) = do_release-Flows t env r s v done in
          (
            id,
            r,
            record r { status = EscrowStatus.released },
            Flow.pay,
            there,
            Moves.award (ground arith) (ground arith),
            ground arith,
            let stays : v.tokens ≡ s'.tokens = ground arith in rw stays at flows,
            ground arith,
          )
    ]
  ]

  -- One approval is stored; two release the funds.
  approve_lem :
      (id : Bytes) (approver : Address) (r : EscrowRecord)
      → approve env id approver (some r) s ≡ returned tt s'
      → (((r.client_approved && r.freelancer_approved) ≡ false)
          × (s'.escrows ≡ insert r.escrow_id r s.escrows)
          × (s'.tokens ≡ s.tokens)
          × SameSettings s s')
        ⊎ (((r.client_approved && r.freelancer_approved) ≡ true)
            × (s'.escrows
                ≡ insert r.escrow_id (record r { status = EscrowStatus.released }) s.escrows)
            × Flows t env r Flow.pay s.tokens s'.tokens
            × SameSettings s s')
  approve_lem id approver r h = elim (Bool-cases (r.client_approved && r.freelancer_approved)) [
    | inr waits ↦ inl (waits, ground arith, ground arith, ground arith)
    | inl both ↦
        let u = record s {
          escrows = insert r.escrow_id r s.escrows;
          events =
              Event.approval_recorded id approver r.client_approved r.freelancer_approved
              ∷ s.events;
        } in
        elim (Outcome-cases (do_release env r u)) [
          | inr stuck ↦ absurd (grind arith)
          | inl (_, v, done) ↦
              let (same, flows) = do_release-Flows t env r u v done in
              let stays : v.tokens ≡ s'.tokens = ground arith in
              inr (
                both,
                ground (
                  arith,
                  insert_twice r.escrow_id r (record r { status = EscrowStatus.released })
                      s.escrows,
                ),
                rw stays at flows,
                ground arith,
              )
        ]
  ]

  client-Updates :
      (id : Bytes) (approver : Address) (r : EscrowRecord)
      → lookup id s.escrows ≡ some r
      → IsOpen r.status
      → env.authorizes r.client ≡ true
      → approve env id approver (some (record r { client_approved = true })) s ≡ returned tt s'
      → Updates t env s s'
  client-Updates id approver r there opened signed h =
      elim (approve_lem id approver (record r { client_approved = true }) h) [
        | inl (waits, saved, same, settings) ↦ (
          id,
          r,
          _,
          Flow.stay,
          there,
          Moves.client_approves opened signed waits,
          saved,
          same,
          settings,
        )
        | inr (both, saved, paid, settings) ↦ (
          id,
          r,
          _,
          Flow.pay,
          there,
          Moves.client_agrees opened signed both,
          saved,
          paid,
          settings,
        )
      ]

  freelancer-Updates :
      (id : Bytes) (approver : Address) (r : EscrowRecord)
      → lookup id s.escrows ≡ some r
      → IsOpen r.status
      → env.authorizes r.freelancer ≡ true
      → approve env id approver (some (record r { freelancer_approved = true })) s ≡ returned tt s'
      → Updates t env s s'
  freelancer-Updates id approver r there opened signed h =
      elim (approve_lem id approver (record r { freelancer_approved = true }) h) [
        | inl (waits, saved, same, settings) ↦ (
          id,
          r,
          _,
          Flow.stay,
          there,
          Moves.freelancer_approves opened signed (ground arith),
          saved,
          same,
          settings,
        )
        | inr (both, saved, paid, settings) ↦ (
          id,
          r,
          _,
          Flow.pay,
          there,
          Moves.freelancer_agrees opened signed (ground arith),
          saved,
          paid,
          settings,
        )
      ]

  pub approve_release-Updates :
      (id : Bytes) (approver : Address)
      → approve_release env id approver s ≡ returned tt s'
      → Updates t env s s'
  unfolding approve_release
  approve_release-Updates id approver h = elim (Option-cases (lookup id s.escrows)) [
    | inl gone ↦ absurd (ground arith)
    | inr (r, there) ↦ elim (Bool-cases (approver == r.client)) [
      | inl by_client ↦
          client-Updates id approver r there (not_open-IsOpen r (ground arith)) (ground arith)
            (ground arith)
      | inr other ↦
          freelancer-Updates id approver r there (not_open-IsOpen r (ground arith)) (ground arith)
            (ground arith)
    ]
  ]
