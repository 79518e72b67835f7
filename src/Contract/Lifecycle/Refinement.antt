-- ===== src/Contract/Lifecycle/Refinement.antt =====
-- Every call does what the contract promises.
use nexus_hub_contract.Prelude.{
  ℕ, Bool, or_default, ◌≡◌, refl, inl, inr, ◌⊎◌, arith, Option-cases, some,
}
use nexus_hub_contract.Prelude.Int.{ℤ, pos, negsuc, ◌≤ℤ◌, times}
use nexus_hub_contract.Contract.Types.{Address}
use nexus_hub_contract.Contract.Host.{Env, Tokens, Machine, returned}
use nexus_hub_contract.Contract.Admin
use nexus_hub_contract.Contract.Admin.{compute_fee}
use nexus_hub_contract.Contract.Progress.{
  NewEscrow, new_record, init_escrow, add_u32, min_dispute_delay,
}
use nexus_hub_contract.Contract.Calls.{Call, perform}
use nexus_hub_contract.Contract.Lifecycle.{Updates, Creates, Governs}
use nexus_hub_contract.Contract.Lifecycle.Progress
use nexus_hub_contract.Contract.Lifecycle.Payment

compute_fee_nonneg :
    (amount fee : ℤ) (bps : ℕ) → pos 0 ≤ℤ amount → compute_fee amount bps ≡ some fee → pos 0 ≤ℤ fee
unfolding times
compute_fee_nonneg (pos n) fee bps h e = ground arith
compute_fee_nonneg (negsuc n) fee bps h e = absurd (omega arith)

module _ (t : Tokens) (env : Env) (s s' : Machine t) where
  init_escrow-Creates : (n : NewEscrow) → init_escrow env n s ≡ returned tt s' → Creates t env s s'
  unfolding init_escrow
  init_escrow-Creates n h = elim (Option-cases (compute_fee n.amount (or_default s.fee_bps 100))) [
    | inl overflow ↦ absurd (ground arith)
    | inr (fee, charged) ↦ elim (Option-cases s.admin) [
      | inl nobody ↦ absurd (ground arith)
      | inr (admin, stored) ↦ elim (Option-cases (add_u32 env.sequence min_dispute_delay)) [
        | inl overflow ↦ absurd (ground arith)
        | inr (earliest, sum) ↦ elim (Option-cases (add_u32 earliest n.dispute_delay)) [
          | inl overflow ↦ absurd (ground arith)
          | inr (deadline, later) ↦ (
            new_record n admin fee deadline,
            record {
              waits = refl;
              signed = ground arith;
              positive = ground arith;
              fee_nonneg =
                  compute_fee_nonneg n.amount fee (or_default s.fee_bps 100) (ground arith) charged;
              charged = charged;
              fee_less = ground arith;
              earliest = ground arith;
              latest = ground arith;
              unexpired = ground arith;
              untouched = (refl, refl, refl);
            },
            stored,
            ground arith,
            ground arith,
            ground arith,
            ground arith,
          )
        ]
      ]
    ]
  ]

  initialize-Governs :
      (a : Address) (bps : ℕ) → Admin.initialize env a bps s ≡ returned tt s' → Governs t env s s'
  unfolding Admin.initialize
  initialize-Governs a bps h = (
    ground arith,
    ground arith,
    a,
    ground arith,
    inr (ground arith, ground arith),
    inr (bps, ground arith, ground arith),
  )

  set_fee-Governs : (bps : ℕ) → Admin.set_fee env bps s ≡ returned tt s' → Governs t env s s'
  unfolding Admin.set_fee
  set_fee-Governs bps h = elim (Option-cases s.admin) [
    | inl nobody ↦ absurd (ground arith)
    | inr (a, stored) ↦ (
      ground arith,
      ground arith,
      a,
      ground arith,
      inl stored,
      inr (bps, ground arith, ground arith),
    )
  ]

  set_paused-Governs :
      (paused : Bool) → Admin.set_paused env paused s ≡ returned tt s' → Governs t env s s'
  unfolding Admin.set_paused
  set_paused-Governs paused h = elim (Option-cases s.admin) [
    | inl nobody ↦ absurd (ground arith)
    | inr (a, stored) ↦
        (ground arith, ground arith, a, ground arith, inl stored, inl (ground arith))
  ]

  transfer_admin-Governs :
      (new_admin : Address)
      → Admin.transfer_admin env new_admin s ≡ returned tt s'
      → Governs t env s s'
  unfolding Admin.transfer_admin
  transfer_admin-Governs new_admin h = elim (Option-cases s.admin) [
    | inl nobody ↦ absurd (ground arith)
    | inr (a, stored) ↦
        (ground arith, ground arith, a, ground arith, inl stored, inl (ground arith))
  ]

  -- Every call of the contract that returns is an act of the specification: it changes the settings
  -- under the administrator's signature, or files a new escrow under the client's, with the fee at
  -- the rate of that time and a deadline for disputes, or moves one stored escrow along an edge of
  -- its life cycle, signed by whom that edge asks for, with the payments of that edge and no
  -- others, and leaves the rest as it was.
  pub perform_refines :
      (c : Call)
      → perform env c s ≡ returned tt s'
      → Governs t env s s' ⊎ Creates t env s s' ⊎ Updates t env s s'
  unfolding perform
  perform_refines (Call.initialize admin bps) h = inl (initialize-Governs admin bps h)
  perform_refines (Call.set_fee bps) h = inl (set_fee-Governs bps h)
  perform_refines (Call.set_paused paused) h = inl (set_paused-Governs paused h)
  perform_refines (Call.transfer_admin a) h = inl (transfer_admin-Governs a h)
  perform_refines (Call.init_escrow n) h = inr (inl (init_escrow-Creates n h))
  perform_refines (Call.fund id) h = inr (inr (Progress.fund-Updates t env s s' id h))
  perform_refines (Call.activate id) h = inr (inr (Progress.activate-Updates t env s s' id h))
  perform_refines (Call.refund id) h = inr (inr (Progress.refund-Updates t env s s' id h))
  perform_refines (Call.claim_expired id) h =
      inr (inr (Progress.claim_expired-Updates t env s s' id h))
  perform_refines (Call.complete_milestone id) h =
      inr (inr (Progress.complete_milestone-Updates t env s s' id h))
  perform_refines (Call.release id hash) h =
      inr (inr (Payment.release-Updates t env s s' id hash h))
  perform_refines (Call.cancel id caller) h =
      inr (inr (Progress.cancel-Updates t env s s' id caller h))
  perform_refines (Call.raise_dispute id caller) h =
      inr (inr (Progress.raise_dispute-Updates t env s s' id caller h))
  perform_refines (Call.resolve_dispute id to_freelancer) h =
      inr (inr (Payment.resolve_dispute-Updates t env s s' id to_freelancer h))
  perform_refines (Call.approve_release id approver) h =
      inr (inr (Payment.approve_release-Updates t env s s' id approver h))
