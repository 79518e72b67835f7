-- ===== src/Contract/Payout.antt =====
-- Who lets a release happen, and who is paid by it.
use nexus_hub_contract.Prelude.{
  ◌≡◌, ◌≢◌, refl, sym, subst, ap, ◌∙◌, true, some, arith, inl, inr, ◌⊎◌, Bool-cases,
}
use nexus_hub_contract.Prelude.Int.{ℤ, pos, ◌+ℤ◌, ◌-ℤ◌, ◌≤ℤ◌, ltb_ℤ, pos_part, neg_part, int_laws}
use nexus_hub_contract.Contract.Bytes.{Bytes, lookup}
use nexus_hub_contract.Contract.Types.{Address, EscrowRecord, EscrowStatus}
use nexus_hub_contract.Contract.Host.{Env, Tokens, IsLedger, Machine, returned, share}
use nexus_hub_contract.Contract.Calls.{Call, perform, Reaches, deployed}
use nexus_hub_contract.Contract.Lifecycle.{Moves, Flow, Flows}
use nexus_hub_contract.Contract.Solvency.Escrows.{lookup-IsFiled}
use nexus_hub_contract.Contract.Solvency.Invariant.{Reaches-IsSolvent}
use nexus_hub_contract.Contract.History.{perform-Follows}

module _ (t : Tokens) (laws : IsLedger t) (env : Env) (token from to : Address) (amount : ℤ)
    (l : t.Ledger) {l' : t.Ledger} (moved : t.transfer env token from to amount l ≡ some l') where
  pub transfer-to : from ≢ to → t.balance l' token to ≡ t.balance l token to +ℤ amount
  transfer-to apart =
      let out : share token to token from amount ≡ pos 0 = ground arith in
      let back : share token to token to amount ≡ amount = ground arith in
      laws.transfer-moves env token from to amount l token to moved
      ∙ rw (out, back) (omega int_laws)

  pub transfer-from : from ≢ to → t.balance l' token from ≡ t.balance l token from -ℤ amount
  transfer-from apart =
      let out : share token from token from amount ≡ amount = ground arith in
      let back : share token from token to amount ≡ pos 0 = ground arith in
      laws.transfer-moves env token from to amount l token from moved
      ∙ rw (out, back) (omega int_laws)

  pub transfer-other :
      (holder : Address)
      → holder ≢ from
      → holder ≢ to
      → t.balance l' token holder ≡ t.balance l token holder
  transfer-other holder apart apart' =
      let out : share token holder token from amount ≡ pos 0 = ground arith in
      let back : share token holder token to amount ≡ pos 0 = ground arith in
      laws.transfer-moves env token from to amount l token holder moved
      ∙ rw (out, back) (omega int_laws)

module _ (t : Tokens) (laws : IsLedger t) (env : Env) where
  abbrev here : Address
  here = env.current_contract_address

  -- The freelancer has the amount less the fee, the administrator the fee, and the contract has paid
  -- the amount.
  abbrev pub IsPaid : EscrowRecord → t.Ledger → t.Ledger → Type 0
  IsPaid r l l' =
      (t.balance l' r.token r.freelancer
        ≡ t.balance l r.token r.freelancer +ℤ (r.amount -ℤ r.platform_fee))
      × (t.balance l' r.token r.admin ≡ t.balance l r.token r.admin +ℤ r.platform_fee)
      × (t.balance l' r.token here ≡ t.balance l r.token here -ℤ r.amount)

  sub_parts : (b b' b'' x y : ℤ) → b' ≡ b -ℤ (x -ℤ y) → b'' ≡ b' -ℤ y → b'' ≡ b -ℤ x
  sub_parts b b' b'' x y e e' =
      omega (int_laws, ap pos_part e, ap neg_part e, ap pos_part e', ap neg_part e')

  pay-IsPaid :
      (r : EscrowRecord) (l l' : t.Ledger)
      → r.freelancer ≢ here
      → r.admin ≢ here
      → r.freelancer ≢ r.admin
      → pos 0 ≤ℤ r.platform_fee
      → Flows t env r Flow.pay l l'
      → IsPaid r l l'
  pay-IsPaid r l l' nf na nfa fee_nonneg (m, paid, charged) =
      let rest = r.amount -ℤ r.platform_fee in
      let to = transfer-to t laws env r.token here r.freelancer rest l paid (λ p. nf (sym p)) in
      let from = transfer-from t laws env r.token here r.freelancer rest l paid (λ p. nf (sym p)) in
      let other =
        transfer-other t laws env r.token here r.freelancer rest l paid r.admin na
          (λ p. nfa (sym p)) in
      elim (Bool-cases (ltb_ℤ (pos 0) r.platform_fee)) [
        | inl some_fee ↦
            let fee = rw some_fee at charged in
            (
              transfer-other t laws env r.token here r.admin r.platform_fee m fee r.freelancer nf
                    nfa
                  ∙ to,
              transfer-to t laws env r.token here r.admin r.platform_fee m fee (λ p. na (sym p))
                  ∙ ap (λ b. b +ℤ r.platform_fee) other,
              sub_parts _ _ _ r.amount r.platform_fee from (
                  transfer-from t laws env r.token here r.admin r.platform_fee m fee
                    (λ p. na (sym p))),
            )
        | inr no_fee ↦
            let stays : m ≡ l' = ground arith in
            let zero : r.platform_fee ≡ pos 0 = ground arith in
            subst (λ k. IsPaid r l k) stays
              (to, other ∙ rw zero (omega int_laws), from ∙ rw zero (omega int_laws))
      ]

-- The authority for a release: the client's; or the freelancer's, where the client has approved; or,
-- in a dispute, the administrator's.
abbrev pub MayRelease : Env → EscrowRecord → Type 0
MayRelease env r =
    (env.authorizes r.client ≡ true)
    ⊎ ((env.authorizes r.freelancer ≡ true) × (r.client_approved ≡ true))
    ⊎ ((env.authorizes r.admin ≡ true) × (r.status ≡ EscrowStatus.disputed))

Moves-released :
    {env : Env} {r r' : EscrowRecord} {flow : Flow}
    → Moves env r r' flow
    → r.status ≢ EscrowStatus.released
    → r'.status ≡ EscrowStatus.released
    → (flow ≡ Flow.pay) × MayRelease env r
Moves-released (Moves.fund _ _) before now = cc
Moves-released (Moves.activate _ _) before now = cc
Moves-released (Moves.cancel _ _) before now = cc
Moves-released (Moves.dispute _ _) before now = cc
Moves-released (Moves.complete _ _ _) before now = absurd (before now)
Moves-released (Moves.release _ signed) before now = (refl, inl signed)
Moves-released (Moves.refund _ _) before now = cc
Moves-released (Moves.award disputed signed) before now = (refl, inr (inr (signed, disputed)))
Moves-released (Moves.expire _ _ _) before now = cc
Moves-released (Moves.client_approves _ _ _) before now = absurd (before now)
Moves-released (Moves.freelancer_approves _ _ _) before now = absurd (before now)
Moves-released (Moves.client_agrees _ signed _) before now = (refl, inl signed)
Moves-released (Moves.freelancer_agrees _ signed agrees) before now =
    (refl, inr (inl (signed, agrees)))

module _ (t : Tokens) (laws : IsLedger t) (env : Env) where
  -- In a state that the contract reaches, a call that turns a stored escrow to Released was signed
  -- by the client, or by the freelancer after the client had approved, or, in a dispute, by the
  -- administrator of the escrow; where the freelancer, that administrator and the contract are
  -- three addresses, the freelancer has the amount less the fee, that administrator the fee, and
  -- the contract has paid the amount.
  pub perform_releases :
      (owner : Address) (start : t.Ledger) (c : Call) (id : Bytes) (r r' : EscrowRecord)
      (s s' : Machine t)
      → ((token : Address) → pos 0 ≤ℤ t.balance start token owner)
      → Reaches t owner (deployed t owner start) s
      → lookup id s.escrows ≡ some r
      → perform env c s ≡ returned tt s'
      → lookup id s'.escrows ≡ some r'
      → r.status ≢ EscrowStatus.released
      → r'.status ≡ EscrowStatus.released
      → r.freelancer ≢ env.current_contract_address
      → r.admin ≢ env.current_contract_address
      → r.freelancer ≢ r.admin
      → MayRelease env r × IsPaid t laws env r s.tokens s'.tokens
  perform_releases owner start c id r r' s s' h reached found done found' before now nf na nfa =
      let v = Reaches-IsSolvent t laws owner start h reached in
      let (q, there, how) = perform-Follows t env c id r s s' v.filed found done in
      let same : q ≡ r' = cc in
      let fee = (lookup-IsFiled id r s.escrows v.filed found).2 in
      elim how [
        | inl still ↦ absurd (before (cc))
        | inr (flow, m, flows) ↦
            let (pays, may) = Moves-released m before (rw same now) in
            (may, pay-IsPaid t laws env r s.tokens s'.tokens nf na nfa fee (rw pays at flows))
      ]
