-- ===== src/Contract/Solvency/Invariant.antt =====
-- Every history of calls leaves the contract able to pay what it owes.
use nexus_hub_contract.Prelude.{◌≡◌, refl, sym, ap, subst, false, some, arith, inl, inr, ◌⊎◌}
use nexus_hub_contract.Prelude.Int.{ℤ, pos, ◌+ℤ◌, ◌≤ℤ◌, pos_part, neg_part, int_laws}
use nexus_hub_contract.Contract.Bytes.{lookup}
use nexus_hub_contract.Contract.Types.{Address, EscrowRecord}
use nexus_hub_contract.Contract.Host.{Env, Tokens, IsLedger, Machine}
use nexus_hub_contract.Contract.Settlement.{is_held}
use nexus_hub_contract.Contract.Calls.{Step, called, elsewhere, Reaches, start, after, deployed}
use nexus_hub_contract.Contract.Lifecycle.{Moves, Flow, Updates, Creates, Governs}
use nexus_hub_contract.Contract.Lifecycle.Refinement.{perform_refines}
use nexus_hub_contract.Contract.Solvency.{due, owed, IsFiled, IsSolvent}
use nexus_hub_contract.Contract.Solvency.Escrows.{
  lookup-IsFiled, insert-IsFiled, owed-insert, owed-insert_new,
}
use nexus_hub_contract.Contract.Lifecycle.Terms.{Moves-SameTerms}
use nexus_hub_contract.Contract.Solvency.Payments.{Moves-covered, due_of}

-- What a move adds to the debt, it adds to the balance.
shift_le :
    (owed owed' due due' held held' : ℤ)
    → owed' +ℤ due ≡ owed +ℤ due'
    → held +ℤ due' ≤ℤ held' +ℤ due
    → owed ≤ℤ held
    → owed' ≤ℤ held'
shift_le owed owed' due due' held held' e h k = omega (int_laws, ap pos_part e, ap neg_part e)

Moves-IsFiled :
    {env : Env} {r r' : EscrowRecord} {flow : Flow}
    → Moves env r r' flow
    → IsFiled (r.escrow_id, r)
    → IsFiled (r.escrow_id, r')
Moves-IsFiled {r = r} {r'} m filed =
    let (key, _, _, _, _, amount, fee, _, _, _, _, _) = Moves-SameTerms m in
    simp (key, amount, fee) filed

module _ (t : Tokens) (laws : IsLedger t) where
  Updates-IsSolvent :
      (env : Env) (s s' : Machine t)
      → env.authorizes env.current_contract_address ≡ false
      → IsSolvent t env.current_contract_address s
      → Updates t env s s'
      → IsSolvent t env.current_contract_address s'
  Updates-IsSolvent env s s' foreign v (id, r, r', flow, found, m, saved, flows, _) =
      let (key, positive, fee_nonneg, fee_less) = lookup-IsFiled id r s.escrows v.filed found in
      let there : lookup r.escrow_id s.escrows ≡ some r = simp key found in
      record {
        filed = rw saved (
            insert-IsFiled r.escrow_id r' s.escrows v.filed
              (Moves-IsFiled m (refl, positive, fee_nonneg, fee_less)));
        covered = λ token. rw saved (
            shift_le _ _ _ _ _ _ (owed-insert token r.escrow_id r r' s.escrows there)
              (Moves-covered t laws env s.tokens s'.tokens token foreign
                (refl, positive, fee_nonneg, fee_less) m flows)
              (v.covered token));
      }

  Creates-IsSolvent :
      (env : Env) (s s' : Machine t)
      → IsSolvent t env.current_contract_address s
      → Creates t env s s'
      → IsSolvent t env.current_contract_address s'
  Creates-IsSolvent env s s' v (r, new, _, free, saved, same, _) = record {
    filed = rw saved (
        insert-IsFiled r.escrow_id r s.escrows v.filed
          (refl, new.positive, new.fee_nonneg, new.fee_less));
    covered = λ token.
        let debt = owed-insert_new token r.escrow_id r s.escrows free in
        let nothing = due_of token r false (ap is_held new.waits) in
        rw (saved, same)
          (omega (
            int_laws,
            ap pos_part debt,
            ap neg_part debt,
            ap pos_part nothing,
            ap neg_part nothing,
            v.covered token,
          ));
  }

  called-IsSolvent :
      (env : Env) (s s' : Machine t)
      → env.authorizes env.current_contract_address ≡ false
      → IsSolvent t env.current_contract_address s
      → Governs t env s s' ⊎ Creates t env s s' ⊎ Updates t env s s'
      → IsSolvent t env.current_contract_address s'
  called-IsSolvent env s s' foreign v (inl (escrows, tokens, _, _, _, _)) = record {
    filed = rw escrows v.filed;
    covered = λ token. rw (escrows, tokens) (v.covered token);
  }
  called-IsSolvent env s s' foreign v (inr (inl new)) = Creates-IsSolvent env s s' v new
  called-IsSolvent env s s' foreign v (inr (inr moved)) = Updates-IsSolvent env s s' foreign v moved

  pub Step-IsSolvent :
      (here : Address) {s s' : Machine t}
      → IsSolvent t here s
      → Step t here s s'
      → IsSolvent t here s'
  Step-IsSolvent here {s} v (called env c {s'} own foreign done) =
      subst (λ a. IsSolvent t a s') own
        (called-IsSolvent env s s' (rw (sym own) at foreign)
          (subst (λ a. IsSolvent t a s) (sym own) v) (perform_refines t env s s' c done))
  Step-IsSolvent here {s} v (elsewhere l more) = record {
    filed = v.filed;
    covered = λ token. omega (arith, v.covered token, more token);
  }

  -- The escrow contract is solvent in every state that it reaches from its deployment by calls and
  -- by transfers elsewhere, in any order: of each token it has at least the amounts of all escrows
  -- that are Funded, Active or Disputed, and each escrow is stored under its id with a positive
  -- amount and a fee between 0 and the amount.
  pub Reaches-IsSolvent :
      (here : Address) (l : t.Ledger) {s : Machine t}
      → ((token : Address) → pos 0 ≤ℤ t.balance l token here)
      → Reaches t here (deployed t here l) s
      → IsSolvent t here s
  Reaches-IsSolvent here l h start = record { filed = tt; covered = h }
  Reaches-IsSolvent here l h (after r st) = Step-IsSolvent here (Reaches-IsSolvent here l h r) st
