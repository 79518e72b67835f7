-- ===== src/Contract/Expiry.antt =====
-- The safety valve: claim_expired in any state that the contract can reach.
use nexus_hub_contract.Prelude.{
  ◌≡◌, ◌≢◌, ◌≤◌, refl, sym, subst, ap, ◌∙◌, true, false, some, [], ◌∷◌, All, arith, inl, inr,
  Bool-cases, not, ◌&&◌,
}
use nexus_hub_contract.Prelude.Int.{ℤ, pos, ◌+ℤ◌, ◌≤ℤ◌, pos_part, neg_part, int_laws}
use nexus_hub_contract.Contract.Bytes.{Bytes, lookup, insert, lookup-insert_self, same_bytes}
use nexus_hub_contract.Contract.Types.{Address, EscrowRecord, EscrowStatus, is_status, Event}
use nexus_hub_contract.Contract.Host.{Env, Tokens, IsLedger, IsPaying, Machine, returned}
use nexus_hub_contract.Contract.Settlement.{claim_expired}
use nexus_hub_contract.Contract.Calls.{Reaches, deployed}
use nexus_hub_contract.Contract.Lifecycle.{IsOpen}
use nexus_hub_contract.Contract.Solvency.{Escrows, due, owed, IsFiled}
use nexus_hub_contract.Contract.Solvency.Escrows.{lookup-IsFiled}
use nexus_hub_contract.Contract.Solvency.Payments.{in_token, due_of, IsOpen-held}
use nexus_hub_contract.Contract.Solvency.Invariant.{Reaches-IsSolvent}
use nexus_hub_contract.Contract.Payout.{transfer-to}

due_nonneg :
    (token : Address) (k : Bytes) (r : EscrowRecord) → IsFiled (k, r) → pos 0 ≤ℤ due token r
due_nonneg token k r filed = ground arith

owed_nonneg : (token : Address) (es : Escrows) → All IsFiled es → pos 0 ≤ℤ owed token es
owed_nonneg token [] h = omega arith
owed_nonneg token ((k, r) ∷ es) h =
    omega (int_laws, due_nonneg token k r h.0, owed_nonneg token es h.1)

-- What is owed on one escrow is part of the debt.
due-le-owed :
    (token : Address) (k : Bytes) (r : EscrowRecord) (es : Escrows)
    → All IsFiled es
    → lookup k es ≡ some r
    → due token r ≤ℤ owed token es
due-le-owed token k r [] h e = cc
due-le-owed token k r ((j, q) ∷ es) h e = elim (Bool-cases (same_bytes j k)) [
  | inl same ↦
      let found : q ≡ r = ground arith in rw found (omega (int_laws, owed_nonneg token es h.1))
  | inr other ↦
      omega (int_laws, due_nonneg token j q h.0, due-le-owed token k r es h.1 (ground arith))
]

open_tests :
    {st : EscrowStatus}
    → IsOpen st
    → (not (is_status st EscrowStatus.funded) && not (is_status st EscrowStatus.active)) ≡ false
open_tests IsOpen.funded = refl
open_tests IsOpen.active = refl

in_token_self : (token : Address) (x : ℤ) → in_token token token x ≡ x
in_token_self token x = ground arith

module _ (t : Tokens) (laws : IsLedger t) (pays : IsPaying t) where
  -- In every state that the contract reaches, paused or not, anyone may end a Funded or Active
  -- escrow whose expiry ledger is set and has come: where the client takes the payment, and is not
  -- the contract itself, claim_expired returns, the client has the whole amount back, and the
  -- escrow is Refunded.
  pub claim_expired_lem :
      (env : Env) (start : t.Ledger) (id : Bytes) (r : EscrowRecord) (s : Machine t)
      → ((token : Address) → pos 0 ≤ℤ t.balance start token env.current_contract_address)
      → Reaches t env.current_contract_address (deployed t env.current_contract_address start) s
      → lookup id s.escrows ≡ some r
      → IsOpen r.status
      → r.expiry_ledger ≢ 0
      → r.expiry_ledger ≤ env.sequence
      → r.client ≢ env.current_contract_address
      → pays.Takes s.tokens r.token r.client r.amount
      → (s' : Machine t) × (claim_expired env id s ≡ returned tt s')
        × (lookup id s'.escrows ≡ some (record r { status = EscrowStatus.refunded }))
        × (t.balance s'.tokens r.token r.client ≡ t.balance s.tokens r.token r.client +ℤ r.amount)
  unfolding claim_expired
  claim_expired_lem env start id r s h reached found opened set expired foreign takes =
      let here = env.current_contract_address in
      let v = Reaches-IsSolvent t laws here start h reached in
      let (key, positive, _, _) = lookup-IsFiled id r s.escrows v.filed found in
      let debt = due_of r.token r true (IsOpen-held opened) in
      let whole = debt ∙ in_token_self r.token r.amount in
      let passes = open_tests opened in
      let enough : r.amount ≤ℤ t.balance s.tokens r.token here = omega (
        int_laws,
        ap pos_part whole,
        ap neg_part whole,
        due-le-owed r.token id r s.escrows v.filed found,
        v.covered r.token,
      ) in
      let (l, moved) =
        pays.transfer-pays env r.token r.client r.amount s.tokens takes (ground arith) enough in
      let q = record r { status = EscrowStatus.refunded } in
      (
        record s {
          tokens = l;
          escrows = insert r.escrow_id q s.escrows;
          events = Event.refunded id r.client r.amount ∷ s.events;
        },
        ground arith,
        subst (λ k. lookup k (insert r.escrow_id q s.escrows) ≡ some q) key
            (lookup-insert_self r.escrow_id q s.escrows),
        transfer-to t laws env r.token here r.client r.amount s.tokens moved (λ p. foreign (sym p)),
      )
