-- ===== src/Contract/History.antt =====
-- What later calls leave of an escrow.
use nexus_hub_contract.Prelude.{◌≡◌, refl, sym, subst, ◌∙◌, true, some, All, arith, inl, inr, ◌⊎◌}
use nexus_hub_contract.Prelude.Int.{pos, ◌≤ℤ◌}
use nexus_hub_contract.Contract.Bytes.{
  Bytes, Bytes-discrete, lookup, lookup-insert_self, lookup-insert_ne,
}
use nexus_hub_contract.Contract.Types.{Address, EscrowRecord, EscrowStatus}
use nexus_hub_contract.Contract.Settlement.{is_held}
use nexus_hub_contract.Contract.Host.{Env, Tokens, IsLedger, Machine, returned}
use nexus_hub_contract.Contract.Calls.{
  Call, perform, Step, called, elsewhere, Reaches, start, after, deployed,
}
use nexus_hub_contract.Contract.Lifecycle.{Moves, Flow, Flows, Updates, Creates, Governs}
use nexus_hub_contract.Contract.Lifecycle.Refinement.{perform_refines}
use nexus_hub_contract.Contract.Solvency.{IsFiled, IsSolvent}
use nexus_hub_contract.Contract.Solvency.Escrows.{lookup-IsFiled}
use nexus_hub_contract.Contract.Lifecycle.Terms.{SameTerms, Moves-SameTerms}
use nexus_hub_contract.Contract.Solvency.Payments.{IsOpen-held, held_of}
use nexus_hub_contract.Contract.Solvency.Invariant.{Reaches-IsSolvent}

-- The funds have been paid out, or the escrow was cancelled.
pub data IsClosed : EscrowStatus → Type 0 where
  released : IsClosed EscrowStatus.released
  refunded : IsClosed EscrowStatus.refunded
  cancelled : IsClosed EscrowStatus.cancelled

module _ (t : Tokens) where
  -- The record under an id after a call: the same, or moved on by one move.
  abbrev pub Follows : Env → Bytes → EscrowRecord → Machine t → Machine t → Type 0
  Follows env id r s s' =
      (r' : EscrowRecord) × (lookup id s'.escrows ≡ some r')
      × ((r' ≡ r) ⊎ ((flow : Flow) × Moves env r r' flow × Flows t env r flow s.tokens s'.tokens))

  stays :
      (env : Env) (id : Bytes) (r : EscrowRecord) (s s' : Machine t)
      → lookup id s'.escrows ≡ some r
      → Follows env id r s s'
  stays env id r s s' h = (r, h, inl refl)

  refined-Follows :
      (env : Env) (id : Bytes) (r : EscrowRecord) (s s' : Machine t)
      → All IsFiled s.escrows
      → lookup id s.escrows ≡ some r
      → Governs t env s s' ⊎ Creates t env s s' ⊎ Updates t env s s'
      → Follows env id r s s'
  refined-Follows env id r s s' filed found (inl (escrows, _, _, _, _, _)) =
      stays env id r s s' (rw escrows found)
  refined-Follows env id r s s' filed found (inr (inl (n, new, _, free, saved, _, _))) =
      elim (Bytes-discrete id n.escrow_id) [
        | yes same ↦ absurd (cc)
        | no other ↦
            stays env id r s s'
              (rw saved (lookup-insert_ne id n.escrow_id n s.escrows other ∙ found))
      ]
  refined-Follows env id r s s' filed found
        (inr (inr (k, q, q', flow, there, m, saved, flows, _))) =
      let key = (lookup-IsFiled k q s.escrows filed there).0 in
      elim (Bytes-discrete id q.escrow_id) [
        | yes same ↦
            let own : q ≡ r = cc in
            (
              q',
              rw (saved, same) (lookup-insert_self q.escrow_id q' s.escrows),
              inr (
                flow,
                subst (λ x. Moves env x q' flow) own m,
                subst (λ x. Flows t env x flow s.tokens s'.tokens) own flows,
              ),
            )
        | no other ↦
            stays env id r s s'
              (rw saved (lookup-insert_ne id q.escrow_id q' s.escrows other ∙ found))
      ]

  pub perform-Follows :
      (env : Env) (c : Call) (id : Bytes) (r : EscrowRecord) (s s' : Machine t)
      → All IsFiled s.escrows
      → lookup id s.escrows ≡ some r
      → perform env c s ≡ returned tt s'
      → Follows env id r s s'
  perform-Follows env c id r s s' filed found done =
      refined-Follows env id r s s' filed found (perform_refines t env s s' c done)

-- An escrow that moves is pending, or its funds are held.
Moves-alive :
    {env : Env} {r r' : EscrowRecord} {flow : Flow}
    → Moves env r r' flow
    → (r.status ≡ EscrowStatus.pending) ⊎ (is_held r.status ≡ true)
Moves-alive (Moves.fund waits _) = inl waits
Moves-alive (Moves.activate waits _) = inr (held_of _ waits)
Moves-alive (Moves.cancel waits _) = inl waits
Moves-alive (Moves.dispute opened _) = inr (IsOpen-held opened)
Moves-alive (Moves.complete opened _ _) = inr (IsOpen-held opened)
Moves-alive (Moves.release opened _) = inr (IsOpen-held opened)
Moves-alive (Moves.refund (inl opened) _) = inr (IsOpen-held opened)
Moves-alive (Moves.refund (inr disputed) _) = inr (held_of _ disputed)
Moves-alive (Moves.award disputed _) = inr (held_of _ disputed)
Moves-alive (Moves.expire opened _ _) = inr (IsOpen-held opened)
Moves-alive (Moves.client_approves opened _ _) = inr (IsOpen-held opened)
Moves-alive (Moves.freelancer_approves opened _ _) = inr (IsOpen-held opened)
Moves-alive (Moves.client_agrees opened _ _) = inr (IsOpen-held opened)
Moves-alive (Moves.freelancer_agrees opened _ _) = inr (IsOpen-held opened)

closed-dead :
    {st : EscrowStatus} → IsClosed st → (st ≡ EscrowStatus.pending) ⊎ (is_held st ≡ true) → ⊥
closed-dead IsClosed.released alive = ground arith
closed-dead IsClosed.refunded alive = ground arith
closed-dead IsClosed.cancelled alive = ground arith

-- A later record of the same escrow: its terms are the same, and once closed it never changes.
abbrev pub Continues : EscrowRecord → EscrowRecord → Type 0
Continues r r' = SameTerms r r' × (IsClosed r.status → r' ≡ r)

SameTerms-trans : (r r' r'' : EscrowRecord) → SameTerms r r' → SameTerms r' r'' → SameTerms r r''
SameTerms-trans r r' r'' h k = ground arith

Moves-Continues :
    {env : Env} {r r' : EscrowRecord} {flow : Flow} → Moves env r r' flow → Continues r r'
Moves-Continues {r = r} m =
    (Moves-SameTerms m, λ closed. absurd (closed-dead closed (Moves-alive m)))

Reaches-both :
    {t : Tokens} {here : Address} {s u v : Machine t}
    → Reaches t here s u
    → Reaches t here u v
    → Reaches t here s v
Reaches-both r start = r
Reaches-both r (after q st) = after (Reaches-both r q) st

module _ (t : Tokens) (laws : IsLedger t) (here : Address) where
  -- A record under the id that continues the one given.
  abbrev pub IsKept : Bytes → EscrowRecord → Machine t → Type 0
  IsKept id r s = (r' : EscrowRecord) × (lookup id s.escrows ≡ some r') × Continues r r'

  Step-IsKept :
      (id : Bytes) (r : EscrowRecord) {s s' : Machine t}
      → IsSolvent t here s
      → IsKept id r s
      → Step t here s s'
      → IsKept id r s'
  Step-IsKept id r v kept (elsewhere l more) = kept
  Step-IsKept id r {s} v (q, found, (terms, final)) (called env c {s'} own foreign done) =
      let (q', there, how) = perform-Follows t env c id q s s' v.filed found done in
      elim how [
        | inl same ↦ (q', there, rw same (terms, final))
        | inr (flow, m, flows) ↦
            let (terms', final') = Moves-Continues m in
            (
              q',
              there,
              (
                SameTerms-trans r q q' terms terms',
                λ closed.
                    final' (subst (λ x. IsClosed x.status) (sym (final closed)) closed)
                    ∙ final closed,
              ),
            )
      ]

  -- Whatever calls come after an escrow is stored on the chain, it stays stored under its id with
  -- its parties, administrator, token, amount, fee, hash, milestone total, deadlines and
  -- description, and once it is Released, Refunded or Cancelled it never changes again.
  pub Reaches-IsKept :
      (l : t.Ledger) {s v : Machine t} (id : Bytes) (r : EscrowRecord)
      → ((token : Address) → pos 0 ≤ℤ t.balance l token here)
      → Reaches t here (deployed t here l) s
      → lookup id s.escrows ≡ some r
      → Reaches t here s v
      → IsKept id r v
  Reaches-IsKept l id r h from found start = (r, found, (ground arith, λ closed. refl))
  Reaches-IsKept l {s} id r h from found (after to st) =
      Step-IsKept id r (Reaches-IsSolvent t laws here l h (Reaches-both from to))
        (Reaches-IsKept l id r h from found to) st
