-- ===== src/Contract/Fees.antt =====
-- The fee of every escrow, under the cap of set_fee and initialize.
use native.Mathlib.Nat.{mul-le-mul_right}
use nexus_hub_contract.Prelude.{
  ℕ, ◌*◌, ◌/◌, ◌≤◌, ◌≡◌, some, [], ◌∷◌, All, true, arith, inl, inr, ◌⊎◌, or_default, Bool-cases,
}
use nexus_hub_contract.Prelude.Int.{ℤ, pos, negsuc, ◌≤ℤ◌, times, ltb_ℤ}
use nexus_hub_contract.Contract.Bytes.{Bytes, lookup, insert, same_bytes}
use nexus_hub_contract.Contract.Types.{Address, EscrowRecord}
use nexus_hub_contract.Contract.Host.{Env, Tokens, Machine}
use nexus_hub_contract.Contract.Admin.{compute_fee, max_fee_bps}
use nexus_hub_contract.Contract.Calls.{Step, called, elsewhere, Reaches, start, after, deployed}
use nexus_hub_contract.Contract.Lifecycle.{Updates, Creates, Governs}
use nexus_hub_contract.Contract.Lifecycle.Refinement.{perform_refines}
use nexus_hub_contract.Contract.Solvency.{Escrows}
use nexus_hub_contract.Contract.Lifecycle.Terms.{Moves-SameTerms}

-- A tenth of the amount at most.
abbrev pub IsModest : Bytes × EscrowRecord → Type 0
IsModest (k, r) = times 10 r.platform_fee ≤ℤ r.amount

tenth_le : (n bps : ℕ) → bps ≤ 1000 → 10 * (bps * n / 10000) ≤ n
tenth_le n bps h = omega (arith, mul-le-mul_right n h)

compute_fee-modest :
    (amount fee : ℤ) (bps : ℕ)
    → ltb_ℤ (pos 0) amount ≡ true
    → bps ≤ max_fee_bps
    → compute_fee amount bps ≡ some fee
    → times 10 fee ≤ℤ amount
unfolding times
compute_fee-modest (pos n) fee bps h capped charged = ground (arith, tenth_le n bps capped)
compute_fee-modest (negsuc n) fee bps h capped charged = absurd (ground arith)

insert-IsModest :
    (k : Bytes) (r : EscrowRecord) (es : Escrows)
    → All IsModest es
    → IsModest (k, r)
    → All IsModest (insert k r es)
insert-IsModest k r [] h e = (e, tt)
insert-IsModest k r ((j, q) ∷ es) h e = elim (Bool-cases (same_bytes j k)) [
  | inl same ↦ rw same (e, h.1)
  | inr other ↦ rw other (h.0, insert-IsModest k r es h.1 e)
]

lookup-IsModest :
    (k : Bytes) (r : EscrowRecord) (es : Escrows)
    → All IsModest es
    → lookup k es ≡ some r
    → IsModest (k, r)
lookup-IsModest k r [] h e = cc
lookup-IsModest k r ((j, q) ∷ es) h e = elim (Bool-cases (same_bytes j k)) [
  | inl same ↦ let found : q ≡ r = ground arith in rw found at h.0
  | inr other ↦ lookup-IsModest k r es h.1 (ground arith)
]

module _ (t : Tokens) where
  pub record IsCapped (s : Machine t) : Type 0 where
    pub rate : or_default s.fee_bps 100 ≤ max_fee_bps
    pub modest : All IsModest s.escrows

  refined-IsCapped :
      (env : Env) (s s' : Machine t)
      → IsCapped s
      → Governs t env s s' ⊎ Creates t env s s' ⊎ Updates t env s s'
      → IsCapped s'
  refined-IsCapped env s s' v (inl (escrows, tokens, admin, signed, who, inl same)) = record {
    rate = rw same v.rate;
    modest = rw escrows v.modest;
  }
  refined-IsCapped env s s' v (inl (escrows, tokens, admin, signed, who, inr (bps, now, capped))) =
      record { rate = rw now capped; modest = rw escrows v.modest }
  refined-IsCapped env s s' v (inr (inl (r, new, _, free, saved, same, (_, fee_bps, _)))) = record {
    rate = rw fee_bps v.rate;
    modest = rw saved (
        insert-IsModest r.escrow_id r s.escrows v.modest (
          compute_fee-modest r.amount r.platform_fee (or_default s.fee_bps 100) new.positive v.rate
            new.charged));
  }
  refined-IsCapped env s s' v
        (inr (inr (id, r, r', flow, found, m, saved, flows, (_, fee_bps, _)))) =
      let (_, _, _, _, _, amount, fee, _, _, _, _, _) = Moves-SameTerms m in
      record {
        rate = rw fee_bps v.rate;
        modest = rw saved (
            insert-IsModest r.escrow_id r' s.escrows v.modest
              (simp (amount, fee) (lookup-IsModest id r s.escrows v.modest found)));
      }

  Step-IsCapped : {here : Address} {s s' : Machine t} → IsCapped s → Step t here s s' → IsCapped s'
  Step-IsCapped {s = s} v (called env c {s'} own foreign done) =
      refined-IsCapped env s s' v (perform_refines t env s s' c done)
  Step-IsCapped v (elsewhere l more) = record { rate = v.rate; modest = v.modest }

  Reaches-IsCapped :
      (here : Address) (l : t.Ledger) {s : Machine t}
      → Reaches t here (deployed t here l) s
      → IsCapped s
  Reaches-IsCapped here l start = record { rate = omega arith; modest = tt }
  Reaches-IsCapped here l (after r st) = Step-IsCapped (Reaches-IsCapped here l r) st

  -- The fee of every escrow that the contract stores, in any state that it reaches, is at most a
  -- tenth of the amount, however the administrator has set the rate.
  pub fee_bounds :
      (here : Address) (l : t.Ledger) (id : Bytes) (r : EscrowRecord) {s : Machine t}
      → Reaches t here (deployed t here l) s
      → lookup id s.escrows ≡ some r
      → times 10 r.platform_fee ≤ℤ r.amount
  fee_bounds here l id r {s} reached found =
      lookup-IsModest id r s.escrows (Reaches-IsCapped here l reached).modest found
