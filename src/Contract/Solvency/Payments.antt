-- ===== src/Contract/Solvency/Payments.antt =====
-- What a move of an escrow does to the contract's own balance, and to what it owes.
use nexus_hub_contract.Prelude.{
  ◌≡◌, ◌≢◌, refl, sym, ap, ◌∙◌, Bool, true, false, some, inl, inr, arith, ◌==◌, if◌then◌else◌,
  Bool-cases, ◌&&◌,
}
use nexus_hub_contract.Prelude.Int.{ℤ, pos, ◌+ℤ◌, ◌-ℤ◌, ◌≤ℤ◌, pos_part, neg_part, ltb_ℤ, int_laws}
use nexus_hub_contract.Contract.Types.{Address, EscrowStatus, EscrowRecord}
use nexus_hub_contract.Contract.Host.{Env, Tokens, IsLedger, share}
use nexus_hub_contract.Contract.Settlement.{is_held}
use nexus_hub_contract.Contract.Lifecycle.Terms.{Moves-SameTerms}
use nexus_hub_contract.Contract.Lifecycle.{IsOpen, Flow, Moves, Flows}
use nexus_hub_contract.Contract.Solvency.{due, IsFiled}

-- Funds are held from a deposit on until a payment.
abbrev Turns : Flow → Bool → Bool → Type 0
Turns Flow.stay before after = after ≡ before
Turns Flow.deposit before after = (before ≡ false) × (after ≡ true)
Turns Flow.pay before after = (before ≡ true) × (after ≡ false)
Turns Flow.give_back before after = (before ≡ true) × (after ≡ false)

pub IsOpen-held : {st : EscrowStatus} → IsOpen st → is_held st ≡ true
IsOpen-held IsOpen.funded = refl
IsOpen-held IsOpen.active = refl

pub held_of : (st : EscrowStatus) {st' : EscrowStatus} → st ≡ st' → is_held st ≡ is_held st'
held_of st e = ap is_held e

pub Moves-Turns :
    {env : Env} {r r' : EscrowRecord} {flow : Flow}
    → Moves env r r' flow
    → Turns flow (is_held r.status) (is_held r'.status)
Moves-Turns (Moves.fund waits signed) = (held_of _ waits, refl)
Moves-Turns (Moves.activate waits signed) = sym (held_of _ waits)
Moves-Turns (Moves.cancel waits signed) = sym (held_of _ waits)
Moves-Turns (Moves.dispute opened signed) = sym (IsOpen-held opened)
Moves-Turns (Moves.complete opened signed below) = refl
Moves-Turns (Moves.release opened signed) = (IsOpen-held opened, refl)
Moves-Turns (Moves.refund (inl opened) signed) = (IsOpen-held opened, refl)
Moves-Turns (Moves.refund (inr disputed) signed) = (held_of _ disputed, refl)
Moves-Turns (Moves.award disputed signed) = (held_of _ disputed, refl)
Moves-Turns (Moves.expire opened set reached) = (IsOpen-held opened, refl)
Moves-Turns (Moves.client_approves opened signed waits) = refl
Moves-Turns (Moves.freelancer_approves opened signed waits) = refl
Moves-Turns (Moves.client_agrees opened signed agrees) = (IsOpen-held opened, refl)
Moves-Turns (Moves.freelancer_agrees opened signed agrees) = (IsOpen-held opened, refl)

-- The amount, if it is in the token.
abbrev pub in_token : Address → Address → ℤ → ℤ
in_token token token' amount = if token == token' then amount else pos 0

pub due_of :
    (token : Address) (r : EscrowRecord) (held : Bool)
    → is_held r.status ≡ held
    → due token r ≡ (if held then in_token token r.token r.amount else pos 0)
due_of token r held h = rw h (choice (token == r.token) held r.amount)
  where
    choice :
        (b held : Bool) (x : ℤ)
        → (if b then (if held then x else pos 0) else pos 0)
          ≡ (if held then (if b then x else pos 0) else pos 0)
    choice true true x = refl
    choice true false x = refl
    choice false true x = refl
    choice false false x = refl

in_token_nonneg : (token token' : Address) (x : ℤ) → pos 0 ≤ℤ x → pos 0 ≤ℤ in_token token token' x
in_token_nonneg token token' x h = elim (Bool-cases (token == token')) [
  | inl same ↦ rw same h
  | inr other ↦ rw other (omega arith)
]

in_token_split :
    (token token' : Address) (amount fee : ℤ)
    → in_token token token' (amount -ℤ fee) +ℤ in_token token token' fee
      ≡ in_token token token' amount
in_token_split token token' amount fee = elim (Bool-cases (token == token')) [
  | inl same ↦ rw same (omega int_laws)
  | inr other ↦ rw other (omega int_laws)
]

sub_nonneg : (x y : ℤ) → ltb_ℤ x y ≡ true → pos 0 ≤ℤ y -ℤ x
unfolding ◌-ℤ◌
sub_nonneg x y h = ground arith

share_self :
    (token token' holder : Address) (amount : ℤ)
    → share token' holder token holder amount ≡ in_token token' token amount
share_self token token' holder amount = ground arith

share_nonneg :
    (token' holder' token holder : Address) (amount : ℤ)
    → pos 0 ≤ℤ amount
    → pos 0 ≤ℤ share token' holder' token holder amount
share_nonneg token' holder' token holder amount h =
    elim (Bool-cases (token' == token && holder' == holder)) [
      | inl same ↦ rw same h
      | inr other ↦ rw other (omega arith)
    ]

moved_le : (b b' out back : ℤ) → b' ≡ b -ℤ out +ℤ back → pos 0 ≤ℤ back → b ≤ℤ b' +ℤ out
moved_le b b' out back e h = omega (int_laws, ap pos_part e, ap neg_part e)

share_ne :
    (token' holder' token holder : Address) (amount : ℤ)
    → holder ≢ holder'
    → share token' holder' token holder amount ≡ pos 0
share_ne token' holder' token holder amount h = ground arith

module _ (t : Tokens) (laws : IsLedger t) (env : Env) where
  abbrev here : Address
  here = env.current_contract_address

  -- A transfer from the contract takes the amount from it at most.
  transfer-takes :
      (token to token' : Address) (amount : ℤ) (l : t.Ledger) {l' : t.Ledger}
      → pos 0 ≤ℤ amount
      → t.transfer env token here to amount l ≡ some l'
      → t.balance l token' here ≤ℤ t.balance l' token' here +ℤ in_token token' token amount
  transfer-takes token to token' amount l {l'} h done =
      let moved = laws.transfer-moves env token here to amount l token' here done in
      let own = share_self token token' here amount in
      let back = share_nonneg token' here token to amount h in
      rw own at (moved_le (t.balance l token' here) (t.balance l' token' here) _ _ moved back)

  -- A transfer to the contract from someone else brings the amount.
  transfer-brings :
      (token from token' : Address) (amount : ℤ) (l : t.Ledger) {l' : t.Ledger}
      → from ≢ here
      → t.transfer env token from here amount l ≡ some l'
      → t.balance l' token' here ≡ t.balance l token' here +ℤ in_token token' token amount
  transfer-brings token from token' amount l h done =
      let moved = laws.transfer-moves env token from here amount l token' here done in
      let own = share_self token token' here amount in
      let other = share_ne token' here token from amount h in
      moved ∙ rw (own, other) (omega int_laws)

  -- So does the payment of a fee, which is left out where there is none.
  fee-takes :
      (token to token' : Address) (fee : ℤ) (m l' : t.Ledger)
      → pos 0 ≤ℤ fee
      → (if ltb_ℤ (pos 0) fee then t.transfer env token here to fee m else some m) ≡ some l'
      → t.balance m token' here ≤ℤ t.balance l' token' here +ℤ in_token token' token fee
  fee-takes token to token' fee m l' h done = elim (Bool-cases (ltb_ℤ (pos 0) fee)) [
    | inl some_fee ↦ transfer-takes token to token' fee m h (rw some_fee at done)
    | inr no_fee ↦
        let stays : m ≡ l' = ground arith in
        let more = in_token_nonneg token' token fee h in rw stays (omega int_laws)
  ]

  flow_covered :
      (flow : Flow) (r r' : EscrowRecord) (l l' : t.Ledger) (token : Address)
      → (flow ≡ Flow.deposit → r.client ≢ here)
      → r'.token ≡ r.token
      → r'.amount ≡ r.amount
      → Turns flow (is_held r.status) (is_held r'.status)
      → IsFiled (r.escrow_id, r)
      → Flows t env r flow l l'
      → t.balance l token here +ℤ due token r' ≤ℤ t.balance l' token here +ℤ due token r
  flow_covered Flow.stay r r' l l' token foreign same amount turns filed flows =
      let before = due_of token r (is_held r.status) refl in
      let after = due_of token r' (is_held r.status) turns in
      rw (flows, before, after, same, amount) (omega arith)
  flow_covered Flow.deposit r r' l l' token foreign same amount turns filed flows =
      let before = due_of token r false turns.0 in
      let after = due_of token r' true turns.1 in
      let brings = transfer-brings r.token r.client token r.amount l (foreign refl) flows in
      rw (before, after, same, amount, brings) (omega int_laws)
  flow_covered Flow.pay r r' l l' token foreign same amount turns filed (m, paid, kept) =
      let before = due_of token r true turns.0 in
      let after = due_of token r' false turns.1 in
      let takes =
        transfer-takes r.token r.freelancer token (r.amount -ℤ r.platform_fee) l
          (sub_nonneg r.platform_fee r.amount filed.3) paid in
      let charges = fee-takes r.token r.admin token r.platform_fee m l' filed.2 kept in
      let parts = in_token_split token r.token r.amount r.platform_fee in
      rw (before, after) (omega (int_laws, takes, charges, ap pos_part parts, ap neg_part parts))
  flow_covered Flow.give_back r r' l l' token foreign same amount turns filed flows =
      let before = due_of token r true turns.0 in
      let after = due_of token r' false turns.1 in
      let takes = transfer-takes r.token r.client token r.amount l (ground arith) flows in
      rw (before, after) (omega (int_laws, takes))

  deposit-foreign :
      {r r' : EscrowRecord} {flow : Flow}
      → env.authorizes here ≡ false
      → Moves env r r' flow
      → flow ≡ Flow.deposit
      → r.client ≢ here
  deposit-foreign {r} foreign (Moves.fund waits signed) is_deposit own = ground arith
  deposit-foreign foreign (Moves.activate _ _) e own = cc
  deposit-foreign foreign (Moves.cancel _ _) e own = cc
  deposit-foreign foreign (Moves.dispute _ _) e own = cc
  deposit-foreign foreign (Moves.complete _ _ _) e own = cc
  deposit-foreign foreign (Moves.release _ _) e own = cc
  deposit-foreign foreign (Moves.refund _ _) e own = cc
  deposit-foreign foreign (Moves.award _ _) e own = cc
  deposit-foreign foreign (Moves.expire _ _ _) e own = cc
  deposit-foreign foreign (Moves.client_approves _ _ _) e own = cc
  deposit-foreign foreign (Moves.freelancer_approves _ _ _) e own = cc
  deposit-foreign foreign (Moves.client_agrees _ _ _) e own = cc
  deposit-foreign foreign (Moves.freelancer_agrees _ _ _) e own = cc

  -- No move leaves the contract short: what it owes on the escrow grows by no more than its balance.
  pub Moves-covered :
      {r r' : EscrowRecord} {flow : Flow} (l l' : t.Ledger) (token : Address)
      → env.authorizes here ≡ false
      → IsFiled (r.escrow_id, r)
      → Moves env r r' flow
      → Flows t env r flow l l'
      → t.balance l token here +ℤ due token r' ≤ℤ t.balance l' token here +ℤ due token r
  Moves-covered {r} {r'} {flow} l l' token foreign filed m flows =
      let (_, _, _, _, token_same, amount_same, _, _, _, _, _, _) = Moves-SameTerms m in
      flow_covered flow r r' l l' token (deposit-foreign foreign m) token_same amount_same
        (Moves-Turns m) filed flows
