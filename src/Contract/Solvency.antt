-- ===== src/Contract/Solvency.antt =====
-- What the contract owes: for each token, the amounts of the escrows whose funds it holds.
pub mod Escrows
pub mod Payments
pub mod Invariant
use nexus_hub_contract.Prelude.{◌≡◌, Bool, true, ◌==◌, List, [], ◌∷◌, All, if◌then◌else◌}
use nexus_hub_contract.Prelude.Int.{ℤ, pos, ◌+ℤ◌, ◌≤ℤ◌, ltb_ℤ}
use nexus_hub_contract.Contract.Bytes.{Bytes}
use nexus_hub_contract.Contract.Types.{Address, EscrowRecord}
use nexus_hub_contract.Contract.Settlement.{is_held}
use nexus_hub_contract.Contract.Host.{Tokens, Machine}

abbrev pub Escrows : Type 0
Escrows = List (Bytes × EscrowRecord)

-- What is owed on one escrow, in a token.
abbrev pub due : Address → EscrowRecord → ℤ
due token r = if token == r.token then (if is_held r.status then r.amount else pos 0) else pos 0

abbrev pub owed : Address → Escrows → ℤ
owed token [] = pos 0
owed token ((_, r) ∷ es) = due token r +ℤ owed token es

-- A record stands under its own id, its amount is positive, and its fee is less than the amount.
abbrev pub IsFiled : Bytes × EscrowRecord → Type 0
IsFiled (k, r) =
    (r.escrow_id ≡ k)
    × (ltb_ℤ (pos 0) r.amount ≡ true)
    × (pos 0 ≤ℤ r.platform_fee)
    × (ltb_ℤ r.platform_fee r.amount ≡ true)

-- The contract can pay all that it owes.
pub record IsSolvent (t : Tokens) (here : Address) (s : Machine t) : Type 0 where
  pub filed : All IsFiled s.escrows
  pub covered : (token : Address) → owed token s.escrows ≤ℤ t.balance s.tokens token here
