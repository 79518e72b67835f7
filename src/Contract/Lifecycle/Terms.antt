-- ===== src/Contract/Lifecycle/Terms.antt =====
-- What no move of an escrow changes.
use nexus_hub_contract.Prelude.{◌≡◌, arith}
use nexus_hub_contract.Contract.Types.{EscrowRecord}
use nexus_hub_contract.Contract.Host.{Env}
use nexus_hub_contract.Contract.Lifecycle.{Flow, Moves}

-- The terms of an escrow, which no move changes.
abbrev pub SameTerms : EscrowRecord → EscrowRecord → Type 0
SameTerms r r' =
    (r'.escrow_id ≡ r.escrow_id)
    × (r'.client ≡ r.client)
    × (r'.freelancer ≡ r.freelancer)
    × (r'.admin ≡ r.admin)
    × (r'.token ≡ r.token)
    × (r'.amount ≡ r.amount)
    × (r'.platform_fee ≡ r.platform_fee)
    × (r'.milestone_hash ≡ r.milestone_hash)
    × (r'.dispute_deadline_ledger ≡ r.dispute_deadline_ledger)
    × (r'.milestones_total ≡ r.milestones_total)
    × (r'.expiry_ledger ≡ r.expiry_ledger)
    × (r'.description ≡ r.description)

pub Moves-SameTerms :
    {env : Env} {r r' : EscrowRecord} {flow : Flow} → Moves env r r' flow → SameTerms r r'
Moves-SameTerms (Moves.fund _ _) = ground arith
Moves-SameTerms (Moves.activate _ _) = ground arith
Moves-SameTerms (Moves.cancel _ _) = ground arith
Moves-SameTerms (Moves.dispute _ _) = ground arith
Moves-SameTerms (Moves.complete _ _ _) = ground arith
Moves-SameTerms (Moves.release _ _) = ground arith
Moves-SameTerms (Moves.refund _ _) = ground arith
Moves-SameTerms (Moves.award _ _) = ground arith
Moves-SameTerms (Moves.expire _ _ _) = ground arith
Moves-SameTerms (Moves.client_approves _ _ _) = ground arith
Moves-SameTerms (Moves.freelancer_approves _ _ _) = ground arith
Moves-SameTerms (Moves.client_agrees _ _ _) = ground arith
Moves-SameTerms (Moves.freelancer_agrees _ _ _) = ground arith
