-- ===== src/Worker/Ledger/Refinement.antt =====
-- The settlements do to the balances what the ledger says.
use nexus_hub_contract.Prelude.{String, ◌≡◌, true, false, arith, String-discrete}
use nexus_hub_contract.Model.Rows.{Escrow}
use nexus_hub_contract.Prisma.Client.{Client, IsLawful}
use nexus_hub_contract.Prisma.World.{World}
use nexus_hub_contract.Worker.Ledger.{Settlement, settle, move, move_of, outcome, ledger_of}

module _ (c : Client) (laws : IsLawful c) where
  -- Every transaction that settles an escrow, for whichever users and however it ends, leaves each
  -- user's account as the ledger's move leaves it: a release, or the approval of both parties,
  -- moves the amount from the client's reserve to what the freelancer can spend, a refund or an
  -- expiry from the client's reserve to what the client can spend, and one that throws moves
  -- nothing.
  pub settle_refines :
      (e : Escrow) (id : String) (s : Settlement) (user : String) (w : World c)
      → let (r, v) = settle c e id s w in
        ledger_of v user ≡ move (outcome r (move_of e s)) (ledger_of w) user
  unfolding settle
  settle_refines e id (Settlement.release client tx) user w =
      elim (String-discrete user e.client_id) [
        | yes p ↦ grind (arith, laws.find-update_self, laws.find-update_ne, laws.rollback_lem)
        | no p ↦ grind (arith, laws.find-update_self, laws.find-update_ne, laws.rollback_lem)
      ]
  settle_refines e id (Settlement.approval approver role true true tx) user w =
      elim (String-discrete user e.client_id) [
        | yes p ↦ grind (arith, laws.find-update_self, laws.find-update_ne, laws.rollback_lem)
        | no p ↦ grind (arith, laws.find-update_self, laws.find-update_ne, laws.rollback_lem)
      ]
  settle_refines e id (Settlement.approval approver role true false tx) user w =
      grind (arith, laws.rollback_lem)
  settle_refines e id (Settlement.approval approver role false freelancer tx) user w =
      grind (arith, laws.rollback_lem)
  settle_refines e id (Settlement.refund admin reason tx) user w =
      grind (arith, laws.find-update_self, laws.find-update_ne, laws.rollback_lem)
  settle_refines e id (Settlement.expiry by tx) user w =
      grind (arith, laws.find-update_self, laws.find-update_ne, laws.rollback_lem)
