-- ===== src/Worker/Ledger.antt =====
-- What the settlements promise, told without tables: a ledger gives each user what they can spend and
-- what is reserved, and a settlement moves an escrow's amount in it.
pub mod Refinement
pub mod Total
use nexus_hub_contract.Prelude.{
  String, Bool, true, false, ◌&&◌, Option, none, some, ⊤, ◌==◌, if◌then◌else◌,
}
use nexus_hub_contract.Prelude.Int.{ℤ, ◌+ℤ◌, ◌-ℤ◌}
use nexus_hub_contract.Model.Rows.{Escrow, Balance}
use nexus_hub_contract.Model.Jobs.{Party}
use nexus_hub_contract.Prisma.Client.{Client}
use nexus_hub_contract.Prisma.World.{World, balance_of}
use nexus_hub_contract.Prisma.Action.{Action, Result, ok, throws}
use nexus_hub_contract.Worker.Settle.{record_release, record_refund, record_expiry}
use nexus_hub_contract.Worker.Sync.{record_approval}

pub record Account : Type 0 where
  pub available : ℤ
  pub reserved : ℤ

abbrev pub Ledger : Type 0
Ledger = String → Option Account

-- What happens to the money of an escrow.
pub data Move : Type 0 where
  stay : Move
  -- From the client's reserve to what the freelancer can spend.
  pay : (client freelancer : String) (amount : ℤ) → Move
  -- From the client's reserve to what the client can spend.
  give_back : (client : String) (amount : ℤ) → Move

abbrev pub map_account : (Account → Account) → Option Account → Option Account
map_account f none = none
map_account f (some a) = some (f a)

abbrev pub at_user : String → (Account → Account) → Ledger → Ledger
at_user k f ledger user = if user == k then map_account f (ledger user) else ledger user

abbrev pub gain : ℤ → Account → Account
gain x a = record a { available = a.available +ℤ x }

abbrev pub unreserve : ℤ → Account → Account
unreserve x a = record a { reserved = a.reserved -ℤ x }

abbrev pub move : Move → Ledger → Ledger
move Move.stay ledger = ledger
move (Move.pay client freelancer x) ledger =
    at_user client (unreserve x) (at_user freelancer (gain x) ledger)
move (Move.give_back client x) ledger = at_user client (λ a. unreserve x (gain x a)) ledger

-- The four transactions of the processor that settle an escrow, with what each is called with.
pub data Settlement : Type 0 where
  release : (client_id tx_hash : String) → Settlement
  refund : (admin_id reason tx_hash : String) → Settlement
  expiry : (triggered_by : Option String) (tx_hash : String) → Settlement
  approval :
      (approver_id : String) (role : Party) (client_approved freelancer_approved : Bool)
      (tx_hash : String)
      → Settlement

abbrev pub move_of : Escrow → Settlement → Move
move_of e (Settlement.release _ _) = Move.pay e.client_id e.freelancer_id e.amount
move_of e (Settlement.refund _ _ _) = Move.give_back e.client_id e.amount
move_of e (Settlement.expiry _ _) = Move.give_back e.client_id e.amount
move_of e (Settlement.approval _ _ client freelancer _) =
    if client && freelancer then Move.pay e.client_id e.freelancer_id e.amount else Move.stay

-- A settlement that throws moves nothing.
abbrev pub outcome : Result ⊤ → Move → Move
outcome (ok _) m = m
outcome (throws _) m = Move.stay

abbrev pub account? : Option Balance → Option Account
account? none = none
account? (some b) = some (record { available = b.available_amount; reserved = b.reserved_amount })

module _ {c : Client} where
  -- The ledger that a database stands for.
  abbrev pub ledger_of : World c → Ledger
  ledger_of w user = account? (balance_of w user)

module _ (c : Client) where
  unfoldable pub settle : Escrow → String → Settlement → Action c ⊤
  unfolding record_release record_refund record_expiry record_approval
  settle e id (Settlement.release client tx) = record_release c e id client tx
  settle e id (Settlement.refund admin reason tx) = record_refund c e id admin reason tx
  settle e id (Settlement.expiry by tx) = record_expiry c e id by tx
  settle e id (Settlement.approval approver role client freelancer tx) =
      record_approval c e id approver role client freelancer tx
