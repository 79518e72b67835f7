-- ===== src/Contract/Calls.antt =====
-- Any call of an entry point that changes the contract, and the histories of such calls.
use nexus_hub_contract.Prelude.{ℕ, ◌≡◌, Bool, false, Option, none, [], ⊤}
use nexus_hub_contract.Prelude.Int.{◌≤ℤ◌}
use nexus_hub_contract.Contract.Bytes.{Bytes}
use nexus_hub_contract.Contract.Types.{Address}
use nexus_hub_contract.Contract.Host.{Env, Tokens, Machine, Action, returned}
use nexus_hub_contract.Contract.Admin
use nexus_hub_contract.Contract.Progress
use nexus_hub_contract.Contract.Progress.{NewEscrow}
use nexus_hub_contract.Contract.Settlement

pub data Call : Type 0 where
  initialize : (admin : Address) (fee_bps : ℕ) → Call
  set_fee : (new_fee_bps : ℕ) → Call
  set_paused : (paused : Bool) → Call
  transfer_admin : (new_admin : Address) → Call
  init_escrow : NewEscrow → Call
  fund activate refund claim_expired complete_milestone : (escrow_id : Bytes) → Call
  release : (escrow_id : Bytes) (expected_hash : Option Bytes) → Call
  cancel raise_dispute : (escrow_id : Bytes) (caller : Address) → Call
  resolve_dispute : (escrow_id : Bytes) (release_to_freelancer : Bool) → Call
  approve_release : (escrow_id : Bytes) (approver : Address) → Call

module _ {t : Tokens} (env : Env) where
  unfoldable pub perform : Call → Action t ⊤
  perform (Call.initialize admin fee_bps) = Admin.initialize env admin fee_bps
  perform (Call.set_fee new_fee_bps) = Admin.set_fee env new_fee_bps
  perform (Call.set_paused paused) = Admin.set_paused env paused
  perform (Call.transfer_admin new_admin) = Admin.transfer_admin env new_admin
  perform (Call.init_escrow n) = Progress.init_escrow env n
  perform (Call.fund id) = Progress.fund env id
  perform (Call.activate id) = Progress.activate env id
  perform (Call.cancel id caller) = Progress.cancel env id caller
  perform (Call.raise_dispute id caller) = Progress.raise_dispute env id caller
  perform (Call.complete_milestone id) = Progress.complete_milestone env id
  perform (Call.release id expected_hash) = Settlement.release env id expected_hash
  perform (Call.refund id) = Settlement.refund env id
  perform (Call.resolve_dispute id to_freelancer) = Settlement.resolve_dispute env id to_freelancer
  perform (Call.claim_expired id) = Settlement.claim_expired env id
  perform (Call.approve_release id approver) = Settlement.approve_release env id approver

module _ (t : Tokens) (here : Address) where
  -- A call that returns, under no authority of the contract itself; or tokens that move elsewhere,
  -- and leave the contract with as many or more. A call that does not return changes nothing.
  pub data Step (s : Machine t) : Machine t → Type 0 where
    called :
        (env : Env) (c : Call) {s' : Machine t}
        → env.current_contract_address ≡ here
        → env.authorizes here ≡ false
        → perform env c s ≡ returned tt s'
        → Step s s'
    elsewhere :
        (l : t.Ledger)
        → ((token : Address) → t.balance s.tokens token here ≤ℤ t.balance l token here)
        → Step s (record s { tokens = l })

  pub data Reaches (s : Machine t) : Machine t → Type 0 where
    start : Reaches s s
    after : {u v : Machine t} → Reaches s u → Step u v → Reaches s v

  -- The machine at deployment.
  abbrev pub deployed : t.Ledger → Machine t
  deployed l = record {
    admin = none;
    fee_bps = none;
    paused = none;
    escrows = [];
    tokens = l;
    events = [];
  }
