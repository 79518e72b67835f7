-- ===== src/Model/Jobs.antt =====
-- The jobs that the API's services add to the queues `escrow` and `webhook`, with the data that
-- each `add` passes (an amount as a signed count of 10^-7 dollars, for the text of
-- `toFixed(7)`), and the options of the job. `other` is a job name that no case handles.
use nexus_hub_contract.Prelude.{ℕ, String, Option}
use nexus_hub_contract.Prelude.Int.{ℤ}
use nexus_hub_contract.Model.Rows.{Payload}

pub data Party : Type 0 where
  client freelancer : Party

pub data EscrowJob : Type 0 where
  fund_escrow : (escrow_id client_id : String) (amount : ℤ) → EscrowJob
  release_escrow : (escrow_id client_id : String) (feedback : Option String) → EscrowJob
  refund_escrow : (escrow_id admin_id reason : String) → EscrowJob
  approve_release : (escrow_id approver_id : String) (role : Party) → EscrowJob
  complete_milestone : (escrow_id freelancer_id : String) → EscrowJob
  claim_expired : (escrow_id : String) (triggered_by : Option String) → EscrowJob
  other : (name : String) → EscrowJob

-- `{ attempts, backoff: { type: 'exponential', delay } }`
pub record JobOptions : Type 0 where
  pub attempts : Option ℕ
  pub delay : Option ℕ

-- The data of a DELIVER_WEBHOOK job. A field that the adding code leaves out is `none`.
pub record WebhookJob : Type 0 where
  pub delivery_id : Option String
  pub url : Option String
  pub secret : Option String
  pub event : String
  pub payload : Payload
