-- ===== src/System/History/Laws.antt =====
-- What no history loses, and that no history lets an escrow be settled twice by the same job.
use nexus_hub_contract.Prelude.{String, ◌≡◌, refl, ◌<>◌, Option, none, some, arith}
use nexus_hub_contract.Model.Rows.{Escrow, Transaction}
use nexus_hub_contract.Model.Jobs.{EscrowJob}
use nexus_hub_contract.Prisma.Client.{Client, IsLawful}
use nexus_hub_contract.Prisma.World.{World, escrow_of, transaction_of}
use nexus_hub_contract.Worker.Chain.{Stellar}
use nexus_hub_contract.Worker.Process.{process}
use nexus_hub_contract.Worker.Settle.Once.{
  release_escrow_again, refund_escrow_again, claim_expired_again,
}
use nexus_hub_contract.System.Kept.{
  Kept, Kept-refl, Kept-trans, Kept-same, terms, terms?, booking, booking?, booking?-some,
}
use nexus_hub_contract.System.Safe.Jobs
use nexus_hub_contract.System.Safe.Requests
use nexus_hub_contract.System.Safe.Deliveries
use nexus_hub_contract.System.History.{Event, perform, History, start, next}

-- The key of the transaction that a job books when it settles an escrow.
abbrev pub settlement_key : EscrowJob → Option String
settlement_key (EscrowJob.release_escrow id client feedback) = some ("release-" <> id)
settlement_key (EscrowJob.refund_escrow id admin reason) = some ("refund-" <> id)
settlement_key (EscrowJob.claim_expired id by) = some ("expired-" <> id)
settlement_key _ = none

module _ (c : Client) (laws : IsLawful c) where
  perform-Kept : (event : Event) (w : World c) → Kept w (perform c event w)
  unfolding perform
  perform-Kept (Event.create_escrow client dto key) w =
      (Requests.create_escrow-IsSafe c laws client dto key).at w
  perform-Kept (Event.release_escrow client id feedback) w =
      (Requests.release_escrow-IsSafe c laws client id feedback).at w
  perform-Kept (Event.refund_escrow admin id reason) w =
      (Requests.refund_escrow-IsSafe c laws admin id reason).at w
  perform-Kept (Event.approve_release user id role) w =
      (Requests.approve_release-IsSafe c laws user id role).at w
  perform-Kept (Event.complete_milestone freelancer id) w =
      (Requests.complete_milestone-IsSafe c laws freelancer id).at w
  perform-Kept (Event.claim_expired user id) w = (Requests.claim_expired-IsSafe c laws user id).at w
  perform-Kept (Event.transfer_admin admin id) w =
      (Requests.transfer_admin-IsSafe c laws admin id).at w
  perform-Kept (Event.open_dispute user dto) w = (Requests.open_dispute-IsSafe c laws user dto).at w
  perform-Kept (Event.resolve_dispute admin id dto) w =
      (Requests.resolve_dispute-IsSafe c laws admin id dto).at w
  perform-Kept (Event.set_under_review admin id) w =
      (Requests.set_under_review-IsSafe c laws admin id).at w
  perform-Kept (Event.register_webhook user dto) w =
      (Requests.register_webhook-IsSafe c laws user dto).at w
  perform-Kept (Event.update_endpoint user id dto) w =
      (Requests.update_endpoint-IsSafe c laws user id dto).at w
  perform-Kept (Event.delete_endpoint user id) w =
      (Requests.delete_endpoint-IsSafe c laws user id).at w
  perform-Kept (Event.rotate_secret user id) w = (Requests.rotate_secret-IsSafe c laws user id).at w
  perform-Kept (Event.dispatch_event event payload) w =
      (Requests.dispatch_event-IsSafe c laws event payload).at w
  perform-Kept (Event.register crypto dto) w = (Requests.register-IsSafe c laws crypto dto).at w
  perform-Kept (Event.login crypto dto) w = (Requests.login-IsSafe c laws crypto dto).at w
  perform-Kept (Event.refresh crypto token) w = (Requests.refresh-IsSafe c laws crypto token).at w
  perform-Kept (Event.logout token) w = (Requests.logout-IsSafe c laws token).at w
  perform-Kept (Event.process stellar job) w = (Jobs.process-IsSafe c laws stellar job).at w
  perform-Kept (Event.deliver_webhook http job) w =
      (Deliveries.deliver_webhook-IsSafe c http job).at w
  perform-Kept (Event.wait milliseconds) w = Kept-same w _ refl refl

  History-Kept : (w : World c) {v : World c} → History w v → Kept w v
  History-Kept w start = Kept-refl w
  History-Kept w (next {v} h event) =
      Kept-trans w v (perform c event v) (History-Kept w h) (perform-Kept event v)

  module _ (w : World c) {v : World c} (history : History w v) where
    -- Whatever calls and jobs run after an escrow is stored, in any order, it stays stored with its
    -- parties, its amount and its fee.
    pub terms_kept :
        (id : String) (e : Escrow)
        → escrow_of w id ≡ some e
        → terms? (escrow_of v id) ≡ some (terms e)
    terms_kept = (History-Kept w history).terms_kept

    -- Whatever calls and jobs run after a transaction is booked, in any order, it stays booked for
    -- its user, with its type, its amount and its escrow.
    pub bookings_kept :
        (key : String) (t : Transaction)
        → transaction_of w key ≡ some t
        → booking? (transaction_of v key) ≡ some (booking t)
    bookings_kept = (History-Kept w history).bookings_kept

    settled :
        (stellar : Stellar) (job : EscrowJob) (key : String) (t : Transaction)
        → settlement_key job ≡ some key
        → transaction_of v key ≡ some t
        → (process c stellar job v).1.db ≡ v.db
    unfolding process
    settled stellar (EscrowJob.release_escrow id client feedback) key t k s =
        let same : "release-" <> id ≡ key = cc in
        let again = release_escrow_again c laws stellar id v client {t = t} (rw same s) in
        ground arith
    settled stellar (EscrowJob.refund_escrow id admin reason) key t k s =
        let same : "refund-" <> id ≡ key = cc in
        let again = refund_escrow_again c laws stellar id v admin reason {t = t} (rw same s) in
        ground arith
    settled stellar (EscrowJob.claim_expired id by) key t k s =
        let same : "expired-" <> id ≡ key = cc in
        let again = claim_expired_again c laws stellar id v by {t = t} (rw same s) in ground arith
    settled stellar _ key t k s = cc

    -- Once the transaction of a release, a refund or an expiry claim is booked, a job that would
    -- book it again changes no row, whatever has happened in between and whatever the chain
    -- answers.
    pub settled_once :
        (stellar : Stellar) (job : EscrowJob) (key : String) (t : Transaction)
        → settlement_key job ≡ some key
        → transaction_of w key ≡ some t
        → (process c stellar job v).1.db ≡ v.db
    settled_once stellar job key t k s =
        let (f, there, same) = booking?-some (transaction_of v key) (bookings_kept key t s) in
        settled stellar job key f k there
