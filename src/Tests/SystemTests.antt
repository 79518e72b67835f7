-- ===== src/Tests/SystemTests.antt =====
-- The ledger, the histories and the five requests at concrete inputs.
use nexus_hub_contract.Prelude.{◌≡◌, refl, true, none, some, [], ◌∷◌, String-discrete}
use nexus_hub_contract.Prelude.Int.{pos, ◌+ℤ◌}
use nexus_hub_contract.Model.Enums.{EscrowStatus}
use nexus_hub_contract.Model.Jobs.{EscrowJob, Party}
use nexus_hub_contract.Prisma.World.{World, escrow_of, transaction_of}
use nexus_hub_contract.Prisma.Memory.{memory, memory-IsLawful}
use nexus_hub_contract.Escrow.Create.{escrow_job_options}
use nexus_hub_contract.Escrow.Requests.Accepted.{Request, submit, is_ok, submit_lem}
use nexus_hub_contract.Worker.Process.{process}
use nexus_hub_contract.Worker.Settle.{record_release}
use nexus_hub_contract.Worker.Ledger.{Settlement, settle, ledger_of}
use nexus_hub_contract.Worker.Ledger.Refinement.{settle_refines}
use nexus_hub_contract.Worker.Ledger.Total.{total, settle_conserves}
use nexus_hub_contract.System.Kept.{terms, terms?, booking?}
use nexus_hub_contract.System.History.{Event, perform, start, next}
use nexus_hub_contract.System.History.Laws.{terms_kept, bookings_kept, settled_once}
use nexus_hub_contract.Tests.Fixtures.{job, purse, funded_world}
use nexus_hub_contract.Tests.WorkerTests.{silent}

submit_lem_example :
    (is_ok (submit memory (Request.approval Party.freelancer) "bob" "e1" funded_world).0 ≡ true)
    × ((submit memory (Request.approval Party.freelancer) "bob" "e1" funded_world).1
        ≡ record funded_world {
          escrow_queue =
              (EscrowJob.approve_release "e1" "bob" Party.freelancer, escrow_job_options) ∷ [];
        })
unfolding String-discrete
submit_lem_example = submit_lem memory (Request.approval Party.freelancer) "bob" "e1" funded_world

settle_refines_example :
    ledger_of
      (settle memory
        (job EscrowStatus.funded)
        "e1"
        (Settlement.release "alice" "tx")
        funded_world).1
      "bob"
    ≡ some (record { available = pos 500_000_000 +ℤ pos 100_000_000; reserved = pos 100_000_000 })
unfolding String-discrete settle
settle_refines_example =
    settle_refines memory memory-IsLawful (job EscrowStatus.funded) "e1"
      (Settlement.release "alice" "tx") "bob" funded_world

settle_conserves_example :
    total ("alice" ∷ "bob" ∷ []) (
      ledger_of
        (settle memory
          (job EscrowStatus.funded)
          "e1"
          (Settlement.release "alice" "tx")
          funded_world).1)
    ≡ total ("alice" ∷ "bob" ∷ []) (ledger_of funded_world)
unfolding String-discrete
settle_conserves_example =
    settle_conserves memory memory-IsLawful (job EscrowStatus.funded) "e1"
      (Settlement.release "alice" "tx") ("alice" ∷ "bob" ∷ []) funded_world {bc = purse "alice"}
      {bf = purse "bob"} refl refl refl

-- A request, and a job that the chain refuses.
abbrev claimed : Event
claimed = Event.claim_expired "zed" "e1"

abbrev refused : Event
refused = Event.process silent (EscrowJob.fund_escrow "e1" "alice" (pos 1))

terms_kept_example :
    terms? (escrow_of (perform memory refused (perform memory claimed funded_world)) "e1")
    ≡ some (terms (job EscrowStatus.funded))
unfolding String-discrete
terms_kept_example =
    terms_kept memory memory-IsLawful funded_world (next (next start claimed) refused) "e1"
      (job EscrowStatus.funded) refl

-- The world after one release.
abbrev released : World memory
released = (record_release memory (job EscrowStatus.funded) "e1" "alice" "tx" funded_world).1

bookings_kept_example :
    booking? (transaction_of (perform memory refused released) "release-e1")
    ≡ booking? (transaction_of released "release-e1")
unfolding String-discrete record_release
bookings_kept_example =
    bookings_kept memory memory-IsLawful released (next start refused) "release-e1" _ refl

settled_once_example :
    (process memory silent
      (EscrowJob.release_escrow "e1" "alice" none)
      (perform memory refused released)).1.db
    ≡ (perform memory refused released).db
unfolding String-discrete record_release
settled_once_example =
    settled_once memory memory-IsLawful released (next start refused) silent
      (EscrowJob.release_escrow "e1" "alice" none) "release-e1" _ refl refl
