-- ===== src/Tests/EscrowTests.antt =====
-- The escrow service at concrete inputs.
use nexus_hub_contract.Prelude.{String, ◌≡◌, refl, none, some, String-discrete, ◌⊎◌}
use nexus_hub_contract.Prelude.Int.{pos, ◌+ℤ◌, ◌-ℤ◌, times}
use nexus_hub_contract.Model.Rows.{Transaction, Escrow}
use nexus_hub_contract.Prisma.World.{escrow_of}
use nexus_hub_contract.Prisma.Action.{ok, throws, not_found, bad_request, transaction}
use nexus_hub_contract.Prisma.Memory.{memory, memory-IsLawful}
use nexus_hub_contract.Model.Decimal.{lt, to_column, increment, decrement}
use nexus_hub_contract.Escrow.Create.{
  CreateEscrowDto, fits_columns, create_escrow, commit_escrow, existing, debit_of,
}
use nexus_hub_contract.Escrow.Create.Laws.{create_escrow_again}
use nexus_hub_contract.Escrow.Create.Interleaving.{interleaved_once}
use nexus_hub_contract.Escrow.Queries.{EscrowDetails, Milestones, get_escrow, get_milestones}
use nexus_hub_contract.Escrow.Queries.Laws.{reads-private}
use nexus_hub_contract.Tests.Fixtures.{purse, funded_world}

abbrev pub request : CreateEscrowDto
request = record {
  freelancer_id = "bob";
  amount = record { units = 20_000; places = 4 };
  description = "site";
  milestone_title = none;
  milestone_hash = none;
  milestones_total = none;
  expiry_ledger = none;
}

create_escrow_again_example :
    (t : Transaction) × (t.escrow_id ≡ some "u")
    × (create_escrow memory "bob" request "k"
          (create_escrow memory "alice" request "k" funded_world).1
        ≡ (ok (existing t), (create_escrow memory "alice" request "k" funded_world).1))
unfolding String-discrete create_escrow ◌+ℤ◌ ◌-ℤ◌ debit_of lt times fits_columns to_column increment
    decrement
create_escrow_again_example =
    create_escrow_again memory memory-IsLawful "alice" "k" "bob" request request funded_world _ refl

interleaved_once_example :
    let v = (create_escrow memory "alice" request "k" funded_world).1 in
    let (r, u) = transaction (commit_escrow memory "alice" request "k2" (purse "alice")) v in
    (r ≡ throws (bad_request "Balance modified concurrently. Please retry."))
    × (u.db ≡ v.db)
    × (u.escrow_queue ≡ v.escrow_queue)
unfolding String-discrete create_escrow ◌+ℤ◌ ◌-ℤ◌ debit_of lt times fits_columns to_column increment
    decrement
interleaved_once_example =
    interleaved_once memory memory-IsLawful "alice" "k" "k2" request request funded_world
      (purse "alice") _ refl refl

reads-private_example :
    ((k : String) × (e : Escrow) × (escrow_of funded_world k ≡ some e)
      × (e.id ≡ "e1")
      × ((e.client_id ≡ "bob") ⊎ (e.freelancer_id ≡ "bob"))
      × ((d : EscrowDetails) × (get_escrow memory "bob" "e1" funded_world ≡ (ok d, funded_world))
          × (d.id ≡ "e1")
          × (d.status ≡ e.status)
          × (d.amount ≡ e.amount))
      × ((m : Milestones) × (get_milestones memory "bob" "e1" funded_world ≡ (ok m, funded_world))
          × (m.remaining +ℤ pos m.completed ≡ pos m.total)))
    ⊎ ((get_escrow memory "bob" "e1" funded_world
          ≡ (throws (not_found "Escrow not found"), funded_world))
        × (get_milestones memory "bob" "e1" funded_world
            ≡ (throws (not_found "Escrow not found"), funded_world)))
reads-private_example = reads-private memory memory-IsLawful "bob" "e1" funded_world
