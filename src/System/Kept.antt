-- ===== src/System/Kept.antt =====
-- The relation between two worlds of which the later one has lost nothing that was agreed on or
-- booked in the earlier one.
use nexus_hub_contract.Prelude.{String, ◌≡◌, refl, ◌∙◌, ap, Option, none, some}
use nexus_hub_contract.Prelude.Int.{ℤ}
use nexus_hub_contract.Model.Enums.{TransactionType}
use nexus_hub_contract.Model.Rows.{Escrow, Transaction}
use nexus_hub_contract.Prisma.Client.{Client}
use nexus_hub_contract.Prisma.World.{World, escrow_of, transaction_of}

-- What the parties of an escrow agreed on.
pub record Terms : Type 0 where
  pub client_id : String
  pub freelancer_id : String
  pub amount : ℤ
  pub fee : ℤ

-- What a transaction books: all but its status and its reference.
pub record Booking : Type 0 where
  pub user_id : String
  pub type : TransactionType
  pub amount : ℤ
  pub escrow_id : Option String

abbrev pub terms : Escrow → Terms
terms e = record {
  client_id = e.client_id;
  freelancer_id = e.freelancer_id;
  amount = e.amount;
  fee = e.fee;
}

abbrev pub booking : Transaction → Booking
booking t = record {
  user_id = t.user_id;
  type = t.type;
  amount = t.amount;
  escrow_id = t.escrow_id;
}

abbrev pub terms? : Option Escrow → Option Terms
terms? none = none
terms? (some e) = some (terms e)

abbrev pub booking? : Option Transaction → Option Booking
booking? none = none
booking? (some t) = some (booking t)

terms?-some :
    (o : Option Escrow) {t : Terms}
    → terms? o ≡ some t
    → (e : Escrow) × (o ≡ some e) × (terms e ≡ t)
terms?-some none h = cc
terms?-some (some e) h = (e, refl, cc)

pub booking?-some :
    (o : Option Transaction) {b : Booking}
    → booking? o ≡ some b
    → (t : Transaction) × (o ≡ some t) × (booking t ≡ b)
booking?-some none h = cc
booking?-some (some t) h = (t, refl, cc)

module _ {c : Client} where
  -- What was stored under an id or a key is still stored there, with the same terms or booking.
  pub record Kept (w v : World c) : Type 0 where
    pub terms_kept :
        (id : String) (e : Escrow)
        → escrow_of w id ≡ some e
        → terms? (escrow_of v id) ≡ some (terms e)
    pub bookings_kept :
        (key : String) (t : Transaction)
        → transaction_of w key ≡ some t
        → booking? (transaction_of v key) ≡ some (booking t)

  pub Kept-refl : (w : World c) → Kept w w
  Kept-refl w = record { terms_kept = λ id e h. rw h refl; bookings_kept = λ key t h. rw h refl }

  pub Kept-trans : (u v w : World c) → Kept u v → Kept v w → Kept u w
  Kept-trans u v w h k = record {
    terms_kept = λ id e stored.
        let (f, there, same) = terms?-some (escrow_of v id) (h.terms_kept id e stored) in
        k.terms_kept id f there ∙ ap some same;
    bookings_kept = λ key t stored.
        let (f, there, same) =
          booking?-some (transaction_of v key) (h.bookings_kept key t stored) in
        k.bookings_kept key f there ∙ ap some same;
  }

  -- Worlds with the same two tables.
  pub Kept-same :
      (w v : World c)
      → v.db.escrows ≡ w.db.escrows
      → v.db.transactions ≡ w.db.transactions
      → Kept w v
  Kept-same w v e t = record {
    terms_kept = λ id row stored. rw (e, stored) refl;
    bookings_kept = λ key row stored. rw (t, stored) refl;
  }
