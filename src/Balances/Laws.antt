-- ===== src/Balances/Laws.antt =====
-- Whose transactions a history shows.
use nexus_hub_contract.Prelude.{ℕ, String, ◌≡◌, true, Option, All, All-map, refl, arith}
use nexus_hub_contract.Model.Enums.{TransactionType}
use nexus_hub_contract.Model.Rows.{Transaction}
use nexus_hub_contract.Prisma.Client.{Client, IsLawful}
use nexus_hub_contract.Prisma.World.{World}
use nexus_hub_contract.Prisma.Action.{ok}
use nexus_hub_contract.Paging.{Page, to_page, rows_of, pages_of}
use nexus_hub_contract.Paging.Cover.{rows-All}
use nexus_hub_contract.Balances.{of_type, of_user, get_transaction_history}

module _ (c : Client) (laws : IsLawful c) where
  -- A page of a history holds transactions of the user alone, and of the type that was asked for;
  -- its total counts all of them, and the read changes nothing.
  pub get_transaction_history_own :
      (user : String) (page limit : ℕ) (type : Option TransactionType) (w : World c)
      → (p : Page Transaction) × (get_transaction_history c user page limit type w ≡ (ok p, w))
        × All (λ t. (t.user_id ≡ user) × (of_type type t ≡ true)) p.rows
        × (p.total ≡ c.count Transaction (of_user user type) w.db.transactions)
        × (p.pages ≡ pages_of p.total limit)
  unfolding get_transaction_history to_page
  get_transaction_history_own user page limit type w =
      let all = c.find_many Transaction (of_user user type) w.db.transactions in
      let total = c.count Transaction (of_user user type) w.db.transactions in
      let own =
        All-map {P = λ t. of_user user type t ≡ true}
          {Q = λ t. (t.user_id ≡ user) × (of_type type t ≡ true)}
          (λ t h. (ground arith, ground arith)) (rows_of all page limit)
          (rows-All _ all page limit (laws.find_many-All Transaction (of_user user type) _)) in
      (to_page all total page limit, refl, own, refl, refl)
