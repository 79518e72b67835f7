-- ===== src/Balances.antt =====
-- BalancesService of apps/api/src/balances/balances.service.ts: the balance of a user, and the
-- pages of the user's transactions.
pub mod Laws
use nexus_hub_contract.Prelude.{ℕ, String, Bool, true, ◌&&◌, Option, none, some, nat_eq, ◌==◌}
use nexus_hub_contract.Model.Enums.{TransactionType, transaction_type_index}
use nexus_hub_contract.Model.Rows.{User, Balance, Transaction}
use nexus_hub_contract.Prisma.Client.{Client}
use nexus_hub_contract.Prisma.World.{balances, users, transactions}
use nexus_hub_contract.Prisma.Action.{
  Action, not_found, ◌>>=◌, pure, or_throw, find_unique, find_many, count,
}
use nexus_hub_contract.Paging.{Page, to_page}

-- `where.type`, where a type is asked for.
abbrev pub of_type : Option TransactionType → Transaction → Bool
of_type none t = true
of_type (some type) t = nat_eq (transaction_type_index t.type) (transaction_type_index type)

abbrev pub of_user : String → Option TransactionType → Transaction → Bool
of_user user_id type t = t.user_id == user_id && of_type type t

module _ (c : Client) where
  -- The balance, with its user.
  unfoldable pub get_balance : String → Action c (Balance × Option User)
  get_balance user_id = do
    found ← find_unique (balances c) user_id
    balance ← or_throw found (not_found "Balance not found")
    user ← find_unique (users c) balance.user_id
    pure (balance, user)

  unfoldable pub get_transaction_history :
      String → ℕ → ℕ → Option TransactionType → Action c (Page Transaction)
  get_transaction_history user_id page limit type = do
    all ← find_many (transactions c) (of_user user_id type)
    total ← count (transactions c) (of_user user_id type)
    pure (to_page all total page limit)
