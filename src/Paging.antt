-- ===== src/Paging.antt =====
-- The page arithmetic that listEscrows, listDisputes, getTransactionHistory and getDeliveries
-- share: `skip: (page - 1) * limit`, `take: limit`, and `pages: Math.ceil(total / limit)`.
pub mod Cover
use nexus_hub_contract.Prelude.{
  ℕ, ◌+◌, ◌-◌, ◌*◌, ◌/◌, Option, none, some, List, take, drop, nat_eq, if◌then◌else◌,
}

pub record Page (A : Type 0) : Type 0 where
  pub rows : List A
  pub total : ℕ
  pub page : ℕ
  pub limit : ℕ
  pub pages : Option ℕ

-- `Math.ceil(total / limit)`; a division by 0 gives no number.
unfoldable pub pages_of : ℕ → ℕ → Option ℕ
pages_of total limit = if nat_eq limit 0 then none else some ((total + (limit - 1)) / limit)

-- The rows of a page, from 1 on, of the ordered rows.
unfoldable pub rows_of : {A : Type 0} → List A → ℕ → ℕ → List A
rows_of all page limit = take limit (drop ((page - 1) * limit) all)

unfoldable pub to_page : {A : Type 0} → List A → ℕ → ℕ → ℕ → Page A
unfolding pages_of rows_of
to_page all total page limit = record {
  rows = rows_of all page limit;
  total = total;
  page = page;
  limit = limit;
  pages = pages_of total limit;
}
