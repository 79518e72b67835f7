-- ===== src/Paging/Cover.antt =====
-- The pages in order hold every row once.
use nexus_hub_contract.Prelude.{
  All, All-take, All-drop, drop, ℕ, zero, suc, ◌+◌, ◌-◌, ◌*◌, ◌/◌, ◌≤◌, ◌<◌, ◌≡◌, refl, ap, ◌∙◌,
  some, List, [], ◌∷◌, ◌++◌, take, drop, length, arith,
}
use native.Mathlib.Nat.{zero-add, suc-add, zero-mul, lt-div-mul-add}
use native.Mathlib.Decide.{ℕ_discrete}
use nexus_hub_contract.Paging.{pages_of, rows_of}

-- The rows of the first `n` pages, one page after the other.
pub first_pages : {A : Type 0} → List A → ℕ → ℕ → List A
first_pages all limit zero = []
first_pages all limit (suc n) = first_pages all limit n ++ rows_of all (suc n) limit

take-nil : {A : Type 0} (n : ℕ) → take {A = A} n [] ≡ []
take-nil zero = refl
take-nil (suc n) = refl

take-add : {A : Type 0} (m n : ℕ) (xs : List A) → take m xs ++ take n (drop m xs) ≡ take (m + n) xs
take-add zero n xs = rw zero-add
take-add (suc m) n [] = simp take-nil
take-add (suc m) n (x ∷ xs) = rw suc-add (ap (λ ys. x ∷ ys) (take-add m n xs))

take_all : {A : Type 0} (n : ℕ) (xs : List A) → length xs ≤ n → take n xs ≡ xs
take_all zero [] h = refl
take_all zero (x ∷ xs) h = absurd (omega arith)
take_all (suc n) [] h = refl
take_all (suc n) (x ∷ xs) h = ap (λ ys. x ∷ ys) (take_all n xs (omega arith))

first_pages-take :
    {A : Type 0} (all : List A) (limit n : ℕ) → first_pages all limit n ≡ take (n * limit) all
unfolding first_pages rows_of
first_pages-take all limit zero = rw zero-mul
first_pages-take all limit (suc n) =
    let start : suc n - 1 ≡ n = omega arith in
    let end : n * limit + limit ≡ suc n * limit = omega arith in
    rw (first_pages-take all limit n, start, take-add, end)

pages-suffice : (total limit n : ℕ) → pages_of total limit ≡ some n → total ≤ n * limit
unfolding pages_of
pages-suffice total limit n h = elim (ℕ_discrete limit 0) [
  | yes none_fit ↦ absurd (ground arith)
  | no positive ↦
      let a = total + (limit - 1) in
      let quotient : a / limit ≡ n = ground arith in
      let below : a < a / limit * limit + limit = lt-div-mul-add (omega arith) in
      let above : a < n * limit + limit = rw quotient at below in omega arith
]

-- The pages from 1 to `pages`, read in order, are the whole list: no row is lost or repeated.
pub pages_cover :
    {A : Type 0} (all : List A) (limit n : ℕ)
    → pages_of (length all) limit ≡ some n
    → first_pages all limit n ≡ all
pages_cover all limit n h =
    first_pages-take all limit n ∙ take_all (n * limit) all (pages-suffice (length all) limit n h)

-- What holds of every row holds of every row of a page.
pub rows-All :
    {A : Type 0} (P : A → Type 0) (all : List A) (page limit : ℕ)
    → All P all
    → All P (rows_of all page limit)
unfolding rows_of
rows-All P all page limit h =
    All-take P limit (drop ((page - 1) * limit) all) (All-drop P ((page - 1) * limit) all h)
