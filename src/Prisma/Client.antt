-- ===== src/Prisma/Client.antt =====
-- What the program uses of `@prisma/client`: a table's rows under a unique key, read and written
-- one at a time, or all that pass a test; and what a transaction leaves after a throw.
use nexus_hub_contract.Prelude.{
  ℕ, String, ◌≡◌, ◌≢◌, Bool, true, false, Option, none, some, List, [], ◌∷◌, ⊤, contains,
  if◌then◌else◌, All,
}
use mathlib.Core.List.{Memᴰ, Forall₂}

pub record Client : Type 1 where
  -- The rows of a model with values in `V`, each under the key by which the program finds it.
  pub Table : Type 0 → Type 0
  pub find_unique : (V : Type 0) → String → Table V → Option V
  pub find_first : (V : Type 0) → (V → Bool) → Table V → Option V
  -- All rows that pass the test, the newest first.
  pub find_many : (V : Type 0) → (V → Bool) → Table V → List V
  pub create : (V : Type 0) → String → V → Table V → Table V
  pub update : (V : Type 0) → String → (V → V) → Table V → Table V
  pub update_many : (V : Type 0) → (V → Bool) → (V → V) → Table V → Table V
  -- How many rows pass the test.
  pub count : (V : Type 0) → (V → Bool) → Table V → ℕ
  pub delete : (V : Type 0) → String → Table V → Table V
  -- The database after a transaction that threw, from those at its start and at the throw.
  pub rollback : (D : Type 0) → D → D → D
  -- The values of `@default(uuid())`, in the order in which they are drawn.
  pub uuid : ℕ → String
  -- The values of Node's `crypto.randomBytes(32).toString('hex')`, likewise.
  pub secret : ℕ → String

-- No key is named twice.
abbrev pub Distinct : List String → Type 0
Distinct [] = ⊤
Distinct (k ∷ ks) = (contains ks k ≡ false) × Distinct ks

-- The documented behaviour of those calls.
pub record IsLawful (c : Client) : Type 1 where
  pub find-create_self :
      (V : Type 0) (k : String) (v : V) (t : c.Table V)
      → c.find_unique V k (c.create V k v t) ≡ some v
  pub find-create_ne :
      (V : Type 0) (j k : String) (v : V) (t : c.Table V)
      → j ≢ k
      → c.find_unique V j (c.create V k v t) ≡ c.find_unique V j t
  pub find-update_self :
      (V : Type 0) (k : String) (f : V → V) (v : V) (t : c.Table V)
      → c.find_unique V k t ≡ some v
      → c.find_unique V k (c.update V k f t) ≡ some (f v)
  pub find-update_ne :
      (V : Type 0) (j k : String) (f : V → V) (t : c.Table V)
      → j ≢ k
      → c.find_unique V j (c.update V k f t) ≡ c.find_unique V j t
  pub find-update_many :
      (V : Type 0) (k : String) (p : V → Bool) (f : V → V) (v : V) (t : c.Table V)
      → c.find_unique V k t ≡ some v
      → c.find_unique V k (c.update_many V p f t) ≡ some (if p v then f v else v)
  pub find-update_many_none :
      (V : Type 0) (k : String) (p : V → Bool) (f : V → V) (t : c.Table V)
      → c.find_unique V k t ≡ none
      → c.find_unique V k (c.update_many V p f t) ≡ none
  pub find-delete_self :
      (V : Type 0) (k : String) (t : c.Table V) → c.find_unique V k (c.delete V k t) ≡ none
  pub find-delete_ne :
      (V : Type 0) (j k : String) (t : c.Table V)
      → j ≢ k
      → c.find_unique V j (c.delete V k t) ≡ c.find_unique V j t
  -- A row that `findFirst` returns is stored, and passes the test.
  pub find_first-stored :
      (V : Type 0) (p : V → Bool) (v : V) (t : c.Table V)
      → c.find_first V p t ≡ some v
      → (k : String) × (c.find_unique V k t ≡ some v)
  pub find_first-passes :
      (V : Type 0) (p : V → Bool) (v : V) (t : c.Table V) → c.find_first V p t ≡ some v → p v ≡ true
  -- When it returns none, no stored row passes.
  pub find_first-none :
      (V : Type 0) (p : V → Bool) (k : String) (v : V) (t : c.Table V)
      → c.find_first V p t ≡ none
      → c.find_unique V k t ≡ some v
      → p v ≡ false
  pub find_many-All :
      (V : Type 0) (p : V → Bool) (t : c.Table V) → All (λ v. p v ≡ true) (c.find_many V p t)
  pub mem-find_many :
      (V : Type 0) (p : V → Bool) (k : String) (v : V) (t : c.Table V)
      → c.find_unique V k t ≡ some v
      → p v ≡ true
      → Memᴰ v (c.find_many V p t)
  -- `findMany` returns stored rows, each of them once.
  pub find_many-stored :
      (V : Type 0) (p : V → Bool) (t : c.Table V)
      → (ks : List String) × Distinct ks
        × Forall₂ (λ k v. c.find_unique V k t ≡ some v) ks (c.find_many V p t)
  pub count-zero :
      (V : Type 0) (p : V → Bool) (k : String) (v : V) (t : c.Table V)
      → c.count V p t ≡ 0
      → c.find_unique V k t ≡ some v
      → p v ≡ false
  pub count-ne-zero :
      (V : Type 0) (p : V → Bool) (t : c.Table V)
      → c.count V p t ≢ 0
      → (k : String) × (v : V) × (c.find_unique V k t ≡ some v) × (p v ≡ true)
  pub rollback_lem : (D : Type 0) (before after : D) → c.rollback D before after ≡ before
