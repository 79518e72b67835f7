-- ===== src/Contract/Host.antt =====
-- What the contract asks of its host, soroban_sdk, and a call as an action: it returns with a new
-- machine, or it fails with an error of the contract, or it panics, and the host then undoes it.
use nexus_hub_contract.Prelude.{
  ℕ, ◌≡◌, ◌≢◌, refl, ◌⊎◌, inl, inr, Bool, true, false, Option, none, some, List, ◌∷◌, ⊤, ◌==◌, ◌&&◌,
  if◌then◌else◌,
}
use nexus_hub_contract.Prelude.Int.{ℤ, pos, ◌+ℤ◌, ◌-ℤ◌, ◌≤ℤ◌}
use nexus_hub_contract.Contract.Bytes.{Bytes}
use nexus_hub_contract.Contract.Types.{Address, EscrowError, EscrowRecord, Event}

-- One invocation: the ledger's number, the contract's own address, and who has signed for it.
pub record Env : Type 0 where
  pub sequence : ℕ
  pub current_contract_address : Address
  pub authorizes : Address → Bool

-- The token contracts, by their addresses. A transfer that panics gives `none`.
pub record Tokens : Type 1 where
  pub Ledger : Type 0
  pub balance : Ledger → (token holder : Address) → ℤ
  pub transfer : Env → (token from to : Address) → ℤ → Ledger → Option Ledger

-- What is debited from, or credited to, a holder of a token by a transfer.
abbrev pub share : (token' holder' token holder : Address) → ℤ → ℤ
share token' holder' token holder amount =
    if token' == token && holder' == holder then amount else pos 0

-- A transfer moves the amount, and nothing else.
pub record IsLedger (t : Tokens) : Type 0 where
  pub transfer-moves :
      (env : Env) (token from to : Address) (amount : ℤ) (l : t.Ledger) {l' : t.Ledger}
      (token' holder : Address)
      → t.transfer env token from to amount l ≡ some l'
      → t.balance l' token' holder
        ≡ t.balance l token' holder
          -ℤ share token' holder token from amount
          +ℤ share token' holder token to amount

-- A contract can send what it has to a holder that takes it: who has a trust line, for one.
pub record IsPaying (t : Tokens) : Type 1 where
  pub Takes : t.Ledger → (token holder : Address) → ℤ → Type 0
  pub transfer-pays :
      (env : Env) (token to : Address) (amount : ℤ) (l : t.Ledger)
      → Takes l token to amount
      → pos 0 ≤ℤ amount
      → amount ≤ℤ t.balance l token env.current_contract_address
      → (l' : t.Ledger) × (t.transfer env token env.current_contract_address to amount l ≡ some l')

module _ (t : Tokens) where
  -- The contract's persistent storage, the tokens, and the events, the latest first.
  pub record Machine : Type 0 where
    pub admin : Option Address
    pub fee_bps : Option ℕ
    pub paused : Option Bool
    pub escrows : List (Bytes × EscrowRecord)
    pub tokens : t.Ledger
    pub events : List Event

  pub data Outcome (A : Type 0) : Type 0 where
    returned : A → Machine → Outcome A
    failed : EscrowError → Outcome A
    panicked : Outcome A

  abbrev pub Action : Type 0 → Type 0
  Action A = Machine → Outcome A

module _ {t : Tokens} where
  -- A call returns, or does not.
  pub Outcome-cases :
      {A : Type 0} (o : Outcome t A)
      → ((a : A) × (v : Machine t) × (o ≡ returned a v))
        ⊎ ((a : A) (v : Machine t) → o ≢ returned a v)
  Outcome-cases (returned a v) = inl (a, v, refl)
  Outcome-cases (failed e) = inr (λ a v. cc)
  Outcome-cases panicked = inr (λ a v. cc)

  infixl 5 ◌>>=◌ ◌>>◌
  abbrev pub ◌>>=◌ : {A B : Type 0} → Action t A → (A → Action t B) → Action t B
  ◌>>=◌ m f s = elim (m s) [ returned a v ↦ f a v | failed e ↦ failed e | panicked ↦ panicked ]

  abbrev pub ◌>>◌ : {A B : Type 0} → Action t A → Action t B → Action t B
  m >> k = m >>= λ _. k

  abbrev pub pure : {A : Type 0} → A → Action t A
  pure a s = returned a s

  abbrev pub get : {A : Type 0} → (Machine t → A) → Action t A
  get f s = returned (f s) s

  abbrev pub modify : (Machine t → Machine t) → Action t ⊤
  modify f s = returned tt (f s)

  -- `if test { return Err(e); }`
  abbrev pub fail_if : Bool → EscrowError → Action t ⊤
  fail_if true e s = failed e
  fail_if false e s = returned tt s

  -- `ok_or(e)`
  abbrev pub ok_or : {A : Type 0} → Option A → EscrowError → Action t A
  ok_or none e s = failed e
  ok_or (some a) e s = returned a s

  -- The value of an operation with overflow checks.
  abbrev pub checked : {A : Type 0} → Option A → Action t A
  checked none s = panicked
  checked (some a) s = returned a s

  abbrev pub when : Bool → Action t ⊤ → Action t ⊤
  when true m = m
  when false m = pure tt

  abbrev pub panic_unless : Bool → Action t ⊤
  panic_unless true s = returned tt s
  panic_unless false s = panicked

  abbrev pub require_auth : Env → Address → Action t ⊤
  require_auth env address = panic_unless (env.authorizes address)

  abbrev pub emit : Event → Action t ⊤
  emit e = modify λ s. record s { events = e ∷ s.events }

  abbrev pub transfer_token : Env → (token from to : Address) → ℤ → Action t ⊤
  transfer_token env token from to amount s = elim (t.transfer env token from to amount s.tokens) [
    | none ↦ panicked
    | some l ↦ returned tt (record s { tokens = l })
  ]
