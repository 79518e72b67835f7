-- ===== src/Prisma/Action.antt =====
-- An async call: it reads and changes the world, and returns or throws. What was written before a
-- throw stays written, but for the database inside a transaction.
use nexus_hub_contract.Prelude.{
  ℕ, ◌+◌, ◌≡◌, refl, ◌⊎◌, inl, inr, String, Bool, true, false, Option, none, some, List, ◌∷◌, ⊤,
  if◌then◌else◌, is_some,
}
use nexus_hub_contract.Model.Rows.{AuditLog}
use nexus_hub_contract.Model.Jobs.{EscrowJob, WebhookJob, JobOptions}
use nexus_hub_contract.Prisma.Client.{Client}
use nexus_hub_contract.Prisma.World.{World, Db, Delegate}

-- The exceptions of @nestjs/common that the services throw, `new Error`, and the two errors of
-- Prisma that the schema allows: no row to update, and a second row under a unique key.
pub data Exception : Type 0 where
  not_found bad_request forbidden conflict unauthorized : (message : String) → Exception
  error : (message : String) → Exception
  record_missing unique_violation : Exception

pub data Result (A : Type 0) : Type 0 where
  ok : A → Result A
  throws : Exception → Result A

pub Result-cases :
    {A : Type 0} (r : Result A) → ((a : A) × (r ≡ ok a)) ⊎ ((e : Exception) × (r ≡ throws e))
Result-cases (ok a) = inl (a, refl)
Result-cases (throws e) = inr (e, refl)

module _ (c : Client) where
  abbrev pub Action : Type 0 → Type 0
  Action A = World c → Result A × World c

module _ {c : Client} where
  infixl 5 ◌>>=◌ ◌>>◌
  abbrev pub ◌>>=◌ : {A B : Type 0} → Action c A → (A → Action c B) → Action c B
  ◌>>=◌ m f w = let (r, v) = m w in elim r [ ok a ↦ f a v | throws e ↦ (throws e, v) ]

  abbrev pub ◌>>◌ : {A B : Type 0} → Action c A → Action c B → Action c B
  m >> k = m >>= λ _. k

  abbrev pub pure : {A : Type 0} → A → Action c A
  pure a w = (ok a, w)

  abbrev pub throw : {A : Type 0} → Exception → Action c A
  throw e w = (throws e, w)

  -- `if (test) throw e`
  abbrev pub throw_if : Bool → Exception → Action c ⊤
  throw_if test e w = (if test then throws e else ok tt, w)

  -- `if (!x) throw e`, for a value that may be null
  abbrev pub or_throw : {A : Type 0} → Option A → Exception → Action c A
  or_throw none e = throw e
  or_throw (some a) e = pure a

  abbrev pub get : {A : Type 0} → (World c → A) → Action c A
  get f w = (ok (f w), w)

  abbrev pub modify : (World c → World c) → Action c ⊤
  modify f w = (ok tt, f w)

  abbrev pub when : Bool → Action c ⊤ → Action c ⊤
  when true m = m
  when false m = pure tt

  module _ {V : Type 0} (model : Delegate c V) where
    abbrev pub find_unique : String → Action c (Option V)
    find_unique k = get λ w. c.find_unique V k (model.rows w.db)

    abbrev pub find_first : (V → Bool) → Action c (Option V)
    find_first p = get λ w. c.find_first V p (model.rows w.db)

    abbrev pub find_many : (V → Bool) → Action c (List V)
    find_many p = get λ w. c.find_many V p (model.rows w.db)

    abbrev write : (c.Table V → c.Table V) → Action c ⊤
    write f = modify λ w. record w { db = model.store (f (model.rows w.db)) w.db }

    -- A `create` under a key that is taken throws.
    abbrev pub create : String → V → Action c V
    create k v = do
      found ← find_unique k
      throw_if (is_some found) unique_violation
      write (c.create V k v)
      pure v

    -- So does one whose other unique column is taken.
    abbrev pub create_unique : String → (V → Bool) → V → Action c V
    create_unique k taken v = do
      other ← find_first taken
      throw_if (is_some other) unique_violation
      create k v

    -- An `update` of a row that is not there throws.
    abbrev pub update : String → (V → V) → Action c V
    update k f = do
      found ← find_unique k
      v ← or_throw found record_missing
      write (c.update V k f)
      pure (f v)

    -- `updateMany` returns how many rows it has changed.
    abbrev pub update_many : (V → Bool) → (V → V) → Action c ℕ
    update_many p f = do
      n ← get λ w. c.count V p (model.rows w.db)
      write (c.update_many V p f)
      pure n

    abbrev pub count : (V → Bool) → Action c ℕ
    count p = get λ w. c.count V p (model.rows w.db)

    -- So does a `delete`.
    abbrev pub delete : String → Action c ⊤
    delete k = do found ← find_unique k; or_throw found record_missing; write (c.delete V k)

  -- `$transaction`: after a throw the database is rolled back. The queues are not part of it.
  abbrev pub transaction : {A : Type 0} → Action c A → Action c A
  transaction m w =
      let (r, v) = m w in
      elim r [
        | ok a ↦ (ok a, v)
        | throws e ↦ (throws e, record v { db = c.rollback (Db c) w.db v.db })
      ]

  -- `try m catch (e) { handler; throw e }`
  abbrev pub on_throw : {A : Type 0} → Action c A → Action c ⊤ → Action c A
  on_throw m handler w =
      let (r, v) = m w in elim r [ ok a ↦ (ok a, v) | throws e ↦ (handler >> throw e) v ]

  -- `@default(uuid())`
  abbrev pub fresh_id : Action c String
  fresh_id w = (ok (c.uuid w.drawn), record w { drawn = w.drawn + 1 })

  -- `crypto.randomBytes(32).toString('hex')`
  abbrev pub fresh_secret : Action c String
  fresh_secret w = (ok (c.secret w.drawn), record w { drawn = w.drawn + 1 })

  -- `new Date()`
  abbrev pub new_date : Action c ℕ
  new_date = get λ w. w.now

  -- `auditLog.create`
  abbrev pub audit : AuditLog → Action c ⊤
  audit entry = modify λ w. record w { db = record w.db { audit_logs = entry ∷ w.db.audit_logs } }

  -- `escrowQueue.add`, `webhookQueue.add`
  abbrev pub add_escrow_job : EscrowJob → JobOptions → Action c ⊤
  add_escrow_job job options =
      modify λ w. record w { escrow_queue = (job, options) ∷ w.escrow_queue }

  abbrev pub add_webhook_job : WebhookJob → JobOptions → Action c ⊤
  add_webhook_job job options =
      modify λ w. record w { webhook_queue = (job, options) ∷ w.webhook_queue }
