-- ===== src/System/Rules.antt =====
-- Calls that lose nothing: a rule for each way to build an action, so that a search proves a whole
-- handler.
use nexus_hub_contract.Prelude.{
  String, ◌≡◌, refl, ap, inl, inr, Bool, true, false, Option, none, some, ⊤, arith, String-discrete,
  Bool-cases,
}
use nexus_hub_contract.Model.Rows.{Escrow, Transaction, AuditLog}
use nexus_hub_contract.Model.Jobs.{EscrowJob, WebhookJob, JobOptions}
use nexus_hub_contract.Prisma.Client.{Client, IsLawful}
use nexus_hub_contract.Prisma.World.{
  World, Db, Delegate, users, refresh_tokens, balances, transactions, escrows, disputes,
  webhook_endpoints, webhook_deliveries,
}
use nexus_hub_contract.Prisma.Action.{
  Action, Result, ok, throws, Exception, ◌>>=◌, ◌>>◌, pure, throw, get, modify, throw_if, or_throw,
  on_throw, when, create, create_unique, update, update_many, delete, transaction, fresh_id,
  fresh_secret, audit, add_escrow_job, add_webhook_job,
}
use nexus_hub_contract.Worker.Chain.{call}
use nexus_hub_contract.System.Kept.{Kept, Kept-refl, Kept-trans, Kept-same, terms, booking}

module _ {c : Client} where
  -- A call that loses nothing, whatever it is called in and however it ends.
  pub record IsSafe {A : Type 0} (m : Action c A) : Type 0 where
    pub at : (w : World c) → Kept w (m w).1

  -- A change of neither of the two tables.
  same-IsSafe :
      {A : Type 0} (m : Action c A)
      → ((w : World c) → (m w).1.db.escrows ≡ w.db.escrows)
      → ((w : World c) → (m w).1.db.transactions ≡ w.db.transactions)
      → IsSafe m
  same-IsSafe m e t = record { at = λ w. Kept-same w (m w).1 (e w) (t w) }

  after-Kept :
      {A B : Type 0} (w : World c) (r : Result A × World c) (f : A → Action c B)
      → Kept w r.1
      → ((a : A) → Kept r.1 (f a r.1).1)
      → Kept w
          (elim r.0 as (λ _. Result B × World c) [ ok a ↦ f a r.1 | throws e ↦ (throws e, r.1) ]).1
  after-Kept w (ok a, v) f here later = Kept-trans w v (f a v).1 here (later a)
  after-Kept w (throws x, v) f here later = here

  pub bind-IsSafe :
      {A B : Type 0} {m : Action c A} {f : A → Action c B}
      → IsSafe m
      → ((a : A) → IsSafe (f a))
      → IsSafe (m >>= f)
  bind-IsSafe {m} {f} hm hf = record {
    at = λ w. after-Kept w (m w) f (hm.at w) λ a. (hf a).at (m w).1;
  }

  pub get-IsSafe : {A : Type 0} (f : World c → A) → IsSafe (get f)
  get-IsSafe f = record { at = Kept-refl }

  pub pure-IsSafe : {A : Type 0} (a : A) → IsSafe (pure a)
  pure-IsSafe a = record { at = Kept-refl }

  pub throw-IsSafe : {A : Type 0} (x : Exception) → IsSafe (throw {A = A} x)
  throw-IsSafe x = record { at = Kept-refl }

  pub call-IsSafe : {A : Type 0} (r : Result A) → IsSafe (call r)
  call-IsSafe r = record { at = Kept-refl }

  pub throw_if-IsSafe : (b : Bool) (x : Exception) → IsSafe (throw_if b x)
  throw_if-IsSafe b x = record { at = Kept-refl }

  pub or_throw-IsSafe : {A : Type 0} (o : Option A) (x : Exception) → IsSafe (or_throw o x)
  or_throw-IsSafe none x = record { at = Kept-refl }
  or_throw-IsSafe (some a) x = record { at = Kept-refl }

  pub when-IsSafe : (b : Bool) (m : Action c ⊤) → IsSafe m → IsSafe (when b m)
  when-IsSafe true m h = h
  when-IsSafe false m h = pure-IsSafe tt

  pub option-IsSafe :
      {A B : Type 0} (o : Option A) (m : Action c B) (f : A → Action c B)
      → IsSafe m
      → ((a : A) → IsSafe (f a))
      → IsSafe (elim o as (λ _. Action c B) [ none ↦ m | some a ↦ f a ])
  option-IsSafe none m f hm hf = hm
  option-IsSafe (some a) m f hm hf = hf a

  pub fresh_id-IsSafe : IsSafe (fresh_id {c = c})
  fresh_id-IsSafe = same-IsSafe fresh_id (λ w. refl) (λ w. refl)

  pub fresh_secret-IsSafe : IsSafe (fresh_secret {c = c})
  fresh_secret-IsSafe = same-IsSafe fresh_secret (λ w. refl) (λ w. refl)

  pub audit-IsSafe : (entry : AuditLog) → IsSafe (audit {c = c} entry)
  audit-IsSafe entry = same-IsSafe (audit entry) (λ w. refl) (λ w. refl)

  pub escrow_job-IsSafe :
      (job : EscrowJob) (options : JobOptions) → IsSafe (add_escrow_job {c = c} job options)
  escrow_job-IsSafe job options = same-IsSafe (add_escrow_job job options) (λ w. refl) (λ w. refl)

  pub webhook_job-IsSafe :
      (job : WebhookJob) (options : JobOptions) → IsSafe (add_webhook_job {c = c} job options)
  webhook_job-IsSafe job options = same-IsSafe (add_webhook_job job options) (λ w. refl) (λ w. refl)

  on_throw-Kept :
      {A : Type 0} (w : World c) (r : Result A × World c) (handler : Action c ⊤)
      → Kept w r.1
      → IsSafe handler
      → Kept w
          (elim r.0 as (λ _. Result A × World c) [
            | ok a ↦ (ok a, r.1)
            | throws e ↦ (handler >> throw e) r.1
          ]).1
  on_throw-Kept w (ok a, v) handler here h = here
  on_throw-Kept w (throws e, v) handler here h =
      Kept-trans w v ((handler >> throw e) v).1 here ((bind-IsSafe h λ _. throw-IsSafe e).at v)

  pub on_throw-IsSafe :
      {A : Type 0} (m : Action c A) (handler : Action c ⊤)
      → IsSafe m
      → IsSafe handler
      → IsSafe (on_throw m handler)
  on_throw-IsSafe m handler hm h = record { at = λ w. on_throw-Kept w (m w) handler (hm.at w) h }

  -- A table that is neither of the two.
  pub record IsElsewhere {V : Type 0} (d : Delegate c V) : Type 0 where
    pub same_escrows : (t : c.Table V) (db : Db c) → (d.store t db).escrows ≡ db.escrows
    pub same_transactions :
        (t : c.Table V) (db : Db c) → (d.store t db).transactions ≡ db.transactions

  module _ {V : Type 0} (d : Delegate c V) (h : IsElsewhere d) where
    pub write-IsSafe :
        (f : World c → c.Table V)
        → IsSafe (modify λ (w : World c). record w { db = d.store (f w) w.db })
    write-IsSafe f =
        same-IsSafe _ (λ w. h.same_escrows (f w) w.db) (λ w. h.same_transactions (f w) w.db)

    ruleset write_rules =
        (bind-IsSafe, get-IsSafe, pure-IsSafe, throw_if-IsSafe, or_throw-IsSafe, write-IsSafe)

    pub update-IsSafe : (k : String) (f : V → V) → IsSafe (update d k f)
    update-IsSafe k f = search write_rules

    pub create-IsSafe : (k : String) (v : V) → IsSafe (create d k v)
    create-IsSafe k v = search write_rules

    pub create_unique-IsSafe :
        (k : String) (taken : V → Bool) (v : V) → IsSafe (create_unique d k taken v)
    create_unique-IsSafe k taken v = search (write_rules, create-IsSafe)

    pub update_many-IsSafe : (p : V → Bool) (f : V → V) → IsSafe (update_many d p f)
    update_many-IsSafe p f = search write_rules

    pub delete-IsSafe : (k : String) → IsSafe (delete d k)
    delete-IsSafe k = search write_rules

module _ (c : Client) where
  pub users-IsElsewhere : IsElsewhere (users c)
  users-IsElsewhere = record { same_escrows = λ t db. refl; same_transactions = λ t db. refl }

  pub refresh_tokens-IsElsewhere : IsElsewhere (refresh_tokens c)
  refresh_tokens-IsElsewhere = record {
    same_escrows = λ t db. refl;
    same_transactions = λ t db. refl;
  }

  pub balances-IsElsewhere : IsElsewhere (balances c)
  balances-IsElsewhere = record { same_escrows = λ t db. refl; same_transactions = λ t db. refl }

  pub disputes-IsElsewhere : IsElsewhere (disputes c)
  disputes-IsElsewhere = record { same_escrows = λ t db. refl; same_transactions = λ t db. refl }

  pub webhook_endpoints-IsElsewhere : IsElsewhere (webhook_endpoints c)
  webhook_endpoints-IsElsewhere = record {
    same_escrows = λ t db. refl;
    same_transactions = λ t db. refl;
  }

  pub webhook_deliveries-IsElsewhere : IsElsewhere (webhook_deliveries c)
  webhook_deliveries-IsElsewhere = record {
    same_escrows = λ t db. refl;
    same_transactions = λ t db. refl;
  }

module _ (c : Client) (laws : IsLawful c) where
  -- A change of a stored escrow that leaves its terms alone.
  pub update_escrow-IsSafe :
      (k : String) (f : Escrow → Escrow)
      → ((e : Escrow) → terms (f e) ≡ terms e)
      → IsSafe (update (escrows c) k f)
  update_escrow-IsSafe k f keeps = record {
    at = λ w. record {
      terms_kept = λ id row stored. elim (String-discrete id k) [
        | yes same ↦ grind (arith, laws.find-update_self Escrow k f row w.db.escrows, keeps row)
        | no apart ↦ grind (arith, laws.find-update_ne Escrow id k f w.db.escrows apart)
      ];
      bookings_kept = λ key row stored. grind arith;
    };
  }

  pub update_transactions-IsSafe :
      (p : Transaction → Bool) (f : Transaction → Transaction)
      → ((t : Transaction) → booking (f t) ≡ booking t)
      → IsSafe (update_many (transactions c) p f)
  update_transactions-IsSafe p f keeps = record {
    at = λ w. record {
      terms_kept = λ id row stored. grind arith;
      bookings_kept = λ key row stored.
          let changed = laws.find-update_many Transaction key p f row w.db.transactions stored in
          let same = keeps row in
          elim (Bool-cases (p row)) [
            | inl here ↦ rw (changed, here) (ground arith)
            | inr other ↦ rw (changed, other) refl
          ];
    };
  }

  -- A new row, which `create` stores only where none is.
  pub create_escrow-IsSafe : (k : String) (e : Escrow) → IsSafe (create (escrows c) k e)
  create_escrow-IsSafe k e = record {
    at = λ w. record {
      terms_kept = λ id row stored. elim (String-discrete id k) [
        | yes same ↦ grind arith
        | no apart ↦ grind (arith, laws.find-create_ne Escrow id k e w.db.escrows apart)
      ];
      bookings_kept = λ key row stored. grind arith;
    };
  }

  pub create_transaction-IsSafe :
      (k : String) (t : Transaction) → IsSafe (create (transactions c) k t)
  create_transaction-IsSafe k t = record {
    at = λ w. record {
      terms_kept = λ id row stored. grind arith;
      bookings_kept = λ key row stored. elim (String-discrete key k) [
        | yes same ↦ grind arith
        | no apart ↦ grind (arith, laws.find-create_ne Transaction key k t w.db.transactions apart)
      ];
    };
  }

  transaction-Kept :
      {A : Type 0} (w : World c) (r : Result A × World c)
      → Kept w r.1
      → Kept w
          (elim r.0 as (λ _. Result A × World c) [
            | ok a ↦ (ok a, r.1)
            | throws e ↦ (throws e, record r.1 { db = c.rollback (Db c) w.db r.1.db })
          ]).1
  transaction-Kept w (ok a, v) here = here
  transaction-Kept w (throws e, v) here =
      let back = laws.rollback_lem (Db c) w.db v.db in
      Kept-same w _ (ap (λ (d : Db c). d.escrows) back) (ap (λ (d : Db c). d.transactions) back)

  pub transaction-IsSafe : {A : Type 0} (m : Action c A) → IsSafe m → IsSafe (transaction m)
  transaction-IsSafe m h = record { at = λ w. transaction-Kept w (m w) (h.at w) }

pub ruleset safe_rules = (
  bind-IsSafe, get-IsSafe, pure-IsSafe, throw-IsSafe, call-IsSafe, throw_if-IsSafe, or_throw-IsSafe,
  when-IsSafe, option-IsSafe, fresh_id-IsSafe, fresh_secret-IsSafe, audit-IsSafe, escrow_job-IsSafe,
  webhook_job-IsSafe, on_throw-IsSafe, update-IsSafe, create-IsSafe, create_unique-IsSafe,
  update_many-IsSafe, delete-IsSafe, users-IsElsewhere, refresh_tokens-IsElsewhere,
  balances-IsElsewhere, disputes-IsElsewhere, webhook_endpoints-IsElsewhere,
  webhook_deliveries-IsElsewhere, update_escrow-IsSafe, update_transactions-IsSafe,
  create_escrow-IsSafe, create_transaction-IsSafe, transaction-IsSafe,
)
