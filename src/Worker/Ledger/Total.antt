-- ===== src/Worker/Ledger/Total.antt =====
-- A move of the ledger creates no money and loses none, and so neither does a settlement.
use nexus_hub_contract.Prelude.{
  ℕ, suc, String, ◌≡◌, ◌≢◌, refl, ap, ◌∙◌, fun_ext, inl, inr, Bool-cases, true, false, Option, none,
  some, List, [], ⊤, ◌∷◌, arith, String-discrete, ◌==◌, if◌then◌else◌,
}
use nexus_hub_contract.Prelude.Int.{
  ℤ, pos, pos_part, neg_part, ◌+ℤ◌, times, times_zero, times-suc, int_laws,
}
use nexus_hub_contract.Model.Rows.{Escrow, Balance}
use nexus_hub_contract.Prisma.Client.{Client, IsLawful}
use nexus_hub_contract.Prisma.World.{World, balance_of}
use nexus_hub_contract.Prisma.Action.{Result, ok, throws}
use nexus_hub_contract.Worker.Ledger.{
  Account, Ledger, Move, Settlement, settle, move, move_of, outcome, ledger_of, account?,
  map_account, at_user, gain, unreserve,
}
use nexus_hub_contract.Worker.Ledger.Refinement.{settle_refines}

-- All that a user has, spendable or reserved; nothing without an account.
abbrev pub held : Option Account → ℤ
held none = pos 0
held (some a) = a.available +ℤ a.reserved

abbrev pub total : List String → Ledger → ℤ
total [] ledger = pos 0
total (u ∷ us) ledger = held (ledger u) +ℤ total us ledger

-- How often a user is on the list.
abbrev pub occurrences : String → List String → ℕ
occurrences k [] = 0
occurrences k (u ∷ us) = if u == k then suc (occurrences k us) else occurrences k us

module _ (k : String) (l : Ledger) (f : Account → Account) where
  at_user_self :
      (u : String) {a : Account}
      → u ≡ k
      → l k ≡ some a
      → (l u ≡ some a) × (at_user k f l u ≡ some (f a))
  at_user_self u same h = rw same (h, grind arith)

  at_user_ne : (u : String) → u ≢ k → at_user k f l u ≡ l u
  at_user_ne u apart = grind arith

occurrences_self :
    (k u : String) (us : List String) → u ≡ k → occurrences k (u ∷ us) ≡ suc (occurrences k us)
occurrences_self k u us same = grind arith

occurrences_ne :
    (k u : String) (us : List String) → u ≢ k → occurrences k (u ∷ us) ≡ occurrences k us
occurrences_ne k u us apart = grind arith

-- A change of one account is counted once for each time that the list names its user.
total-gain :
    (us : List String) (k : String) (x : ℤ) (l : Ledger) (a : Account)
    → l k ≡ some a
    → total us (at_user k (gain x) l) ≡ total us l +ℤ times (occurrences k us) x
total-gain [] k x l a h = rw times_zero (omega int_laws)
total-gain (u ∷ us) k x l a h = elim (String-discrete u k) [
  | yes same ↦
      let (before, after) = at_user_self k l (gain x) u same h in
      rw (after, before, occurrences_self k u us same, times-suc)
        (omega
          (int_laws, ap pos_part (total-gain us k x l a h), ap neg_part (total-gain us k x l a h)))
  | no apart ↦
      rw (at_user_ne k l (gain x) u apart, occurrences_ne k u us apart)
        (omega
          (int_laws, ap pos_part (total-gain us k x l a h), ap neg_part (total-gain us k x l a h)))
]

total-unreserve :
    (us : List String) (k : String) (x : ℤ) (l : Ledger) (a : Account)
    → l k ≡ some a
    → total us (at_user k (unreserve x) l) +ℤ times (occurrences k us) x ≡ total us l
total-unreserve [] k x l a h = rw times_zero (omega int_laws)
total-unreserve (u ∷ us) k x l a h = elim (String-discrete u k) [
  | yes same ↦
      let (before, after) = at_user_self k l (unreserve x) u same h in
      rw (after, before, occurrences_self k u us same, times-suc)
        (omega (
          int_laws,
          ap pos_part (total-unreserve us k x l a h),
          ap neg_part (total-unreserve us k x l a h),
        ))
  | no apart ↦
      rw (at_user_ne k l (unreserve x) u apart, occurrences_ne k u us apart)
        (omega (
          int_laws,
          ap pos_part (total-unreserve us k x l a h),
          ap neg_part (total-unreserve us k x l a h),
        ))
]

at_user-some :
    (k j : String) (f : Account → Account) (l : Ledger) {a : Account}
    → l j ≡ some a
    → (b : Account) × (at_user k f l j ≡ some b)
at_user-some k j f l {a} h = elim (String-discrete j k) [
  | yes same ↦ (f a, grind arith)
  | no apart ↦ (a, rw (at_user_ne k l f j apart) h)
]

-- The accounts of a move are there, and the list names their users equally often.
abbrev pub IsCovered : Move → List String → Ledger → Type 0
IsCovered Move.stay us l = ⊤
IsCovered (Move.pay client freelancer x) us l =
    ((a : Account) × (l client ≡ some a))
    × ((b : Account) × (l freelancer ≡ some b))
    × (occurrences client us ≡ occurrences freelancer us)
IsCovered (Move.give_back client x) us l = ⊤

held-back :
    (x : ℤ) (o : Option Account) → held (map_account (λ a. unreserve x (gain x a)) o) ≡ held o
held-back x none = refl
held-back x (some a) = omega int_laws

back-total :
    (us : List String) (k : String) (x : ℤ) (l : Ledger)
    → total us (at_user k (λ a. unreserve x (gain x a)) l) ≡ total us l
back-total [] k x l = refl
back-total (u ∷ us) k x l = elim (Bool-cases (u == k)) [
  | inl same ↦ rw (same, held-back x (l u), back-total us k x l) refl
  | inr apart ↦ rw (apart, back-total us k x l) refl
]

cancel_step : (t u v n : ℤ) → u ≡ t +ℤ n → v +ℤ n ≡ u → v ≡ t
cancel_step t u v n p q =
    omega (int_laws, ap pos_part p, ap neg_part p, ap pos_part q, ap neg_part q)

move-total :
    (us : List String) (m : Move) (l : Ledger) → IsCovered m us l → total us (move m l) ≡ total us l
move-total us Move.stay l h = refl
move-total us (Move.pay client freelancer x) l ((a, there), (b, here), same) =
    let paid = at_user freelancer (gain x) l in
    let (a', still) = at_user-some freelancer client (gain x) l there in
    let lost = total-unreserve us client x paid a' still in
    cancel_step (total us l) (total us paid) _ (times (occurrences freelancer us) x)
      (total-gain us freelancer x l b here) (rw same at lost)
move-total us (Move.give_back client x) l h = back-total us client x l

module _ (us : List String) (e : Escrow) (l : Ledger) {a b : Account} where
  move_of-IsCovered :
      (s : Settlement)
      → l e.client_id ≡ some a
      → l e.freelancer_id ≡ some b
      → occurrences e.client_id us ≡ occurrences e.freelancer_id us
      → IsCovered (move_of e s) us l
  move_of-IsCovered (Settlement.release _ _) p q h = ((a, p), (b, q), h)
  move_of-IsCovered (Settlement.refund _ _ _) p q h = tt
  move_of-IsCovered (Settlement.expiry _ _) p q h = tt
  move_of-IsCovered (Settlement.approval _ _ true true _) p q h = ((a, p), (b, q), h)
  move_of-IsCovered (Settlement.approval _ _ true false _) p q h = tt
  move_of-IsCovered (Settlement.approval _ _ false _ _) p q h = tt

outcome-IsCovered :
    (r : Result ⊤) (m : Move) (us : List String) (l : Ledger)
    → IsCovered m us l
    → IsCovered (outcome r m) us l
outcome-IsCovered (ok _) m us l h = h
outcome-IsCovered (throws _) m us l h = tt

module _ (c : Client) (laws : IsLawful c) where
  -- No settlement of an escrow between users with balances creates or loses money, however it ends:
  -- over any list of users that names the client and the freelancer equally often, all that these
  -- users can spend and have reserved adds up to the same before and after.
  pub settle_conserves :
      (e : Escrow) (id : String) (s : Settlement) (us : List String) (w : World c) {bc bf : Balance}
      → balance_of w e.client_id ≡ some bc
      → balance_of w e.freelancer_id ≡ some bf
      → occurrences e.client_id us ≡ occurrences e.freelancer_id us
      → total us (ledger_of (settle c e id s w).1) ≡ total us (ledger_of w)
  settle_conserves e id s us w p q h =
      let r = (settle c e id s w).0 in
      let l = ledger_of w in
      ap (total us) (fun_ext λ user. settle_refines c laws e id s user w)
      ∙ move-total us (outcome r (move_of e s)) l (
          outcome-IsCovered r (move_of e s) us l
            (move_of-IsCovered us e l s (ap account? p) (ap account? q) h))
