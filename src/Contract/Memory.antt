-- ===== src/Contract/Memory.antt =====
-- Token contracts in memory, which meet the laws that the theorems ask of a ledger.
use nexus_hub_contract.Prelude.{
  ⊤, ◌≡◌, refl, sym, ap, Bool, true, not, ◌&&◌, none, some, arith, if◌then◌else◌,
}
use nexus_hub_contract.Prelude.Int.{ℤ, pos, ◌+ℤ◌, ◌-ℤ◌, ◌≤ℤ◌, ltb_ℤ}
use nexus_hub_contract.Contract.Types.{Address}
use nexus_hub_contract.Contract.Host.{Tokens, IsLedger, IsPaying, share}

abbrev Balances : Type 0
Balances = (token holder : Address) → ℤ

abbrev moved : (token from to : Address) → ℤ → Balances → Balances
moved token from to amount l token' holder =
    l token' holder -ℤ share token' holder token from amount +ℤ share token' holder token to amount

-- A transfer of no more than the sender has.
abbrev covers : ℤ → ℤ → Bool
covers balance amount = not (ltb_ℤ balance amount) && not (ltb_ℤ amount (pos 0))

abbrev pub ledgers : Tokens
ledgers = record {
  Ledger = Balances;
  balance = λ l token holder. l token holder;
  transfer = λ env token from to amount l.
      if covers (l token from) amount then some (moved token from to amount l) else none;
}

taken : (b : Bool) (l l' : Balances) → (if b then some l else none) ≡ some l' → l ≡ l'
taken b l l' h = ground arith

pub ledgers-IsLedger : IsLedger ledgers
ledgers-IsLedger = record {
  transfer-moves = λ env token from to amount l {l'} token' holder done. sym (
      ap (λ (k : Balances). k token' holder)
        (taken (covers (l token from) amount) (moved token from to amount l) l' done));
}

covers_lem :
    (balance amount : ℤ) → pos 0 ≤ℤ amount → amount ≤ℤ balance → covers balance amount ≡ true
covers_lem balance amount h k = ground arith

pub ledgers-IsPaying : IsPaying ledgers
ledgers-IsPaying = record {
  Takes = λ l token holder amount. ⊤;
  transfer-pays = λ env token to amount l takes h k.
      let here = env.current_contract_address in
      (
        moved token here to amount l,
        let passes = covers_lem (l token here) amount h k in rw passes refl,
      );
}

pub ledgers-Takes :
    (l : Balances) (token holder : Address) (amount : ℤ)
    → ledgers-IsPaying.Takes l token holder amount
unfolding ledgers-IsPaying
ledgers-Takes l token holder amount = tt
