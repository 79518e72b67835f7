-- ===== src/Contract/Storage.antt =====
-- storage.rs. The times to live that it extends are not modelled: no entry is archived.
use nexus_hub_contract.Prelude.{ℕ, Bool, false, some, ⊤, or_default, is_some}
use nexus_hub_contract.Contract.Bytes.{Bytes, lookup, insert}
use nexus_hub_contract.Contract.Types.{Address, EscrowError, EscrowRecord}
use nexus_hub_contract.Contract.Host.{Tokens, Action, ◌>>=◌, get, modify, ok_or}

module _ {t : Tokens} where
  abbrev pub set_admin : Address → Action t ⊤
  set_admin admin = modify λ s. record s { admin = some admin }

  abbrev pub get_admin : Action t Address
  get_admin = do stored ← get λ s. s.admin; ok_or stored EscrowError.unauthorized

  abbrev pub set_fee_bps : ℕ → Action t ⊤
  set_fee_bps bps = modify λ s. record s { fee_bps = some bps }

  -- The default is 1%.
  abbrev pub get_fee_bps : Action t ℕ
  get_fee_bps = get λ s. or_default s.fee_bps 100

  abbrev pub set_paused : Bool → Action t ⊤
  set_paused paused = modify λ s. record s { paused = some paused }

  abbrev pub is_paused : Action t Bool
  is_paused = get λ s. or_default s.paused false

  abbrev pub save_escrow : EscrowRecord → Action t ⊤
  save_escrow r = modify λ s. record s { escrows = insert r.escrow_id r s.escrows }

  abbrev pub load_escrow : Bytes → Action t EscrowRecord
  load_escrow id = do
    stored ← get λ s. lookup id s.escrows
    ok_or stored EscrowError.escrow_not_found

  abbrev pub escrow_exists : Bytes → Action t Bool
  escrow_exists id = get λ s. is_some (lookup id s.escrows)
