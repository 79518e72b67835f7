-- ===== src/Contract/Admin.antt =====
-- The entry points of the administrator, and the views, of lib.rs.
use nexus_hub_contract.Prelude.{
  ℕ, Bool, false, Option, none, some, ⊤, ltb, leb, ◌/◌, ◌&&◌, is_some, if◌then◌else◌,
}
use nexus_hub_contract.Prelude.Int.{ℤ, pos_part, neg_part, sub_ℕ, times}
use nexus_hub_contract.Contract.Bytes.{Bytes}
use nexus_hub_contract.Contract.Types.{Address, EscrowError, EscrowRecord, Event}
use nexus_hub_contract.Contract.Host.{
  Env, Tokens, Action, ◌>>=◌, ◌>>◌, get, fail_if, checked, require_auth, emit,
}
use nexus_hub_contract.Contract.Storage
use nexus_hub_contract.Contract.Storage.{set_admin, set_fee_bps, load_escrow, is_paused}

abbrev pub max_fee_bps : ℕ
max_fee_bps = 1000

-- Is the number an i128?
abbrev pub is_i128 : ℤ → Bool
is_i128 a =
    ltb (pos_part a) (0x80000000000000000000000000000000)
    && leb (neg_part a) (0x80000000000000000000000000000000)

-- Division of an i128 by 10,000, towards zero.
abbrev pub div_10000 : ℤ → ℤ
div_10000 a = sub_ℕ (pos_part a / 10000) (neg_part a / 10000)

-- `none` where the product overflows.
abbrev pub compute_fee : ℤ → ℕ → Option ℤ
compute_fee amount fee_bps =
    let product = times fee_bps amount in if is_i128 product then some (div_10000 product) else none

module _ {t : Tokens} (env : Env) where
  unfoldable pub initialize : Address → ℕ → Action t ⊤
  initialize admin fee_bps = do
    stored ← get λ s. s.admin
    fail_if (is_some stored) EscrowError.already_exists
    fail_if (ltb max_fee_bps fee_bps) EscrowError.fee_too_high
    require_auth env admin
    set_admin admin
    set_fee_bps fee_bps
    Storage.set_paused false

  unfoldable pub set_fee : ℕ → Action t ⊤
  set_fee new_fee_bps = do
    admin ← Storage.get_admin
    require_auth env admin
    fail_if (ltb max_fee_bps new_fee_bps) EscrowError.fee_too_high
    set_fee_bps new_fee_bps

  unfoldable pub set_paused : Bool → Action t ⊤
  set_paused paused = do
    admin ← Storage.get_admin
    require_auth env admin
    Storage.set_paused paused

  unfoldable pub transfer_admin : Address → Action t ⊤
  transfer_admin new_admin = do
    old_admin ← Storage.get_admin
    require_auth env old_admin
    set_admin new_admin
    emit (Event.admin_transferred old_admin new_admin)

module _ {t : Tokens} where
  -- The views. A record is copied out of storage; an access extends its time to live.
  abbrev pub get_escrow : Bytes → Action t EscrowRecord
  get_escrow escrow_id = load_escrow escrow_id

  abbrev pub get_admin : Action t Address
  get_admin = Storage.get_admin

  abbrev pub get_fee_bps : Action t ℕ
  get_fee_bps = Storage.get_fee_bps

  abbrev pub get_paused : Action t Bool
  get_paused = is_paused

  abbrev pub fee_of : ℤ → Action t ℤ
  fee_of amount = do bps ← get_fee_bps; checked (compute_fee amount bps)
