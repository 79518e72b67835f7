-- ===== src/Contract/Interface.antt =====
-- The parameters of the entry points of lib.rs, against what the worker's StellarService sends.
pub mod Release
pub mod Requests
use nexus_hub_contract.Prelude.{
  String, ◌≡◌, Bool, true, false, ◌&&◌, ◌==◌, Option, none, some, List, [], ◌∷◌, if◌then◌else◌,
}
use nexus_hub_contract.Stellar.Sdk.{Sdk, Arg, simulation_error}
use nexus_hub_contract.Stellar.Invoke.{Config}

-- The types of the parameters.
pub data Parameter : Type 0 where
  bytes option_bytes address i128 string u32 bool : Parameter

abbrev fits : Parameter → Arg → Bool
fits Parameter.bytes (Arg.bytes b) = true
fits Parameter.option_bytes (Arg.bytes b) = true
fits Parameter.address (Arg.address a) = true
fits Parameter.i128 (Arg.i128 n) = true
fits Parameter.string (Arg.text s) = true
fits Parameter.u32 (Arg.u32 n) = true
fits _ _ = false

abbrev accepts : List Parameter → List Arg → Bool
accepts [] [] = true
accepts [] (a ∷ as') = false
accepts (p ∷ ps) [] = false
accepts (p ∷ ps) (a ∷ as') = fits p a && accepts ps as'

-- The signatures, without `env`.
abbrev pub signatures : List (String × List Parameter)
signatures =
    ("initialize", Parameter.address ∷ Parameter.u32 ∷ [])
    ∷ ("set_fee", Parameter.u32 ∷ [])
    ∷ ("set_paused", Parameter.bool ∷ [])
    ∷ ("transfer_admin", Parameter.address ∷ [])
    ∷ (
      "init_escrow",
      Parameter.bytes ∷ Parameter.address ∷ Parameter.address ∷ Parameter.address ∷ Parameter.i128
          ∷ Parameter.bytes ∷ Parameter.string ∷ Parameter.u32 ∷ Parameter.u32 ∷ Parameter.u32 ∷ [],
    )
    ∷ ("fund", Parameter.bytes ∷ [])
    ∷ ("activate", Parameter.bytes ∷ [])
    ∷ ("release", Parameter.bytes ∷ Parameter.option_bytes ∷ [])
    ∷ ("refund", Parameter.bytes ∷ [])
    ∷ ("cancel", Parameter.bytes ∷ Parameter.address ∷ [])
    ∷ ("raise_dispute", Parameter.bytes ∷ Parameter.address ∷ [])
    ∷ ("resolve_dispute", Parameter.bytes ∷ Parameter.bool ∷ [])
    ∷ ("complete_milestone", Parameter.bytes ∷ [])
    ∷ ("claim_expired", Parameter.bytes ∷ [])
    ∷ ("approve_release", Parameter.bytes ∷ Parameter.address ∷ [])
    ∷ ("get_escrow", Parameter.bytes ∷ [])
    ∷ ("get_admin", [])
    ∷ ("get_fee_bps", [])
    ∷ ("get_paused", [])
    ∷ ("compute_fee", Parameter.i128 ∷ [])
    ∷ []

abbrev accepted_by : String → List Arg → List (String × List Parameter) → Bool
accepted_by method args [] = false
accepted_by method args ((name, parameters) ∷ rest) =
    if name == method then accepts parameters args else accepted_by method args rest

-- Do the arguments fit the entry point of that name?
unfoldable pub is_callable : String → List Arg → Bool
is_callable method args = accepted_by method args signatures

-- The network runs this contract: a call whose arguments do not fit ends in an error.
pub record Runs (sdk : Sdk) (config : Config sdk) : Type 0 where
  pub unfit-fails :
      (method : String) (args : List Arg)
      → is_callable method args ≡ false
      → (e : String) × (sdk.simulate config.contract_id method args ≡ simulation_error e)
