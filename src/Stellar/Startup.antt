-- ===== src/Stellar/Startup.antt =====
-- `onModuleInit`: the settings of the service, from the environment.
use nexus_hub_contract.Prelude.{
  ℕ, String, ◌≡◌, refl, subst, Option, none, some, List, or_default, arith,
}
use nexus_hub_contract.Prisma.Action.{Result, ok, throws, Exception}
use nexus_hub_contract.Stellar.Sdk.{Sdk}
use nexus_hub_contract.Stellar.Invoke.{Config, ◌>>=◌}
use nexus_hub_contract.Stellar.Invoke.Laws.{returned-first}
use nexus_hub_contract.Stellar.Cipher.{Crypto, decrypt_secret}

-- `missing` is the exception of ConfigService for a name without a value.
module _ (sdk : Sdk) (missing : (name : String) → Exception) where
  -- What onModuleInit leaves in the service.
  pub record Started : Type 0 where
    pub config : Config sdk
    pub network_passphrase : String
    pub rpc_url : String
    pub encryption_key : List ℕ

  -- `config.getOrThrow`
  abbrev pub get_or_throw : (String → Option String) → String → Result String
  get_or_throw env name = elim (env name) [ none ↦ throws (missing name) | some value ↦ ok value ]

  -- The fields, of which two have defaults.
  abbrev pub started :
      (env : String → Option String) (admin_keypair : sdk.Key)
      (contract_id token_contract_id hex_key : String)
      → Started
  started env admin_keypair contract_id token_contract_id hex_key = record {
    config = record {
      admin_keypair = admin_keypair;
      contract_id = contract_id;
      token_contract_id = token_contract_id;
    };
    network_passphrase =
        or_default (env "STELLAR_NETWORK_PASSPHRASE") "Test SDF Network ; September 2015";
    rpc_url = or_default (env "STELLAR_RPC_URL") "https://soroban-testnet.stellar.org";
    encryption_key = sdk.from_hex hex_key;
  }

  unfoldable pub on_module_init : (env : String → Option String) → Result Started
  on_module_init env = do
    admin_secret ← get_or_throw env "STELLAR_ADMIN_SECRET"
    admin_keypair ← sdk.from_secret admin_secret
    contract_id ← get_or_throw env "STELLAR_CONTRACT_ID"
    token_contract_id ← get_or_throw env "STELLAR_TOKEN_CONTRACT_ID"
    hex_key ← get_or_throw env "STELLAR_ENCRYPTION_KEY"
    ok (started env admin_keypair contract_id token_contract_id hex_key)

  -- `keypairFromEncrypted`
  unfoldable pub keypair_from_encrypted : Crypto → String → Result sdk.Key
  keypair_from_encrypted crypto ciphertext = decrypt_secret crypto ciphertext >>= sdk.from_secret

  abbrev IsGiven : (String → Option String) → String → Type 0
  IsGiven env name = (value : String) × (env name ≡ some value)

  -- The four settings without a default are there, and the secret is that of a key.
  abbrev IsConfigured : (String → Option String) → sdk.Key → Type 0
  IsConfigured env key =
      (secret : String) × (env "STELLAR_ADMIN_SECRET" ≡ some secret)
      × (sdk.from_secret secret ≡ ok key)
      × IsGiven env "STELLAR_CONTRACT_ID"
      × IsGiven env "STELLAR_TOKEN_CONTRACT_ID"
      × IsGiven env "STELLAR_ENCRYPTION_KEY"

  given :
      (env : String → Option String) (name value : String)
      → get_or_throw env name ≡ ok value
      → env name ≡ some value
  given env name value h = ground arith

  -- The service starts with a key exactly if it is configured with that key.
  starts :
      (env : String → Option String) (key : sdk.Key)
      → IsConfigured env key
      → (v : Started) × (on_module_init env ≡ ok v) × (v.config.admin_keypair ≡ key)
  unfolding on_module_init
  starts env key (secret, has_secret, valid, (c, has_c), (t, has_t), (e, has_e)) =
      (started env key c t e, ground arith, refl)

  started-IsConfigured :
      (env : String → Option String) (v : Started)
      → on_module_init env ≡ ok v
      → IsConfigured env v.config.admin_keypair
  unfolding on_module_init
  started-IsConfigured env v done =
      let (secret, has_secret, done1) =
        returned-first (get_or_throw env "STELLAR_ADMIN_SECRET") _ done in
      let (key, valid, done2) = returned-first (sdk.from_secret secret) _ done1 in
      let (c, has_c, done3) = returned-first (get_or_throw env "STELLAR_CONTRACT_ID") _ done2 in
      let (t, has_t, done4) =
        returned-first (get_or_throw env "STELLAR_TOKEN_CONTRACT_ID") _ done3 in
      let (e, has_e, done5) = returned-first (get_or_throw env "STELLAR_ENCRYPTION_KEY") _ done4 in
      let same : started env key c t e ≡ v = ground arith in
      subst (λ (x : Started). IsConfigured env x.config.admin_keypair) same
        (
          secret,
          given env _ secret has_secret,
          valid,
          (c, given env _ c has_c),
          (t, given env _ t has_t),
          (e, given env _ e has_e),
        )

  -- The service starts with a key exactly if the four settings without a default are there, and the
  -- secret is that of the key.
  pub on_module_init_lem :
      (env : String → Option String) (key : sdk.Key)
      → (IsConfigured env key
          → (v : Started) × (on_module_init env ≡ ok v) × (v.config.admin_keypair ≡ key))
        × ((v : Started)
            → on_module_init env ≡ ok v
            → v.config.admin_keypair ≡ key
            → IsConfigured env key)
  on_module_init_lem env key =
      (starts env key, λ v done own. subst (IsConfigured env) own (started-IsConfigured env v done))
