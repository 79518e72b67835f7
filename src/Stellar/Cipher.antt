-- ===== src/Stellar/Cipher.antt =====
-- encryptSecret and decryptSecret: AES-256-GCM of Node's `crypto`, whose functions and base64 are
-- parameters. A Buffer is a list of bytes.
pub mod Laws
use nexus_hub_contract.Prelude.{ℕ, String, List, ◌++◌, take, drop}
use nexus_hub_contract.Prisma.Action.{Result}

pub record Crypto : Type 0 where
  -- `cipher.update(secret, 'utf8')` with `cipher.final()`, and `getAuthTag()`, of an iv and a text.
  pub encrypt : List ℕ → String → List ℕ
  pub auth_tag : List ℕ → String → List ℕ
  -- `setAuthTag`, `update` and `final` of a decipher: of an iv, a tag and the bytes.
  pub decrypt : List ℕ → List ℕ → List ℕ → Result String
  pub to_base64 : List ℕ → String
  pub from_base64 : String → List ℕ

module _ (crypto : Crypto) where
  -- `iv` stands for `crypto.randomBytes(12)`.
  unfoldable pub encrypt_secret : List ℕ → String → String
  encrypt_secret iv secret =
      crypto.to_base64 (iv ++ (crypto.auth_tag iv secret ++ crypto.encrypt iv secret))

  -- `subarray` of the iv, of the tag and of the rest.
  unfoldable pub decrypt_secret : String → Result String
  decrypt_secret ciphertext =
      let buf = crypto.from_base64 ciphertext in
      crypto.decrypt (take 12 buf) (take 16 (drop 12 buf)) (drop 28 buf)
