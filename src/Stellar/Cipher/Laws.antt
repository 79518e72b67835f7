-- ===== src/Stellar/Cipher/Laws.antt =====
-- The two halves of the cipher, together.
use nexus_hub_contract.Prelude.{
  ℕ, zero, suc, ◌+◌, ◌≡◌, refl, ap, ◌∙◌, String, List, [], ◌∷◌, ◌++◌, take, drop, length, arith,
}
use nexus_hub_contract.Prisma.Action.{ok}
use nexus_hub_contract.Stellar.Cipher.{Crypto, encrypt_secret, decrypt_secret}

take-append : (n : ℕ) (xs ys : List ℕ) → length xs ≡ n → take n (xs ++ ys) ≡ xs
take-append zero [] ys h = refl
take-append zero (x ∷ xs) ys h = ground arith
take-append (suc n) [] ys h = ground arith
take-append (suc n) (x ∷ xs) ys h = ap (λ zs. x ∷ zs) (take-append n xs ys (omega arith))

drop-append : (n : ℕ) (xs ys : List ℕ) → length xs ≡ n → drop n (xs ++ ys) ≡ ys
drop-append zero [] ys h = refl
drop-append zero (x ∷ xs) ys h = ground arith
drop-append (suc n) [] ys h = ground arith
drop-append (suc n) (x ∷ xs) ys h = drop-append n xs ys (omega arith)

drop-add : (m n : ℕ) (xs : List ℕ) → drop (m + n) xs ≡ drop n (drop m xs)
drop-add zero n xs = let start : 0 + n ≡ n = omega arith in rw start refl
drop-add (suc m) zero [] = let end : suc m + 0 ≡ suc m = omega arith in rw end refl
drop-add (suc m) (suc n) [] =
    let step : suc m + suc n ≡ suc (m + suc n) = omega arith in rw step refl
drop-add (suc m) n (x ∷ xs) =
    let step : suc m + n ≡ suc (m + n) = omega arith in rw step (drop-add m n xs)

-- A secret is decrypted from what it was encrypted to, with an iv of 12 bytes, where the tag has 16
-- bytes, base64 loses no byte, and the cipher undoes itself under that iv and that tag.
pub decrypt_secret-encrypt_secret :
    (crypto : Crypto) (iv : List ℕ) (secret : String)
    → length iv ≡ 12
    → length (crypto.auth_tag iv secret) ≡ 16
    → ((bytes : List ℕ) → crypto.from_base64 (crypto.to_base64 bytes) ≡ bytes)
    → crypto.decrypt iv (crypto.auth_tag iv secret) (crypto.encrypt iv secret) ≡ ok secret
    → decrypt_secret crypto (encrypt_secret crypto iv secret) ≡ ok secret
unfolding encrypt_secret decrypt_secret
decrypt_secret-encrypt_secret crypto iv secret twelve sixteen base64 undo =
    let tag = crypto.auth_tag iv secret in
    let rest = crypto.encrypt iv secret in
    let first = take-append 12 iv (tag ++ rest) twelve in
    let after = drop-append 12 iv (tag ++ rest) twelve in
    let second = take-append 16 tag rest sixteen in
    let third = drop-append 16 tag rest sixteen in
    let twice = drop-add 12 16 (iv ++ (tag ++ rest)) in
    let buf = base64 (iv ++ (tag ++ rest)) in
    let end : drop 28 (iv ++ (tag ++ rest)) ≡ rest = twice ∙ ap (drop 16) after ∙ third in
    let middle : take 16 (drop 12 (iv ++ (tag ++ rest))) ≡ tag = ap (take 16) after ∙ second in
    rw (encrypt_secret, decrypt_secret, buf, first, middle, end) undo
