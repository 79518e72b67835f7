-- ===== src/Contract/Bytes.antt =====
-- Byte strings, and a map keyed by them.
use nexus_hub_contract.Prelude.{
  ℕ, ◌≡◌, ◌≢◌, refl, Bool, true, false, ◌&&◌, Option, none, some, List, [], ◌∷◌, arith, nat_eq, ite,
  if◌then◌else◌,
}
use mathlib.Core.Bool.{Bool-discrete}
use mathlib.Core.Logic.{dite}

abbrev pub Bytes : Type 0
Bytes = List ℕ

abbrev pub bytes_eq : Bytes → Bytes → Bool
bytes_eq [] [] = true
bytes_eq [] (y ∷ ys) = false
bytes_eq (x ∷ xs) [] = false
bytes_eq (x ∷ xs) (y ∷ ys) = nat_eq x y && bytes_eq xs ys

pub eq_of_bytes_eq : (a b : Bytes) → bytes_eq a b ≡ true → a ≡ b
eq_of_bytes_eq [] [] h = refl
eq_of_bytes_eq [] (y ∷ ys) h = cc
eq_of_bytes_eq (x ∷ xs) [] h = cc
eq_of_bytes_eq (x ∷ xs) (y ∷ ys) h = ground (arith, eq_of_bytes_eq xs ys)

bytes_eq_refl : (a : Bytes) → bytes_eq a a ≡ true
bytes_eq_refl [] = refl
bytes_eq_refl (x ∷ xs) = ground (arith, bytes_eq_refl xs)

pub ne_of_bytes_eq : (a b : Bytes) → bytes_eq a b ≢ true → a ≢ b
ne_of_bytes_eq a b h p = h (rw p (bytes_eq_refl b))

unfoldable pub Bytes-discrete : Discrete Bytes
Bytes-discrete a b =
    dite (Bool-discrete (bytes_eq a b) true) (λ same. yes (eq_of_bytes_eq a b same))
      (λ differ. no (ne_of_bytes_eq a b differ))

abbrev pub same_bytes : Bytes → Bytes → Bool
same_bytes a b = ite (Bytes-discrete a b) true false

module _ {ℓ} {V : Type ℓ} where
  abbrev pub lookup : Bytes → List (Bytes × V) → Option V
  lookup k [] = none
  lookup k ((j, v) ∷ m) = if same_bytes j k then some v else lookup k m

  abbrev pub insert : Bytes → V → List (Bytes × V) → List (Bytes × V)
  insert k v [] = (k, v) ∷ []
  insert k v ((j, w) ∷ m) = if same_bytes j k then (k, v) ∷ m else (j, w) ∷ insert k v m

  pub lookup-insert_self :
      (k : Bytes) (v : V) (m : List (Bytes × V)) → lookup k (insert k v m) ≡ some v
  lookup-insert_self k v [] = ground arith
  lookup-insert_self k v (e ∷ m) = ground (arith, lookup-insert_self k v m)

  pub lookup-insert_ne :
      (j k : Bytes) (v : V) (m : List (Bytes × V)) → j ≢ k → lookup j (insert k v m) ≡ lookup j m
  lookup-insert_ne j k v [] h = ground arith
  lookup-insert_ne j k v (e ∷ m) h = ground (arith, lookup-insert_ne j k v m h)

  pub insert_twice :
      (k : Bytes) (v w : V) (m : List (Bytes × V)) → insert k w (insert k v m) ≡ insert k w m
  insert_twice k v w [] = ground arith
  insert_twice k v w (e ∷ m) = ground (arith, insert_twice k v w m)
