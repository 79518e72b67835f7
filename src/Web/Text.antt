-- ===== src/Web/Text.antt =====
-- The string helpers of apps/web/src/lib/utils.ts. A text is the list of its UTF-16 code units.
use nexus_hub_contract.Prelude.{
  ℕ, zero, suc, ◌+◌, ◌-◌, ◌≤◌, ◌≡◌, refl, ap, inl, inr, Option, none, some, List, [], ◌∷◌, ◌++◌,
  length, take, drop, length-append, leb, if◌then◌else◌, arith, Bool-cases,
}

abbrev pub Text : Type 0
Text = List ℕ

-- `…`, U+2026, and the space.
abbrev pub ellipsis : Text
ellipsis = 8230 ∷ []

abbrev pub space : ℕ
space = 32

-- `s.slice(-n)`
abbrev pub slice_last : ℕ → Text → Text
slice_last n s = drop (length s - n) s

unfoldable pub truncate_hash : Text → ℕ → Text
truncate_hash [] chars = []
truncate_hash (u ∷ us) chars = take chars (u ∷ us) ++ ellipsis ++ slice_last 4 (u ∷ us)

unfoldable pub truncate : Text → ℕ → Text
truncate s max_len = if leb (length s) max_len then s else take max_len s ++ ellipsis

-- The two fields of a user; a missing last name is empty.
unfoldable pub full_name : Option (Text × Text) → (unknown : Text) → Text
full_name none unknown = unknown
full_name (some (first_name, [])) unknown = first_name
full_name (some (first_name, u ∷ us)) unknown = first_name ++ space ∷ u ∷ us

length-take : (n : ℕ) (s : Text) → length (take n s) ≤ n
length-take zero s = omega arith
length-take (suc n) [] = omega arith
length-take (suc n) (u ∷ us) = omega (arith, length-take n us)

length-drop : (n : ℕ) (s : Text) → length (drop n s) ≡ length s - n
length-drop zero s = omega arith
length-drop (suc n) [] = omega arith
length-drop (suc n) (u ∷ us) = omega (arith, length-drop n us)

take-take-append : (n : ℕ) (s t : Text) → n ≤ length s → take n (take n s ++ t) ≡ take n s
take-take-append zero s t h = refl
take-take-append (suc n) [] t h = absurd (omega arith)
take-take-append (suc n) (u ∷ us) t h =
    ap (λ (v : Text). u ∷ v) (take-take-append n us t (omega arith))

shortened-length : (s : Text) (n : ℕ) → length (take n s ++ ellipsis ++ slice_last 4 s) ≤ n + 5
shortened-length s n = omega (
  arith,
  length-append (take n s ++ ellipsis) (slice_last 4 s),
  length-append (take n s) ellipsis,
  length-take n s,
  length-drop (length s - 4) s,
)

truncate_hash-length : (s : Text) (n : ℕ) → length (truncate_hash s n) ≤ n + 5
unfolding truncate_hash
truncate_hash-length [] n = omega arith
truncate_hash-length (u ∷ us) n = shortened-length (u ∷ us) n

-- A truncated text is at most one unit longer than the bound and starts like the text as far as the
-- bound goes; a shortened hash is at most five units longer than the bound.
pub truncate_bounds :
    (s : Text) (n : ℕ)
    → (length (truncate s n) ≤ n + 1)
      × (take n (truncate s n) ≡ take n s)
      × (length (truncate_hash s n) ≤ n + 5)
unfolding truncate
truncate_bounds s n = elim (Bool-cases (leb (length s) n)) [
  | inl short ↦ (rw short (ground arith), rw short refl, truncate_hash-length s n)
  | inr long ↦ (
    rw long (omega (arith, length-append (take n s) ellipsis, length-take n s)),
    rw long (take-take-append n s ellipsis (ground arith)),
    truncate_hash-length s n,
  )
]
