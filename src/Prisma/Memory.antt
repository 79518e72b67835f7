-- ===== src/Prisma/Memory.antt =====
-- A client in memory that meets the assumptions: a table is a list of keyed rows, the newest first.
-- Of two rows under one key the first counts.
use nexus_hub_contract.Prelude.{
  ℕ, zero, suc, Bool-cases, String, ◌≡◌, ◌≢◌, refl, inl, inr, Bool, true, false, Option, none, some,
  List, [], ◌∷◌, arith, ◌==◌, contains, All, String-discrete, if◌then◌else◌, ◌<>◌,
}
use mathlib.Core.List.{Memᴰ, Forall₂}
use nexus_hub_contract.Prisma.Client.{Client, Distinct, IsLawful}

unseen-drop :
    (j : String) (seen ks : List String)
    → All (λ k. contains (j ∷ seen) k ≡ false) ks
    → All (λ k. contains seen k ≡ false) ks × (contains ks j ≡ false)
unseen-drop j seen [] h = (tt, refl)
unseen-drop j seen (k ∷ ks) h =
    let (rest, apart) = unseen-drop j seen ks h.1 in ((ground arith, rest), ground arith)

module _ {V : Type 0} where
  abbrev lookup : String → List (String × V) → Option V
  lookup k [] = none
  lookup k ((j, v) ∷ t) = if k == j then some v else lookup k t

  abbrev change : String → (V → V) → List (String × V) → List (String × V)
  change k f [] = []
  change k f ((j, v) ∷ t) = (j, if k == j then f v else v) ∷ change k f t

  abbrev change_many : (V → Bool) → (V → V) → List (String × V) → List (String × V)
  change_many p f [] = []
  change_many p f ((j, v) ∷ t) = (j, if p v then f v else v) ∷ change_many p f t

  abbrev remove : String → List (String × V) → List (String × V)
  remove k [] = []
  remove k ((j, v) ∷ t) = let rest = remove k t in if k == j then rest else (j, v) ∷ rest

  -- The rows that pass the test, less those under a key that was seen before.
  abbrev live : (V → Bool) → List String → List (String × V) → List V
  live p seen [] = []
  live p seen ((j, v) ∷ t) =
      let rest = live p (j ∷ seen) t in
      if contains seen j then rest else if p v then v ∷ rest else rest

  abbrev first : List V → Option V
  first [] = none
  first (v ∷ vs) = some v

  abbrev size : List V → ℕ
  size [] = 0
  size (v ∷ vs) = suc (size vs)

  lookup-change_self :
      (k : String) (f : V → V) (v : V) (t : List (String × V))
      → lookup k t ≡ some v
      → lookup k (change k f t) ≡ some (f v)
  lookup-change_self k f v [] h = cc
  lookup-change_self k f v ((j, u) ∷ t) h = ground (arith, lookup-change_self k f v t)

  lookup-change_ne :
      (j k : String) (f : V → V) (t : List (String × V))
      → j ≢ k
      → lookup j (change k f t) ≡ lookup j t
  lookup-change_ne j k f [] h = refl
  lookup-change_ne j k f ((i, u) ∷ t) h = ground (arith, lookup-change_ne j k f t h)

  lookup-change_many :
      (k : String) (p : V → Bool) (f : V → V) (v : V) (t : List (String × V))
      → lookup k t ≡ some v
      → lookup k (change_many p f t) ≡ some (if p v then f v else v)
  lookup-change_many k p f v [] h = cc
  lookup-change_many k p f v ((j, u) ∷ t) h = ground (arith, lookup-change_many k p f v t)

  lookup-change_many-none :
      (k : String) (p : V → Bool) (f : V → V) (t : List (String × V))
      → lookup k t ≡ none
      → lookup k (change_many p f t) ≡ none
  lookup-change_many-none k p f [] h = refl
  lookup-change_many-none k p f ((j, u) ∷ t) h = ground (arith, lookup-change_many-none k p f t)

  lookup-remove_self : (k : String) (t : List (String × V)) → lookup k (remove k t) ≡ none
  lookup-remove_self k [] = refl
  lookup-remove_self k ((j, u) ∷ t) = ground (arith, lookup-remove_self k t)

  lookup-remove_ne :
      (j k : String) (t : List (String × V)) → j ≢ k → lookup j (remove k t) ≡ lookup j t
  lookup-remove_ne j k [] h = refl
  lookup-remove_ne j k ((i, u) ∷ t) h = ground (arith, lookup-remove_ne j k t h)

  lookup-create_self : (k : String) (v : V) (t : List (String × V)) → lookup k ((k, v) ∷ t) ≡ some v
  lookup-create_self k v t = ground arith

  lookup-create_ne :
      (j k : String) (v : V) (t : List (String × V)) → j ≢ k → lookup j ((k, v) ∷ t) ≡ lookup j t
  lookup-create_ne j k v t h = ground arith

  live-stored :
      (p : V → Bool) (v : V) (seen : List String) (t : List (String × V))
      → first (live p seen t) ≡ some v
      → (k : String) × (contains seen k ≡ false) × (lookup k t ≡ some v) × (p v ≡ true)
  live-stored p v seen [] h = cc
  live-stored p v seen ((j, u) ∷ t) h = elim (Bool-cases (contains seen j)) [
    | inl old ↦
        let (k, new, found, passed) = live-stored p v (j ∷ seen) t (ground arith) in
        (k, ground arith, ground arith, passed)
    | inr new ↦ elim (Bool-cases (p u)) [
      | inl passed ↦ (j, new, ground arith, ground arith)
      | inr failed ↦
          let (k, unseen, found, passed) = live-stored p v (j ∷ seen) t (ground arith) in
          (k, ground arith, ground arith, passed)
    ]
  ]

  live-none :
      (p : V → Bool) (k : String) (v : V) (seen : List String) (t : List (String × V))
      → live p seen t ≡ []
      → contains seen k ≡ false
      → lookup k t ≡ some v
      → p v ≡ false
  live-none p k v seen [] e h l = cc
  live-none p k v seen ((j, u) ∷ t) e h l = ground (arith, live-none p k v (j ∷ seen) t)

  live-All :
      (p : V → Bool) (seen : List String) (t : List (String × V))
      → All (λ v. p v ≡ true) (live p seen t)
  live-All p seen [] = tt
  live-All p seen ((j, u) ∷ t) = ground (arith, live-All p (j ∷ seen) t)

  mem-live :
      (p : V → Bool) (k : String) (v : V) (seen : List String) (t : List (String × V))
      → contains seen k ≡ false
      → lookup k t ≡ some v
      → p v ≡ true
      → Memᴰ v (live p seen t)
  mem-live p k v seen [] h l q = cc
  mem-live p k v seen ((j, u) ∷ t) h l q = elim (String-discrete k j) [
    | yes same ↦
        let new : contains seen j ≡ false = ground arith in
        let here : v ≡ u = ground arith in
        let passed : p u ≡ true = rw here at q in rw (new, passed) (Memᴰ.head here)
    | no other ↦
        let later : Memᴰ v (live p (j ∷ seen) t) =
          mem-live p k v (j ∷ seen) t (ground arith) (ground arith) q in
        elim (Bool-cases (contains seen j)) [
          | inl old ↦ rw old later
          | inr new ↦ elim (Bool-cases (p u)) [
            | inl passed ↦ rw (new, passed) (Memᴰ.tail later)
            | inr failed ↦ rw (new, failed) later
          ]
        ]
  ]

  first-none : (vs : List V) → first vs ≡ none → vs ≡ []
  first-none [] h = refl
  first-none (v ∷ vs) h = cc

  size-zero : (vs : List V) → size vs ≡ 0 → vs ≡ []
  size-zero [] h = refl
  size-zero (v ∷ vs) h = cc

  first_of_size : (vs : List V) → size vs ≢ 0 → (v : V) × (first vs ≡ some v)
  first_of_size [] h = absurd (h refl)
  first_of_size (v ∷ vs) h = (v, refl)

  live-size :
      (p : V → Bool) (t : List (String × V))
      → size (live p [] t) ≢ 0
      → (k : String) × (v : V) × (lookup k t ≡ some v) × (p v ≡ true)
  live-size p t h =
      let (v, e) = first_of_size (live p [] t) h in
      let (k, unseen, found, passed) = live-stored p v [] t e in (k, v, found, passed)

  -- The keys that were not seen are those of other rows.
  later-stored :
      (j : String) (u : V) (seen : List String) (t : List (String × V)) {ks : List String}
      {vs : List V}
      → All (λ k. contains (j ∷ seen) k ≡ false) ks
      → Forall₂ (λ k v. lookup k t ≡ some v) ks vs
      → Forall₂ (λ k v. lookup k ((j, u) ∷ t) ≡ some v) ks vs
  later-stored j u seen t h Forall₂.nil = Forall₂.nil
  later-stored j u seen t h (Forall₂.cons e es) =
      Forall₂.cons (ground arith) (later-stored j u seen t h.1 es)

  -- The rows are found under keys that were not seen, none of them twice.
  live-keys :
      (p : V → Bool) (seen : List String) (t : List (String × V))
      → (ks : List String) × All (λ k. contains seen k ≡ false) ks
        × Distinct ks
        × Forall₂ (λ k v. lookup k t ≡ some v) ks (live p seen t)
  live-keys p seen [] = ([], tt, tt, Forall₂.nil)
  live-keys p seen ((j, u) ∷ t) =
      let (ks, unseen, distinct, found) = live-keys p (j ∷ seen) t in
      let (rest, apart) = unseen-drop j seen ks unseen in
      let later = later-stored j u seen t unseen found in
      elim (Bool-cases (contains seen j)) [
        | inl old ↦ (ks, rest, distinct, rw old later)
        | inr new ↦ elim (Bool-cases (p u)) [
          | inl passed ↦ (
            j ∷ ks,
            (new, rest),
            (apart, distinct),
            rw (new, passed) (Forall₂.cons (ground arith) later),
          )
          | inr failed ↦ (ks, rest, distinct, rw (new, failed) later)
        ]
      ]

-- The ids are "", "u", "uu", and so on.
abbrev nth_id : ℕ → String
nth_id zero = ""
nth_id (suc n) = "u" <> nth_id n

abbrev pub memory : Client
memory = record {
  Table = λ V. List (String × V);
  find_unique = λ V k t. lookup k t;
  find_first = λ V p t. first (live p [] t);
  find_many = λ V p t. live p [] t;
  create = λ V k v t. (k, v) ∷ t;
  update = λ V k f t. change k f t;
  update_many = λ V p f t. change_many p f t;
  count = λ V p t. size (live p [] t);
  delete = λ V k t. remove k t;
  rollback = λ D before after. before;
  uuid = nth_id;
  secret = nth_id;
}

pub memory-IsLawful : IsLawful memory
memory-IsLawful = record {
  find-create_self = λ V k v t. lookup-create_self k v t;
  find-create_ne = λ V j k v t h. lookup-create_ne j k v t h;
  find-update_self = λ V k f v t h. lookup-change_self k f v t h;
  find-update_ne = λ V j k f t h. lookup-change_ne j k f t h;
  find-update_many = λ V k p f v t h. lookup-change_many k p f v t h;
  find-update_many_none = λ V k p f t h. lookup-change_many-none k p f t h;
  find-delete_self = λ V k t. lookup-remove_self k t;
  find-delete_ne = λ V j k t h. lookup-remove_ne j k t h;
  find_many-All = λ V p t. live-All p [] t;
  mem-find_many = λ V p k v t h q. mem-live p k v [] t refl h q;
  find_many-stored =
      λ V p t. let (ks, unseen, distinct, found) = live-keys p [] t in (ks, distinct, found);
  find_first-stored =
      λ V p v t h. let (k, unseen, found, passed) = live-stored p v [] t h in (k, found);
  find_first-passes =
      λ V p v t h. let (k, unseen, found, passed) = live-stored p v [] t h in passed;
  find_first-none = λ V p k v t h l. live-none p k v [] t (first-none _ h) refl l;
  count-zero = λ V p k v t h l. live-none p k v [] t (size-zero _ h) refl l;
  count-ne-zero = λ V p t h. live-size p t h;
  rollback_lem = λ D before after. refl;
}
