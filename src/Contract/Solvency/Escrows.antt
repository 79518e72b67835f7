-- ===== src/Contract/Solvency/Escrows.antt =====
-- How a change of one record changes what is owed.
use nexus_hub_contract.Prelude.{◌≡◌, ap, none, some, [], ◌∷◌, All, arith, Bool-cases, inl, inr}
use nexus_hub_contract.Prelude.Int.{◌+ℤ◌, pos_part, neg_part, int_laws}
use nexus_hub_contract.Contract.Bytes.{Bytes, lookup, insert, same_bytes}
use nexus_hub_contract.Contract.Types.{Address, EscrowRecord}
use nexus_hub_contract.Contract.Solvency.{Escrows, due, owed, IsFiled}

pub lookup-IsFiled :
    (k : Bytes) (r : EscrowRecord) (es : Escrows)
    → All IsFiled es
    → lookup k es ≡ some r
    → IsFiled (k, r)
lookup-IsFiled k r [] h e = cc
lookup-IsFiled k r ((j, q) ∷ es) h e = ground (arith, lookup-IsFiled k r es h.1)

pub insert-IsFiled :
    (k : Bytes) (r : EscrowRecord) (es : Escrows)
    → All IsFiled es
    → IsFiled (k, r)
    → All IsFiled (insert k r es)
insert-IsFiled k r [] h e = (e, tt)
insert-IsFiled k r ((j, q) ∷ es) h e = ground (arith, insert-IsFiled k r es h.1 e)

pub owed-insert :
    (token : Address) (k : Bytes) (r r' : EscrowRecord) (es : Escrows)
    → lookup k es ≡ some r
    → owed token (insert k r' es) +ℤ due token r ≡ owed token es +ℤ due token r'
owed-insert token k r r' [] e = cc
owed-insert token k r r' ((j, q) ∷ es) e = elim (Bool-cases (same_bytes j k)) [
  | inl same ↦ let found : q ≡ r = ground arith in rw (same, found) (omega int_laws)
  | inr other ↦
      let rest = owed-insert token k r r' es (ground arith) in
      rw other (omega (int_laws, ap pos_part rest, ap neg_part rest))
]

pub owed-insert_new :
    (token : Address) (k : Bytes) (r : EscrowRecord) (es : Escrows)
    → lookup k es ≡ none
    → owed token (insert k r es) ≡ owed token es +ℤ due token r
owed-insert_new token k r [] e = omega int_laws
owed-insert_new token k r ((j, q) ∷ es) e = elim (Bool-cases (same_bytes j k)) [
  | inl same ↦ absurd (ground arith)
  | inr other ↦
      let rest = owed-insert_new token k r es (ground arith) in
      rw other (omega (int_laws, ap pos_part rest, ap neg_part rest))
]
