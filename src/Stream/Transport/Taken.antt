-- ===== src/Stream/Transport/Taken.antt =====
-- src/SecretStream.cc, `DecryptionStream`: what several reads of its decrypted bytes come to.
use secret_handshake_capnp.Common.{
  ℕ, ◌+◌, ◌≤◌, ◌<◌, ◌≡◌, ap, ◌∙◌, ◌⊎◌, inl, inr, Bytes, List, [], ◌∷◌, ◌++◌, length, append_assoc,
  length-append, arith,
}

-- No fewer bytes than this many reads give that are given their least number.
abbrev pub least_total : ℕ → List ℕ → ℕ
least_total least [] = 0
least_total least (most ∷ sizes) = least + least_total least sizes

abbrev pub AllAtLeast : ℕ → List ℕ → Type 0
AllAtLeast least [] = Unit {0}
AllAtLeast least (most ∷ sizes) = (least ≤ most) × AllAtLeast least sizes

-- What reads return of a text: a beginning of it, and as much as they asked for, unless less than the
-- least of one read is left.
pub record ReadOf (least : ℕ) (sizes : List ℕ) (text bytes : Bytes) : Type 0 where
  pub later : Bytes
  pub parts : bytes ++ later ≡ text
  pub enough : (least_total least sizes ≤ length bytes) ⊎ (length later < least)

-- A first read, and the reads after it.
pub both_reads :
    (least : ℕ) (first more text later : Bytes) (most : ℕ) (sizes : List ℕ)
    → first ++ later ≡ text
    → (least ≤ length first) ⊎ (length later < least)
    → ReadOf least sizes later more
    → ReadOf least (most ∷ sizes) text (first ++ more)
both_reads least first more text later most sizes e fine r = record {
  later = r.later;
  parts = append_assoc first more r.later ∙ ap (◌++◌ first) r.parts ∙ e;
  enough = elim fine [
    | inr few ↦ inr (omega (arith, ap length r.parts, length-append more r.later))
    | inl got ↦ elim r.enough [
      | inl more_got ↦ inl (omega (arith, length-append first more))
      | inr few ↦ inr few
    ]
  ];
}
