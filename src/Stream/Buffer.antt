-- ===== src/Stream/Buffer.antt =====
-- src/SecretStream.cc and include/SecretStream.hh, `CryptoStream`: processed bytes, followed by bytes
-- not yet processed.
use secret_handshake_capnp.Common.{
  ℕ, zero, suc, ◌-◌, ◌≤◌, ◌≡◌, refl, sym, ap, ◌∙◌, min, Bytes, [], ◌∷◌, ◌++◌, length, take_all,
  Bool-cases, inl, inr, take, drop, ltb, if◌then◌else◌, take-append-drop, drop-drop, length-take,
  length-drop, arith,
}
use native.Mathlib.Decide.{dec_le}
use secret_handshake_capnp.Stream.Box.{CryptoBox}

pub record CryptoStream : Type 0 where
  pub buffer : Bytes
  pub processed : ℕ
  pub box : CryptoBox

abbrev pub new_stream : CryptoBox → CryptoStream
new_stream b = record { buffer = []; processed = 0; box = b }

-- `availableData`: the pointer and the size that it returns give these bytes.
abbrev pub available : CryptoStream → Bytes
available s = take s.processed s.buffer

-- The bytes that are not yet processed.
abbrev pub pending : CryptoStream → Bytes
pending s = drop s.processed s.buffer

pub record IsStream (s : CryptoStream) : Type 0 where
  pub within : s.processed ≤ length s.buffer

unfoldable pub skip : ℕ → CryptoStream → ℕ × CryptoStream
skip max_size s =
    let n = min max_size s.processed in
    (n, if ltb 0 n then record s { buffer = drop n s.buffer; processed = s.processed - n } else s)

-- `pull`, with the bytes that it copies to the caller's buffer.
unfoldable pub pull : ℕ → CryptoStream → Bytes × CryptoStream
pull dst_size s =
    let n = min s.processed dst_size in (take n s.buffer, if ltb 0 n then (skip n s).1 else s)

drop-take : (n p : ℕ) (xs : Bytes) → n ≤ p → take (p - n) (drop n xs) ≡ drop n (take p xs)
drop-take zero p xs h = ap (λ k. take k xs) (omega arith)
drop-take (suc n) zero xs h = absurd (omega arith)
drop-take (suc n) (suc p) [] h = take_all (suc p - suc n) [] (omega arith)
drop-take (suc n) (suc p) (x ∷ xs) h =
    let e : suc p - suc n ≡ p - n = omega arith in rw e (drop-take n p xs (omega arith))

take-take : (k p : ℕ) (xs : Bytes) → k ≤ p → take k xs ≡ take k (take p xs)
take-take zero p xs h = refl
take-take (suc k) zero xs h = absurd (omega arith)
take-take (suc k) (suc p) [] h = refl
take-take (suc k) (suc p) (x ∷ xs) h = ap (◌∷◌ x) (take-take k p xs (omega arith))

taken :
    (n : ℕ) (s : CryptoStream)
    → IsStream s
    → take (min s.processed n) s.buffer ≡ take n (available s)
taken n s v = elim (dec_le n s.processed) [
  | yes fewer ↦ ap (λ k. take k s.buffer) (omega arith) ∙ take-take n s.processed s.buffer fewer
  | no all ↦
      ap (λ k. take k s.buffer) (omega arith)
      ∙ sym (take_all n (available s) (omega (arith, length-take s.processed s.buffer)))
]

abbrev pub cut : ℕ → CryptoStream → CryptoStream
cut k s = record s { buffer = drop k s.buffer; processed = s.processed - k }

pub skip_is : (n : ℕ) (s : CryptoStream) → skip n s ≡ (min n s.processed, cut (min n s.processed) s)
unfolding skip
skip_is n s = elim (Bool-cases (ltb 0 (min n s.processed))) [
  | inl some_left ↦ rw some_left
  | inr nothing ↦ let e : min n s.processed ≡ 0 = ground arith in rw e (ground arith)
]

pub pull_is :
    (n : ℕ) (s : CryptoStream)
    → pull n s ≡ (take (min s.processed n) s.buffer, cut (min s.processed n) s)
unfolding pull
pull_is n s =
    let e : min (min s.processed n) s.processed ≡ min s.processed n = omega arith in
    elim (Bool-cases (ltb 0 (min s.processed n))) [
      | inl some_left ↦ rw (some_left, skip_is, e)
      | inr nothing ↦ let z : min s.processed n ≡ 0 = ground arith in rw z (ground arith)
    ]

-- What `pull` hands out is the beginning of the processed bytes; it removes just those, and leaves the
-- bytes that are still to be processed, and the box, as they were.
pub pull_lem :
    (n : ℕ) (s : CryptoStream)
    → IsStream s
    → let (bytes, s') = pull n s in
      (bytes ++ available s' ≡ available s)
      × (bytes ≡ take n (available s))
      × (pending s' ≡ pending s)
      × (s'.box ≡ s.box)
      × IsStream s'
pull_lem n s v =
    let k : ℕ = min s.processed n in
    rw pull_is (
      ap (◌++◌ (take k s.buffer)) (drop-take k s.processed s.buffer (omega arith))
          ∙ ap (λ t. t ++ drop k (available s)) (take-take k s.processed s.buffer (omega arith))
          ∙ take-append-drop k (available s),
      taken n s v,
      drop-drop (s.processed - k) k s.buffer ∙ ap (λ j. drop j s.buffer) (omega arith),
      refl,
      record { within = omega (arith, length-drop k s.buffer, v.within) },
    )

-- What is skipped is what `pull` takes.
pub skip-pull : (n : ℕ) (w : CryptoStream) → (skip n w).1 ≡ (pull n w).1
skip-pull n w =
    let e : min n w.processed ≡ min w.processed n = omega arith in rw (skip_is, pull_is, e)
