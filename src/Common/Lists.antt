-- ===== src/Common/Lists.antt =====
-- Byte strings: lists measured, cut and resized by native numbers.
use Prim.Native.Nat.{ℕ, zero, suc, ◌+◌, ◌-◌, ◌%◌, ◌^◌, ◌≤◌, min}
use mathlib.Core.Path.{◌≡◌, refl, ap, sym, ◌∙◌}
use mathlib.Core.Option.{Option, none, some}
use mathlib.Core.Bool.{Bool, true, false, ◌&&◌}
use mathlib.Core.List.{List, [], ◌∷◌, ◌++◌, append-nil}
use native.Mathlib.Omega.{arith}
use secret_handshake_capnp.Common.Tests.{◌==◌}

-- A byte string; an element stands for a `uint8_t`.
abbrev pub Bytes : Type 0
Bytes = List ℕ

module _ {ℓ} {A : Type ℓ} where
  abbrev pub length : List A → ℕ
  length [] = 0
  length (x ∷ xs) = suc (length xs)

  abbrev pub is_empty : List A → Bool
  is_empty [] = true
  is_empty (x ∷ xs) = false

  abbrev pub take : ℕ → List A → List A
  take zero xs = []
  take (suc n) [] = []
  take (suc n) (x ∷ xs) = x ∷ take n xs

  abbrev pub drop : ℕ → List A → List A
  drop zero xs = xs
  drop (suc n) [] = []
  drop (suc n) (x ∷ xs) = drop n xs

  abbrev pub replicate : ℕ → A → List A
  replicate zero a = []
  replicate (suc n) a = a ∷ replicate n a

  abbrev pub get_or : List A → ℕ → A → A
  get_or [] i d = d
  get_or (x ∷ xs) zero d = x
  get_or (x ∷ xs) (suc i) d = get_or xs i d

  pub length-append : (xs ys : List A) → length (xs ++ ys) ≡ length xs + length ys
  length-append [] ys = omega arith
  length-append (x ∷ xs) ys = omega (arith, length-append xs ys)

  pub take-append-drop : (n : ℕ) (xs : List A) → take n xs ++ drop n xs ≡ xs
  take-append-drop zero xs = refl
  take-append-drop (suc n) [] = refl
  take-append-drop (suc n) (x ∷ xs) = ap (◌∷◌ x) (take-append-drop n xs)

  pub length-take : (n : ℕ) (xs : List A) → length (take n xs) ≡ min n (length xs)
  length-take zero xs = omega arith
  length-take (suc n) [] = omega arith
  length-take (suc n) (x ∷ xs) = omega (arith, length-take n xs)

  pub length-drop : (n : ℕ) (xs : List A) → length (drop n xs) ≡ length xs - n
  length-drop zero xs = omega arith
  length-drop (suc n) [] = omega arith
  length-drop (suc n) (x ∷ xs) = omega (arith, length-drop n xs)

  pub length-replicate : (n : ℕ) (a : A) → length (replicate n a) ≡ n
  length-replicate zero a = refl
  length-replicate (suc n) a = ap suc (length-replicate n a)

  pub take_all : (n : ℕ) (xs : List A) → length xs ≤ n → take n xs ≡ xs
  take_all zero [] h = refl
  take_all zero (x ∷ xs) h = elim h [ ]
  take_all (suc n) [] h = refl
  take_all (suc n) (x ∷ xs) h = ap (◌∷◌ x) (take_all n xs (omega arith))

  pub drop_all : (n : ℕ) (xs : List A) → length xs ≤ n → drop n xs ≡ []
  drop_all zero [] h = refl
  drop_all zero (x ∷ xs) h = elim h [ ]
  drop_all (suc n) [] h = refl
  drop_all (suc n) (x ∷ xs) h = drop_all n xs (omega arith)

  -- A cut inside the first of two joined lists, and at their seam.
  pub take-append_le : (n : ℕ) (xs ys : List A) → n ≤ length xs → take n (xs ++ ys) ≡ take n xs
  take-append_le zero xs ys h = refl
  take-append_le (suc n) [] ys h = elim h [ ]
  take-append_le (suc n) (x ∷ xs) ys h = ap (◌∷◌ x) (take-append_le n xs ys (omega arith))

  pub drop-append_le :
      (n : ℕ) (xs ys : List A) → n ≤ length xs → drop n (xs ++ ys) ≡ drop n xs ++ ys
  drop-append_le zero xs ys h = refl
  drop-append_le (suc n) [] ys h = elim h [ ]
  drop-append_le (suc n) (x ∷ xs) ys h = drop-append_le n xs ys (omega arith)

  pub take-append : (n : ℕ) (xs ys : List A) → length xs ≡ n → take n (xs ++ ys) ≡ xs
  take-append zero [] ys h = refl
  take-append zero (x ∷ xs) ys h = absurd (omega arith)
  take-append (suc n) [] ys h = absurd (omega arith)
  take-append (suc n) (x ∷ xs) ys h = ap (◌∷◌ x) (take-append n xs ys (omega arith))

  pub drop-append : (n : ℕ) (xs ys : List A) → length xs ≡ n → drop n (xs ++ ys) ≡ ys
  drop-append zero [] ys h = refl
  drop-append zero (x ∷ xs) ys h = absurd (omega arith)
  drop-append (suc n) [] ys h = absurd (omega arith)
  drop-append (suc n) (x ∷ xs) ys h = drop-append n xs ys (omega arith)

  pub drop-drop : (m n : ℕ) (xs : List A) → drop m (drop n xs) ≡ drop (n + m) xs
  drop-drop m zero xs = ap (λ k. drop k xs) (omega arith)
  drop-drop m (suc n) [] = drop_all m [] (omega arith) ∙ sym (drop_all (suc n + m) [] (omega arith))
  drop-drop m (suc n) (x ∷ xs) =
      let e : suc n + m ≡ suc (n + m) = omega arith in rw e (drop-drop m n xs)

module _ {ℓ} {A : Type ℓ} where
  -- A cut beyond the first of two joined lists.
  pub take-append_ge : (n : ℕ) (xs ys : List A) → take (length xs + n) (xs ++ ys) ≡ xs ++ take n ys
  take-append_ge n [] ys = ap (λ k. take k ys) (omega arith)
  take-append_ge n (x ∷ xs) ys =
      let e : suc (length xs) + n ≡ suc (length xs + n) = omega arith in
      rw e (ap (◌∷◌ x) (take-append_ge n xs ys))

  pub drop-append_ge : (n : ℕ) (xs ys : List A) → drop (length xs + n) (xs ++ ys) ≡ drop n ys
  drop-append_ge n [] ys = ap (λ k. drop k ys) (omega arith)
  drop-append_ge n (x ∷ xs) ys =
      let e : suc (length xs) + n ≡ suc (length xs + n) = omega arith in
      rw e (drop-append_ge n xs ys)

module _ {ℓ} {A : Type ℓ} where
  pub take-add : (m n : ℕ) (xs : List A) → take (m + n) xs ≡ take m xs ++ take n (drop m xs)
  take-add zero n xs = ap (λ k. take k xs) (omega arith)
  take-add (suc m) n [] = take_all (suc m + n) [] (omega arith) ∙ sym (take_all n [] (omega arith))
  take-add (suc m) n (x ∷ xs) =
      let e : suc m + n ≡ suc (m + n) = omega arith in rw e (ap (◌∷◌ x) (take-add m n xs))

-- `std::vector<uint8_t>::resize`: new elements are zero.
abbrev pub resize : ℕ → Bytes → Bytes
resize n xs = take n xs ++ replicate (n - length xs) 0

pub resize_same : (n : ℕ) (xs : Bytes) → length xs ≡ n → resize n xs ≡ xs
resize_same n xs h =
    let e : n - length xs ≡ 0 = omega arith in rw (e, take_all n xs (omega arith)) (append-nil xs)

-- `byte_array::range<from, count>`
abbrev pub range : ℕ → ℕ → Bytes → Bytes
range from count xs = take count (drop from xs)

pub length-resize : (n : ℕ) (xs : Bytes) → length (resize n xs) ≡ n
length-resize n xs = omega (
  arith,
  length-append (take n xs) (replicate (n - length xs) 0),
  length-take n xs,
  length-replicate {A = ℕ} (n - length xs) 0,
)

-- `size_t` subtraction wraps.
abbrev pub sub_size : ℕ → ℕ → ℕ
sub_size a b = (2 ^ 64 + a - b) % 2 ^ 64

unfoldable pub bytes_eq : Bytes → Bytes → Bool
bytes_eq [] [] = true
bytes_eq [] (y ∷ ys) = false
bytes_eq (x ∷ xs) [] = false
bytes_eq (x ∷ xs) (y ∷ ys) = (x == y) && bytes_eq xs ys

pub bytes_eq_refl : (xs : Bytes) → bytes_eq xs xs ≡ true
unfolding bytes_eq
bytes_eq_refl [] = refl
bytes_eq_refl (x ∷ xs) = ground (arith, bytes_eq_refl xs)

pub bytes_eq→eq : (xs ys : Bytes) → bytes_eq xs ys ≡ true → xs ≡ ys
unfolding bytes_eq
bytes_eq→eq [] [] h = refl
bytes_eq→eq [] (y ∷ ys) h = cc
bytes_eq→eq (x ∷ xs) [] h = cc
bytes_eq→eq (x ∷ xs) (y ∷ ys) h = ground (arith, bytes_eq→eq xs ys)

-- The library's names, over the native numbers.
abbrev pub get_elem? {ℓ} : {A : Type ℓ} → List A → ℕ → Option A
get_elem? [] n = none
get_elem? (x ∷ xs) zero = some x
get_elem? (x ∷ xs) (suc n) = get_elem? xs n

abbrev pub erase_idx {ℓ} : {A : Type ℓ} → List A → ℕ → List A
erase_idx [] n = []
erase_idx (x ∷ xs) zero = xs
erase_idx (x ∷ xs) (suc n) = x ∷ erase_idx xs n

abbrev pub set {ℓ} : {A : Type ℓ} → List A → ℕ → A → List A
set [] n a = []
set (x ∷ xs) zero a = a ∷ xs
set (x ∷ xs) (suc n) a = x ∷ set xs n a

pub get_elem?-set {ℓ} :
    {A : Type ℓ} (xs : List A) (n : ℕ) (a b : A)
    → get_elem? xs n ≡ some b
    → get_elem? (set xs n a) n ≡ some a
get_elem?-set [] n a b h = cc
get_elem?-set (x ∷ xs) zero a b h = refl
get_elem?-set (x ∷ xs) (suc n) a b h = get_elem?-set xs n a b h

pub set-get_elem? {ℓ} :
    {A : Type ℓ} (xs : List A) (n : ℕ) (a : A) → get_elem? xs n ≡ some a → set xs n a ≡ xs
set-get_elem? [] n a h = refl
set-get_elem? (x ∷ xs) zero a h = let same : x ≡ a = cc in ap (λ y. y ∷ xs) (sym same)
set-get_elem? (x ∷ xs) (suc n) a h = ap (◌∷◌ x) (set-get_elem? xs n a h)

pub set-set {ℓ} : {A : Type ℓ} (xs : List A) (n : ℕ) (a b : A) → set (set xs n a) n b ≡ set xs n b
set-set [] n a b = refl
set-set (x ∷ xs) zero a b = refl
set-set (x ∷ xs) (suc n) a b = ap (◌∷◌ x) (set-set xs n a b)

pub get_elem?-set_other {ℓ} :
    {A : Type ℓ} (xs : List A) (n m : ℕ) (a : A)
    → (n == m) ≡ false
    → get_elem? (set xs n a) m ≡ get_elem? xs m
get_elem?-set_other [] n m a h = refl
get_elem?-set_other (x ∷ xs) zero zero a h = absurd (ground arith)
get_elem?-set_other (x ∷ xs) zero (suc m) a h = refl
get_elem?-set_other (x ∷ xs) (suc n) zero a h = refl
get_elem?-set_other (x ∷ xs) (suc n) (suc m) a h = get_elem?-set_other xs n m a (ground arith)

pub length-set {ℓ} : {A : Type ℓ} (xs : List A) (n : ℕ) (a : A) → length (set xs n a) ≡ length xs
length-set [] n a = refl
length-set (x ∷ xs) zero a = refl
length-set (x ∷ xs) (suc n) a = ap suc (length-set xs n a)

-- A list with one more at its end.
pub length-snoc {ℓ} : {A : Type ℓ} (xs : List A) (a : A) → length (xs ++ a ∷ []) ≡ suc (length xs)
length-snoc [] a = refl
length-snoc (x ∷ xs) a = ap suc (length-snoc xs a)

pub get_elem?-snoc {ℓ} :
    {A : Type ℓ} (xs : List A) (a : A) → get_elem? (xs ++ a ∷ []) (length xs) ≡ some a
get_elem?-snoc [] a = refl
get_elem?-snoc (x ∷ xs) a = get_elem?-snoc xs a

pub get_elem?-snoc_other {ℓ} :
    {A : Type ℓ} (xs : List A) (a : A) (p : ℕ)
    → (length xs == p) ≡ false
    → get_elem? (xs ++ a ∷ []) p ≡ get_elem? xs p
get_elem?-snoc_other [] a zero other = absurd (ground arith)
get_elem?-snoc_other [] a (suc p) other = refl
get_elem?-snoc_other (x ∷ xs) a zero other = refl
get_elem?-snoc_other (x ∷ xs) a (suc p) other = get_elem?-snoc_other xs a p (ground arith)
