-- ===== src/Handshake/Receive.antt =====
-- src/SecretHandshake.cc, `receivedBytes`: a message may arrive in pieces of any size.
use secret_handshake_capnp.Common.{
  ℕ, ◌+◌, ◌-◌, ◌≤◌, ◌<◌, min, ◌≡◌, refl, sym, ap, ◌∙◌, subst, Bytes, Bool, false, List, [], ◌∷◌,
  Option, some, ◌++◌, append_assoc, append-nil, length, take, take_all, length-append, length-take,
  take-append_ge, Outcome, ok, fault, and_then, arith,
}
use native.Mathlib.Decide.{dec_lt}
use secret_handshake_capnp.Crypto.{Crypto}
use secret_handshake_capnp.Handshake
use secret_handshake_capnp.Handshake.{
  Step, Role, byte_count_needed, bytes_wanted, is_over, accepted_count, client, server,
}

-- The handshake waits for more bytes of a message.
pub record IsReceiving (h : Handshake.Handshake) : Type 0 where
  pub running : is_over h.step ≡ false
  pub waiting : length h.input_buffer < byte_count_needed h

pub bytes_wanted-le : (r : Role) (s : Step) → bytes_wanted r s ≤ 112
bytes_wanted-le client s = ground arith
bytes_wanted-le (server a) s = ground arith

-- How many bytes are still wanted.
abbrev pub missing : Handshake.Handshake → ℕ
missing h = byte_count_needed h - length h.input_buffer

accepted_count_lem :
    (src : Bytes) (h : Handshake.Handshake)
    → IsReceiving h
    → accepted_count src h ≡ min (length src) (missing h)
accepted_count_lem src h r = omega (arith, bytes_wanted-le h.role h.step, r.waiting)

abbrev extend : Bytes → Handshake.Handshake → Handshake.Handshake
extend src h = record h { input_buffer = h.input_buffer ++ src }

abbrev with_input : Handshake.Handshake → Bytes → Handshake.Handshake
with_input h i = record h { input_buffer = i }

and_then-count :
    (r : Outcome Bool × Handshake.Handshake) (n : ℕ)
    → (and_then r (λ _. Handshake.count_or_error n)).1 ≡ r.1
and_then-count (ok b, h) n = refl
and_then-count (fault e, h) n = refl

joined_input :
    (xs ys : Bytes) (h : Handshake.Handshake)
    → length xs < missing h
    → (h.input_buffer ++ xs) ++ take (missing (extend xs h)) ys
      ≡ h.input_buffer ++ take (missing h) (xs ++ ys)
joined_input xs ys h short =
    let e : missing h ≡ length xs + missing (extend xs h) =
      omega (arith, length-append h.input_buffer xs) in
    append_assoc h.input_buffer xs (take (missing (extend xs h)) ys)
    ∙ ap (◌++◌ h.input_buffer)
        (sym (take-append_ge (missing (extend xs h)) xs ys) ∙ ap (λ n. take n (xs ++ ys)) (sym e))

abbrev pub AllNonempty : List Bytes → Type 0
AllNonempty [] = Unit {0}
AllNonempty (x ∷ xs) = (0 < length x) × AllNonempty xs

abbrev pub flatten : List Bytes → Bytes
flatten [] = []
flatten (x ∷ xs) = x ++ flatten xs

-- Each piece is handed over as it arrives.
unfoldable pub feed : Crypto → List Bytes → Handshake.Handshake → Handshake.Handshake
feed c [] h = h
feed c (x ∷ xs) h = feed c xs (Handshake.received_bytes c x h).1

module _ (c : Crypto) where
  -- A piece that does not complete the message is buffered, whole.
  pub received_short :
      (src : Bytes) (h : Handshake.Handshake)
      → IsReceiving h
      → length src < missing h
      → Handshake.received_bytes c src h ≡ (ok (some (length src)), extend src h)
  unfolding Handshake.received_bytes
  received_short src h r short =
      let count : accepted_count src h ≡ length src = omega (arith, accepted_count_lem src h r) in
      rw (count, take_all (length src) src (omega arith))
        (ground (arith, length-append h.input_buffer src))

  extend-IsReceiving :
      (src : Bytes) (h : Handshake.Handshake)
      → IsReceiving h
      → length src < missing h
      → IsReceiving (extend src h)
  extend-IsReceiving src h r short = record {
    running = r.running;
    waiting = omega (arith, length-append h.input_buffer src, r.waiting);
  }

  -- A piece that reaches the end of the message, or goes beyond it, completes it.
  pub received_rest :
      (src : Bytes) (h : Handshake.Handshake)
      → IsReceiving h
      → missing h ≤ length src
      → Handshake.received_bytes c src h
        ≡ and_then
            (Handshake.read_completed c (extend (take (missing h) src) h))
            (λ _. Handshake.count_or_error (missing h))
  unfolding Handshake.received_bytes
  received_rest src h r long =
      let count : accepted_count src h ≡ missing h =
        omega (arith, accepted_count_lem src h r, r.waiting) in
      rw count (
        ground
          (arith, length-append h.input_buffer (take (missing h) src), length-take (missing h) src))

  -- Where the peer's bytes are cut makes no difference to the handshake.
  pub received_bytes-append :
      (xs ys : Bytes) (h : Handshake.Handshake)
      → IsReceiving h
      → length xs < missing h
      → (Handshake.received_bytes c ys (Handshake.received_bytes c xs h).1).1
        ≡ (Handshake.received_bytes c (xs ++ ys) h).1
  received_bytes-append xs ys h r short = elim (dec_lt (length (xs ++ ys)) (missing h)) [
    | yes both ↦
        rw
          (
            received_short xs h r short,
            received_short ys (extend xs h) r'
                (omega (arith, length-append xs ys, length-append h.input_buffer xs)),
            received_short (xs ++ ys) h r both,
          )
          (ap (with_input h) (append_assoc h.input_buffer xs ys))
    | no long ↦
        rw
          (
            received_short xs h r short,
            received_rest ys (extend xs h) r'
                (omega (arith, length-append xs ys, length-append h.input_buffer xs)),
            received_rest (xs ++ ys) h r (omega arith),
            and_then-count _ (missing (extend xs h)),
            and_then-count _ (missing h),
          )
          (ap (λ i. (Handshake.read_completed c (with_input h i)).1) (joined_input xs ys h short))
  ]
    where
      r' : IsReceiving (extend xs h)
      r' = extend-IsReceiving xs h r short

  -- A message that arrives in pieces, none of them empty, leaves the handshake as it does in one.
  pub received_pieces :
      (pieces : List Bytes) (h : Handshake.Handshake)
      → IsReceiving h
      → AllNonempty pieces
      → length (flatten pieces) ≤ missing h
      → feed c pieces h ≡ (Handshake.received_bytes c (flatten pieces) h).1
  unfolding feed
  received_pieces [] h r full fits =
      rw (received_short [] h r (omega (arith, r.waiting)), append-nil)
  received_pieces (x ∷ []) h r full fits = rw append-nil
  received_pieces (x ∷ y ∷ rest) h r full fits =
      let tail = y ++ flatten rest in
      let short : length x < missing h =
        omega (arith, length-append x tail, length-append y (flatten rest)) in
      let h' = (Handshake.received_bytes c x h).1 in
      let e : h' ≡ extend x h =
        ap (λ (p : Outcome (Option ℕ) × Handshake.Handshake). p.1) (received_short x h r short) in
      let r' : IsReceiving h' = subst IsReceiving (sym e) (extend-IsReceiving x h r short) in
      let fits' : length tail ≤ missing h' =
        rw e (omega (arith, length-append x tail, length-append h.input_buffer x)) in
      received_pieces (y ∷ rest) h' r' full.1 fits' ∙ received_bytes-append x tail h r short
