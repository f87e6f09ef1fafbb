-- ===== src/Handshake/Rounds.antt =====
-- src/SecretHandshake.cc: how far a handshake is from its end.
use secret_handshake_capnp.Common.{
  ℕ, ◌<◌, ◌≡◌, ◌≢◌, ap, ◌∙◌, subst, Bytes, true, false, some, [], ◌∷◌, Outcome, ok, fault, is_empty,
  length, ◌==◌, Bool-cases, inl, inr, arith,
}
use secret_handshake_capnp.Crypto.{Crypto, IsCrypto}
use secret_handshake_capnp.Handshake
use secret_handshake_capnp.Handshake.{
  Role, Step, failed, client_challenge, server_challenge, client_auth, server_ack, finished, next,
  is_over, is_failed, bytes_wanted,
}
use secret_handshake_capnp.Handshake.Invariant.{IsValid, sends, bytes_to_send-IsValid}
use secret_handshake_capnp.Handshake.Turns.{Prepared, Fine, Sending, Ended, bytes_to_send-Fine}
use secret_handshake_capnp.Handshake.Stages.{Stage}
use secret_handshake_capnp.Handshake.Final.{Final}
use secret_handshake_capnp.Shs.{Session}
use secret_handshake_capnp.Handshake.Messages.{bytes_to_send-nonempty}

-- The messages of a handshake that are left, and one more.
abbrev pub rounds : Step → ℕ
rounds failed = 1
rounds client_challenge = 5
rounds server_challenge = 4
rounds client_auth = 3
rounds server_ack = 2
rounds finished = 1

pub next-rounds : (a b : Step) → next a ≡ some b → rounds b < rounds a
next-rounds a b h = ground arith

pub wanted-rounds : (r : Role) (s : Step) → bytes_wanted r s ≢ 0 → 1 < rounds s
wanted-rounds Handshake.client s h = ground arith
wanted-rounds (Handshake.server a) s h = ground arith

pub only_failed :
    (s : Step) → (Handshake.step_number s == 5) ≡ false → is_over s ≡ true → s ≡ failed
only_failed s h k = ground arith

pub empty_length : (xs : Bytes) → is_empty xs ≡ true → length xs ≡ 0
empty_length xs h = ground arith

pub some_length : (xs : Bytes) → is_empty xs ≡ false → length xs ≢ 0
some_length [] h = λ k. cc
some_length (x ∷ xs) h = λ k. omega arith

pub some_round : (s : Step) → 0 < rounds s
some_round s = ground arith

pub Fine-both :
    {A : Type 0} (r : Outcome A × Handshake.Handshake) (P Q : A → Handshake.Handshake → Type 0)
    → Fine r P
    → Fine r Q
    → Fine r (λ x h. P x h × Q x h)
Fine-both (ok x, h) P Q f g = (f, g)
Fine-both (fault e, h) P Q f g = f

-- A valid handshake afterwards, of which more follows.
pub Fine-so :
    {A : Type 0} (P Q : A → Handshake.Handshake → Type 0) (r : Outcome A × Handshake.Handshake)
    → Fine r P
    → IsValid r.1
    → ((x : A) (h : Handshake.Handshake) → P x h → IsValid h → Q x h)
    → Fine r Q
Fine-so P Q (ok x, h) f v so = so x h f v
Fine-so P Q (fault e, h) f v so = f

module _ (c : Crypto) (k p x peer : Bytes) (who : Role) where
  abbrev pub Ready : Handshake.Handshake → Type 0
  Ready h = IsValid h × Prepared c k p x peer who h

  -- The session of a handshake that finished.
  pub Ended-Final :
      (h h' : Handshake.Handshake) (session : Session)
      → Ready h
      → h.step ≡ finished
      → Ended c k p x peer who h session h'
      → Final c k p x peer who session
  Ended-Final h h' session (v, g) last (same, named) = record {
    impl = h.impl;
    sent = is_empty h.output_buffer;
    stage =
        subst (λ r. Stage c peer r finished (is_empty h.output_buffer) h.impl) g.owner.0
          (subst (λ t. Stage c peer h.role t (is_empty h.output_buffer) h.impl) last g.stage);
    owns = g.owner.1;
    named = named;
  }

module _ {c : Crypto} (laws : IsCrypto c) (k p x peer : Bytes) (who : Role) where
  -- What `bytesToSend` hands out.
  abbrev pub Offer : Handshake.Handshake → Bytes → Handshake.Handshake → Type 0
  Offer h bytes h' =
      Sending c k p x peer who h bytes h'
      × (is_over h.step ≡ false → sends h.role h.step ≡ true → is_empty bytes ≡ false)

  pub bytes_to_send-Offer :
      (h : Handshake.Handshake)
      → Ready c k p x peer who h
      → Fine (Handshake.bytes_to_send c h) (λ bytes h'. Offer h bytes h' × IsValid h')
  bytes_to_send-Offer h (v, g) =
      let made = bytes_to_send-Fine c k p x peer who h g in
      let valid = bytes_to_send-IsValid c h v in
      elim (Bool-cases (is_over h.step)) [
        | inl over ↦
            Fine-so (Sending c k p x peer who h) _ (Handshake.bytes_to_send c h) made valid
              (λ bytes h' s v'. ((s, λ running. cc), v'))
        | inr running ↦ elim (Bool-cases (sends h.role h.step)) [
          | inr waiting ↦
              Fine-so (Sending c k p x peer who h) _ (Handshake.bytes_to_send c h) made valid
                (λ bytes h' s v'. ((s, λ _ sending. cc), v'))
          | inl sending ↦
              Fine-so (λ bytes h'. Sending c k p x peer who h bytes h' × (is_empty bytes ≡ false)) _
                (Handshake.bytes_to_send c h)
                (Fine-both (Handshake.bytes_to_send c h) (Sending c k p x peer who h) _ made
                  (bytes_to_send-nonempty laws k p x peer who h g running sending))
                valid (λ bytes h' (s, some_made) v'. ((s, λ _ _. some_made), v'))
        ]
      ]

  pub running_still :
      (h h' : Handshake.Handshake) (bytes : Bytes)
      → Offer h bytes h'
      → is_empty bytes ≡ false
      → (is_over h.step ≡ false) × (is_empty h'.output_buffer ≡ false)
  running_still h h' bytes ((g, same, none_made, buffered), some_made) something =
      elim (Bool-cases (is_over h.step)) [
        | inl over ↦ let nothing : is_empty bytes ≡ true = ap is_empty (none_made over) in cc
        | inr running ↦ (running, ap is_empty (buffered running) ∙ something)
      ]

  pub not_failed : (s : Step) → is_over s ≡ false → is_failed s ≡ false
  not_failed s h = ground arith
