-- ===== src/Handshake/Turns.antt =====
-- src/SecretHandshake.cc: a handshake whose methods are called in their turn: each returns, keeps what
-- its step can count on, and leads to the step that comes next.
use secret_handshake_capnp.Common.{
  ◌≡◌, refl, sym, ap, subst, Bytes, Bool, true, false, [], Option, none, some, Outcome, ok, fault,
  Exec, and_then, is_empty, length, ◌==◌, ==_iff, arith, Bool-cases, inl, inr,
}
use secret_handshake_capnp.Crypto.{Crypto}
use secret_handshake_capnp.Shs
use secret_handshake_capnp.Shs.{Session}
use secret_handshake_capnp.Shs.Frame.{Returns, get_outcome-Returns}
use secret_handshake_capnp.Handshake
use secret_handshake_capnp.Handshake.{
  Step, failed, finished, Role, client, server, next, is_failed, is_over, bytes_wanted,
  byte_count_needed, accepted_count,
}
use secret_handshake_capnp.Handshake.Invariant.{
  IsValid, sends, sends_nothing_wanted, process_unwanted,
}
use secret_handshake_capnp.Handshake.Stages.{
  Stage, Onward, Verdict, Owns, failed-Stage, process-Verdict,
}
use secret_handshake_capnp.Handshake.Stages.Sending.{produce-Stage, sent-Onward, finished-keyed}
use secret_handshake_capnp.Handshake.Stages.Owns.{process-Owns, produce-Owns}

-- What no call changes: the role, and what the object owns.
abbrev pub Keeps : Crypto → Bytes → Bytes → Bytes → Role → Role → Shs.Shs → Type 0
Keeps c k p x who r s = (r ≡ who) × Owns c k p x s

-- `k`, `p` and `x` are the own app ID, public key and ephemeral key, `peer` is the key that a client asks for.
pub record Prepared (c : Crypto) (k p x peer : Bytes) (who : Role) (h : Handshake.Handshake)
    : Type 0 where
  pub stage : Stage c peer h.role h.step (is_empty h.output_buffer) h.impl
  pub owner : Keeps c k p x who h.role h.impl

-- A call returned, with a result and a handshake of which this holds.
abbrev pub Fine :
    {A : Type 0} → Outcome A × Handshake.Handshake → (A → Handshake.Handshake → Type 0) → Type 0
Fine (ok a, h) P = P a h
Fine (fault e, h) P = ⊥

pub Fine-returns :
    {A : Type 0} (r : Outcome A × Handshake.Handshake) (P : A → Handshake.Handshake → Type 0)
    → Fine r P
    → (a : A) × (r ≡ (ok a, r.1)) × P a r.1
Fine-returns (ok a, h) P f = (a, refl, f)
Fine-returns (fault e, h) P f = absurd f

then-Fine :
    {A B : Type 0} (r : Outcome A × Handshake.Handshake) (f : A → Exec Handshake.Handshake B)
    (P : A → Handshake.Handshake → Type 0) (Q : B → Handshake.Handshake → Type 0)
    → Fine r P
    → ((a : A) (h : Handshake.Handshake) → P a h → Fine (f a h) Q)
    → Fine (and_then r f) Q
then-Fine (ok a, h) f P Q g go = go a h g
then-Fine (fault e, h) f P Q g go = absurd g

pub is_finished : (s : Step) → (Handshake.step_number s == 5) ≡ true → s ≡ finished
is_finished s h = ground arith

failed_wants : (r : Role) (s : Step) → is_failed s ≡ true → bytes_wanted r s ≡ 0
failed_wants client s h = ground arith
failed_wants (server a) s h = ground arith

module _ (c : Crypto) (k p x peer : Bytes) (who : Role) where
  pub failing-Prepared :
      (h : Handshake.Handshake)
      → Keeps c k p x who h.role h.impl
      → Prepared c k p x peer who (Handshake.fail h)
  unfolding Handshake.fail
  failing-Prepared h o = record {
    stage = failed-Stage c peer h.role (is_empty h.output_buffer) h.impl;
    owner = o;
  }

  -- The next step, with everything sent
  abbrev pub Moved : Handshake.Handshake → Handshake.Handshake → Type 0
  Moved h h' =
      Prepared c k p x peer who h'
      × (next h.step ≡ some h'.step)
      × (is_empty h'.output_buffer ≡ true)

  -- `nextStep`, where there is a next step
  next_step-Fine :
      (h : Handshake.Handshake) (to : Option Step)
      → next h.step ≡ to
      → is_empty h.output_buffer ≡ true
      → Keeps c k p x who h.role h.impl
      → Onward c peer h.role to h.impl
      → Fine (Handshake.next_step h) (λ a h'. Moved h h')
  unfolding Handshake.next_step
  next_step-Fine h none e none_left o g = absurd g
  next_step-Fine h (some s) e none_left o g =
      rw e (record { stage = rw none_left g; owner = o }, refl, none_left)

  -- A step that sends asks for no bytes.
  idle :
      (h : Handshake.Handshake)
      → IsValid h
      → is_empty h.output_buffer ≡ false
      → bytes_wanted h.role h.step ≡ 0
  idle h v some_left = elim (Bool-cases (is_failed h.step)) [
    | inl over ↦ failed_wants h.role h.step over
    | inr running ↦ sends_nothing_wanted h.role h.step (v.pending (ground arith) some_left)
  ]

  -- The verdict, which is no where nothing was asked for.
  judged :
      (h : Handshake.Handshake)
      → IsValid h
      → Prepared c k p x peer who h
      → Returns
          (Handshake.process c h.role h.step h.input_buffer h.impl)
          (Verdict c peer h.role h.step)
        × ((Handshake.process c h.role h.step h.input_buffer h.impl).0 ≡ ok true
            → is_empty h.output_buffer ≡ true)
  judged h v g = elim (Bool-cases (is_empty h.output_buffer)) [
    | inl none_left ↦ (
      process-Verdict c peer h.role h.step h.input_buffer h.impl
          (subst (λ e. Stage c peer h.role h.step e h.impl) none_left g.stage),
      λ _. none_left,
    )
    | inr some_left ↦
        let unwanted =
          process_unwanted c h.role h.step h.input_buffer h.impl (idle h v some_left) in
        (subst (λ r. Returns r (Verdict c peer h.role h.step)) (sym unwanted) tt, λ accepted. cc)
  ]

  failing-read :
      (h : Handshake.Handshake)
      → Keeps c k p x who h.role h.impl
      → Prepared c k p x peer who (Handshake.fail h) × ((Handshake.fail h).step ≡ failed)
  unfolding Handshake.fail
  failing-read h o = (failing-Prepared h o, refl)

  -- After `readCompleted`: accepted bytes lead to the next step, others to failure.
  abbrev pub Read : Handshake.Handshake → Bool → Handshake.Handshake → Type 0
  Read h true h' = Moved h h'
  Read h false h' = Prepared c k p x peer who h' × (h'.step ≡ failed)

  concluded-Fine :
      (h : Handshake.Handshake) (r : Outcome Bool × Shs.Shs)
      → Keeps c k p x who h.role r.1
      → (r.0 ≡ ok true → is_empty h.output_buffer ≡ true)
      → Returns r (Verdict c peer h.role h.step)
      → Fine (and_then (r.0, record h { impl = r.1 }) (Handshake.conclude c)) (Read h)
  unfolding Handshake.conclude
  concluded-Fine h (ok true, s) o none_left g =
      then-Fine (Handshake.next_step (record h { impl = s })) _ (λ a h'. Moved h h') (Read h)
        (next_step-Fine (record h { impl = s }) (next h.step) refl (none_left refl) o g)
        (λ a h' (v, on, e). (record { stage = v.stage; owner = v.owner }, on, e))
  concluded-Fine h (ok false, s) o none_left g = failing-read (record h { impl = s }) o
  concluded-Fine h (fault e, s) o none_left g = absurd g

  -- A full input buffer is read.
  pub read_completed-Fine :
      (h : Handshake.Handshake)
      → IsValid h
      → Prepared c k p x peer who h
      → length h.input_buffer ≡ byte_count_needed h
      → Fine (Handshake.read_completed c h) (Read h)
  unfolding Handshake.read_completed
  read_completed-Fine h v g full =
      let (verdict, none_left) = judged h v g in
      rw ((==_iff (length h.input_buffer) (byte_count_needed h)).1 full) (
        concluded-Fine h (Handshake.process c h.role h.step h.input_buffer h.impl)
          (g.owner.0, process-Owns c k p x h.role h.step h.input_buffer h.impl g.owner.1) none_left
          verdict)

  -- After `bytesToSend`: the handshake is where it was, and what it handed out is in its buffer, unless
  -- it is over.
  abbrev pub Sending : Handshake.Handshake → Bytes → Handshake.Handshake → Type 0
  Sending h bytes h' =
      Prepared c k p x peer who h'
      × (h'.step ≡ h.step)
      × (is_over h.step ≡ true → bytes ≡ [])
      × (is_over h.step ≡ false → h'.output_buffer ≡ bytes)

  made-Fine :
      (h : Handshake.Handshake) (r : Outcome Bytes × Shs.Shs)
      → Keeps c k p x who h.role r.1
      → is_over h.step ≡ false
      → Returns r (λ bytes s. Stage c peer h.role h.step (is_empty bytes) s)
      → Fine
          (and_then
            (r.0, record h { impl = r.1 })
            (λ bytes h'. (ok bytes, record h' { output_buffer = bytes })))
          (Sending h)
  made-Fine h (ok bytes, s) o running g =
      (record { stage = g; owner = o }, refl, λ over. cc, λ _. refl)
  made-Fine h (fault e, s) o running g = absurd g

  pub bytes_to_send-Fine :
      (h : Handshake.Handshake)
      → Prepared c k p x peer who h
      → Fine (Handshake.bytes_to_send c h) (Sending h)
  unfolding Handshake.bytes_to_send
  bytes_to_send-Fine h g = elim (Bool-cases (is_over h.step)) [
    | inl over ↦ rw over (g, refl, λ _. refl, λ running. cc)
    | inr running ↦ elim (Bool-cases (is_empty h.output_buffer)) [
      | inl none_left ↦
          rw (running, none_left)
            (made-Fine h (Handshake.produce c h.role h.step h.impl)
              (g.owner.0, produce-Owns c k p x h.role h.step h.impl g.owner.1) running
              (produce-Stage c peer h.role h.step h.impl
                (subst (λ e. Stage c peer h.role h.step e h.impl) none_left g.stage)))
      | inr some_left ↦ rw (running, some_left) (g, refl, λ over. cc, λ _. refl)
    ]
  ]

  -- What was in the output buffer was sent.
  pub sent-Fine :
      (h : Handshake.Handshake) (o : Bytes)
      → IsValid h
      → Prepared c k p x peer who h
      → is_failed h.step ≡ false
      → is_empty h.output_buffer ≡ false
      → is_empty o ≡ true
      → Fine (Handshake.next_step (record h { output_buffer = o })) (λ a h'. Moved h h')
  sent-Fine h o v g running some_left none_left =
      let sending : sends h.role h.step ≡ true = v.pending (ground arith) some_left in
      next_step-Fine (record h { output_buffer = o }) (next h.step) refl none_left g.owner
        (sent-Onward c peer h.role h.step h.impl sending
          (subst (λ e. Stage c peer h.role h.step e h.impl) some_left g.stage))

  pub send_completed-Fine :
      (h : Handshake.Handshake)
      → IsValid h
      → Prepared c k p x peer who h
      → is_failed h.step ≡ false
      → is_empty h.output_buffer ≡ false
      → Fine (Handshake.send_completed c h) (λ a h'. Moved h h')
  unfolding Handshake.send_completed
  send_completed-Fine h v g running some_left =
      rw some_left (sent-Fine h [] v g running some_left refl)

  -- The session is handed out, and names the peer.
  abbrev pub Ended : Handshake.Handshake → Session → Handshake.Handshake → Type 0
  Ended h s h' = (h' ≡ h) × (h.impl.peer_public_key ≡ some s.peer_public_key)

  asked-Fine :
      (h : Handshake.Handshake) (r : Outcome Session × Shs.Shs)
      → Returns r (λ a s. s ≡ h.impl)
      → ((s : Session) → r.0 ≡ ok s → h.impl.peer_public_key ≡ some s.peer_public_key)
      → Fine (r.0, record h { impl = r.1 }) (Ended h)
  asked-Fine h (ok s, i) same named = (ap (λ j. record h { impl = j }) same, named s refl)
  asked-Fine h (fault e, i) same named = absurd same

  outcome-peer :
      (i : Shs.Shs) (s : Session)
      → (Shs.get_outcome c i).0 ≡ ok s
      → i.peer_public_key ≡ some s.peer_public_key
  unfolding Shs.get_outcome
  outcome-peer i s made = ground arith

  pub session-Fine :
      (h : Handshake.Handshake)
      → Prepared c k p x peer who h
      → Handshake.finished? h ≡ true
      → Fine (Handshake.session c h) (Ended h)
  unfolding Handshake.session
  session-Fine h g over =
      let last : h.step ≡ finished = is_finished h.step over in
      let kept =
        subst (λ s. Stage c peer h.role s (is_empty h.output_buffer) h.impl) last g.stage in
      rw over (
        asked-Fine h (Shs.get_outcome c h.impl)
          (get_outcome-Returns c h.impl
            (finished-keyed c peer h.role (is_empty h.output_buffer) h.impl kept))
          (outcome-peer h.impl))
