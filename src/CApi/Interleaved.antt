-- ===== src/CApi/Interleaved.antt =====
-- src/SecretHandshake.cc, its C functions: several handshakes at once, and each of them alone.
use secret_handshake_capnp.Common.{
  ℕ, ◌≡◌, refl, sym, ap, ◌∙◌, subst, Bool, true, false, List, [], ◌∷◌, Option, none, some,
  Bool-cases, inl, inr, length, length-set, get_elem?, set, get_elem?-set, get_elem?-set_other,
  get_elem?-snoc, get_elem?-snoc_other, length-snoc, Outcome, ok, fault, Exec, ◌==◌, ==_iff,
  if◌then◌else◌,
}
use secret_handshake_capnp.Crypto.{Crypto}
use secret_handshake_capnp.Handshake
use secret_handshake_capnp.CApi.{
  Objects, through, internal, free_object, handshake_create_client, handshake_create_server,
  handshake_free, handshake_get_bytes_needed, handshake_get_input_buffer, handshake_read_completed,
  handshake_received_bytes, handshake_get_bytes_to_send, handshake_send_completed,
  handshake_copy_bytes_to_send, handshake_get_error, handshake_finished, handshake_get_session,
}
use secret_handshake_capnp.CApi.Calls.{
  CCall, get_bytes_needed, get_input_buffer, read_completed, get_bytes_to_send, send_completed,
  get_error, finished, get_session, write_input, received_bytes, copy_bytes_to_send, Answer,
  Request, nothing, create_client, create_server, free, call, answered, answering, is_end,
  then_answers, Slot, subject, made_by, c_call, method, c_step, c_run, call_slot, free_slot,
  slot_step, alone, answers_of,
}

-- The answer and the handle's slot after it.
pub record Agrees (p n : ℕ) (o : Outcome Answer × Objects) (r : Outcome Answer × Slot)
    : Type 0 where
  pub same_answer : o.0 ≡ r.0
  pub same_slot : get_elem? o.1 p ≡ r.1
  pub same_length : length o.1 ≡ n

module _ {A : Type 0} (f : A → Answer) where
  answered-set :
      (p : ℕ) (r : Outcome A × Handshake.Handshake) (objects : Objects)
      → answered f (r.0, set objects p (some r.1))
        ≡ ((answered f r).0, set objects p (some (answered f r).1))
  answered-set p (ok a, h) objects = refl
  answered-set p (fault e, h) objects = refl

  answered-through :
      (p : ℕ) (o : Slot) (m : Exec Handshake.Handshake A) (objects : Objects)
      → answered f (through p o m objects) ≡ through p o (answering f m) objects
  answered-through p none m objects = refl
  answered-through p (some none) m objects = refl
  answered-through p (some (some h)) m objects = answered-set p (m h) objects

module _ (c : Crypto) where
  -- A C function does what its method does, through the pointer.
  c_call-internal :
      (p : ℕ) (k : CCall) (objects : Objects)
      → c_call c p k objects ≡ internal p (method c k) objects
  unfolding c_call method handshake_get_bytes_needed handshake_get_input_buffer
      handshake_read_completed handshake_received_bytes handshake_get_bytes_to_send
      handshake_send_completed handshake_copy_bytes_to_send handshake_get_error handshake_finished
      handshake_get_session
  c_call-internal p get_bytes_needed objects = answered-through _ p (get_elem? objects p) _ objects
  c_call-internal p get_input_buffer objects = answered-through _ p (get_elem? objects p) _ objects
  c_call-internal p read_completed objects = answered-through _ p (get_elem? objects p) _ objects
  c_call-internal p get_bytes_to_send objects = answered-through _ p (get_elem? objects p) _ objects
  c_call-internal p send_completed objects = answered-through _ p (get_elem? objects p) _ objects
  c_call-internal p get_error objects = answered-through _ p (get_elem? objects p) _ objects
  c_call-internal p finished objects = answered-through _ p (get_elem? objects p) _ objects
  c_call-internal p get_session objects = answered-through _ p (get_elem? objects p) _ objects
  c_call-internal p (write_input bytes) objects =
      answered-through _ p (get_elem? objects p) _ objects
  c_call-internal p (received_bytes bytes) objects =
      answered-through _ p (get_elem? objects p) _ objects
  c_call-internal p (copy_bytes_to_send n) objects =
      answered-through _ p (get_elem? objects p) _ objects

  through-Agrees :
      (p : ℕ) (o : Slot) (k : CCall) (objects : Objects)
      → get_elem? objects p ≡ o
      → Agrees p (length objects) (through p o (method c k) objects) (call_slot c k o)
  through-Agrees p none k objects is = record {
    same_answer = refl;
    same_slot = is;
    same_length = refl;
  }
  through-Agrees p (some none) k objects is = record {
    same_answer = refl;
    same_slot = is;
    same_length = refl;
  }
  through-Agrees p (some (some h)) k objects is = record {
    same_answer = refl;
    same_slot = get_elem?-set objects p (some (method c k h).1) (some h) is;
    same_length = length-set objects p (some (method c k h).1);
  }

  free-Agrees :
      (p : ℕ) (o : Slot) (objects : Objects)
      → get_elem? objects p ≡ o
      → Agrees p
          (length objects)
          (answered (λ u. nothing) (free_object p o objects))
          (free_slot c o)
  free-Agrees p none objects is = record { same_answer = refl; same_slot = is; same_length = refl }
  free-Agrees p (some none) objects is = record {
    same_answer = refl;
    same_slot = is;
    same_length = refl;
  }
  free-Agrees p (some (some h)) objects is = record {
    same_answer = refl;
    same_slot = get_elem?-set objects p none (some h) is;
    same_length = length-set objects p none;
  }

  -- A request does to its own handle what it does to the handshake alone.
  step-Agrees :
      (request : Request) (objects : Objects)
      → let n = length objects in
        let p = subject n request in
        Agrees p
          (made_by request n)
          (c_step c request objects)
          (slot_step c request n (get_elem? objects p))
  unfolding c_step slot_step handshake_create_client handshake_create_server handshake_free
  step-Agrees (create_client app_id pair key ephemeral) objects = record {
    same_answer = refl;
    same_slot = get_elem?-snoc objects _;
    same_length = length-snoc objects _;
  }
  step-Agrees (create_server app_id pair ephemeral) objects = record {
    same_answer = refl;
    same_slot = get_elem?-snoc objects _;
    same_length = length-snoc objects _;
  }
  step-Agrees (free p) objects = free-Agrees p (get_elem? objects p) objects refl
  step-Agrees (call p k) objects =
      rw (c_call-internal p k objects) (through-Agrees p (get_elem? objects p) k objects refl)

  through-other :
      (p q : ℕ) (m : Exec Handshake.Handshake Answer) (objects : Objects) (o : Slot)
      → (q == p) ≡ false
      → get_elem? (through q o m objects).1 p ≡ get_elem? objects p
  through-other p q m objects none other = refl
  through-other p q m objects (some none) other = refl
  through-other p q m objects (some (some h)) other =
      get_elem?-set_other objects q p (some (m h).1) other

  free-other :
      (p q : ℕ) (objects : Objects) (o : Slot)
      → (q == p) ≡ false
      → get_elem? (answered (λ u. nothing) (free_object q o objects)).1 p ≡ get_elem? objects p
  free-other p q objects none other = refl
  free-other p q objects (some none) other = refl
  free-other p q objects (some (some h)) other = get_elem?-set_other objects q p none other

  -- It leaves the other handles alone.
  step-other :
      (p : ℕ) (request : Request) (objects : Objects)
      → (subject (length objects) request == p) ≡ false
      → get_elem? (c_step c request objects).1 p ≡ get_elem? objects p
  unfolding c_step handshake_create_client handshake_create_server handshake_free
  step-other p (create_client app_id pair key ephemeral) objects other =
      get_elem?-snoc_other objects _ p other
  step-other p (create_server app_id pair ephemeral) objects other =
      get_elem?-snoc_other objects _ p other
  step-other p (free q) objects other = free-other p q objects (get_elem? objects q) other
  step-other p (call q k) objects other =
      rw (c_call-internal q k objects)
        (through-other p q (method c k) objects (get_elem? objects q) other)

  step_at-Agrees :
      (q : ℕ) (request : Request) (objects : Objects)
      → (subject (length objects) request == q) ≡ true
      → Agrees q
          (made_by request (length objects))
          (c_step c request objects)
          (slot_step c request (length objects) (get_elem? objects q))
  step_at-Agrees q request objects own =
      subst
        (λ p.
          Agrees p (made_by request (length objects)) (c_step c request objects)
            (slot_step c request (length objects) (get_elem? objects p)))
        ((==_iff (subject (length objects) request) q).0 own) (step-Agrees request objects)

  -- Where the first request does not end the run, a handle alone gets its answer if it is the subject.
  alone-step :
      (q : ℕ) (request : Request) (requests : List Request) (objects : Objects)
      (rest : Option (List (Outcome Answer) × Slot))
      → is_end (c_step c request objects).0 ≡ false
      → alone c q requests
          (made_by request (length objects))
          (get_elem? (c_step c request objects).1 q)
        ≡ rest
      → alone c q (request ∷ requests) (length objects) (get_elem? objects q) ≡ (
          if subject (length objects) request == q
          then then_answers (c_step c request objects).0 rest
          else rest)
  unfolding alone
  alone-step q request requests objects rest goes_on is =
      elim (Bool-cases (subject (length objects) request == q)) [
        | inl own ↦
            let agrees = step_at-Agrees q request objects own in
            rw own (
              rw (sym agrees.same_answer) (
                rw (sym agrees.same_slot)
                  (rw goes_on (ap (then_answers (c_step c request objects).0) is))))
        | inr other ↦ rw other (
            ap (alone c q requests (made_by request (length objects)))
              (sym (step-other q request objects other))
            ∙ is)
      ]

  -- The request that ends the run is about a handle that ends the same way alone.
  alone-end :
      (request : Request) (requests : List Request) (objects : Objects)
      → is_end (c_step c request objects).0 ≡ true
      → let p = subject (length objects) request in
        alone c p (request ∷ requests) (length objects) (get_elem? objects p) ≡ none
  unfolding alone
  alone-end request requests objects ends =
      let p = subject (length objects) request in
      let own : (p == p) ≡ true = (==_iff p p).1 refl in
      rw own (rw (sym (step-Agrees request objects).same_answer) (rw ends refl))

  -- Whether a run of all is a run of each alone, from the point of view of one handle.
  abbrev pub Separate :
      ℕ → List Request → Objects → ℕ → Option (List (Outcome Answer) × Objects) → Type 0
  Separate n requests objects p none = (q : ℕ) × (alone c q requests n (get_elem? objects q) ≡ none)
  Separate n requests objects p (some (answers, objects')) =
      alone c p requests n (get_elem? objects p)
      ≡ some (answers_of p requests n answers, get_elem? objects' p)

  none_either :
      (b : Bool) (r : Outcome Answer) → (if b then then_answers {T = Slot} r none else none) ≡ none
  none_either true r = refl
  none_either false r = refl

  some_either :
      (b : Bool) (r : Outcome Answer) (answers : List (Outcome Answer)) (slot : Slot)
      → (if b then then_answers r (some (answers, slot)) else some (answers, slot))
        ≡ some ((if b then r ∷ answers else answers), slot)
  some_either true r answers slot = refl
  some_either false r answers slot = refl

  step-Separate :
      (request : Request) (requests : List Request) (objects : Objects) (p : ℕ)
      (rest : Option (List (Outcome Answer) × Objects))
      → is_end (c_step c request objects).0 ≡ false
      → Separate (made_by request (length objects)) requests (c_step c request objects).1 p rest
      → Separate
          (length objects)
          (request ∷ requests)
          objects
          p
          (then_answers (c_step c request objects).0 rest)
  unfolding answers_of
  step-Separate request requests objects p none goes_on (q, is) = (
    q,
    alone-step q request requests objects none goes_on is
        ∙ none_either (subject (length objects) request == q) (c_step c request objects).0,
  )
  step-Separate request requests objects p (some (answers, objects')) goes_on is =
      alone-step p request requests objects _ goes_on is
      ∙ some_either (subject (length objects) request == p) (c_step c request objects).0 _ _

  -- A program makes handshakes, calls the C functions on them and frees them, in any order, and each
  -- handle fares as it does alone. If no request ends the run, the answers about a handle, errors
  -- included, and what becomes of its handshake are those of the requests about it by themselves: the
  -- methods of a handshake that is made, called, freed and never used again. If one does, by a failed
  -- assertion or because it uses a handle that is not there or is freed, some handle's own requests do
  -- so alone.
  pub c_run-Separate :
      (requests : List Request) (objects : Objects) (p : ℕ)
      → Separate (length objects) requests objects p (c_run c requests objects)
  unfolding c_run alone answers_of
  c_run-Separate [] objects p = refl
  c_run-Separate (request ∷ requests) objects p =
      elim (Bool-cases (is_end (c_step c request objects).0)) [
        | inl ends ↦
            rw ends (subject (length objects) request, alone-end request requests objects ends)
        | inr goes_on ↦
            let objects' = (c_step c request objects).1 in
            let rest = c_run c requests objects' in
            rw goes_on (
              step-Separate request requests objects p rest goes_on (
                subst (λ n. Separate n requests objects' p rest)
                  (step-Agrees request objects).same_length (c_run-Separate requests objects' p)))
      ]
