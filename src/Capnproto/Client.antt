-- ===== src/Capnproto/Client.antt =====
-- capnproto/SecretRPC.cc and .hh, class `SecretRPCClient`: the set-up of its stream, and `getMain`
-- before and after it. Cap'n Proto's RPC system, which makes a main capability of a stream, is a
-- parameter.
use secret_handshake_capnp.Common.{
  ℕ, ◌≡◌, refl, sym, ap, ◌∙◌, Bytes, Option, none, some, List, [], ◌∷◌, ◌++◌, assertion_failed,
  append-nil, append_assoc,
}
use secret_handshake_capnp.Crypto.{Crypto}
use secret_handshake_capnp.Async.{Reply, returned, failed, thrown}
use secret_handshake_capnp.Capnproto.Connection.{AsyncIoStream, WrappedStream, wrap}
use secret_handshake_capnp.Capnproto.Wrapper.{Stream, plain_stream, wrapped_stream, StreamWrapper}

-- `ClientContext`: the stream, of which the RPC system is made.
pub record ClientContext (S : Type 0) : Type 0 where
  pub stream : Stream S

-- `Impl`: the context once there is one, how `_setupPromise` was resolved, the calls of `getMain` that
-- wait for it, and the answers that were given.
pub record Client (S C : Type 0) : Type 0 where
  pub client_context : Option (ClientContext S)
  pub setup : Option (Reply (Unit {0}))
  pub waiting : List ℕ
  pub answers : List (ℕ × Reply C)

abbrev pub new_client : {S C : Type 0} → Client S C
new_client = record { client_context = none; setup = none; waiting = []; answers = [] }

abbrev pub connected_stream : {S : Type 0} → Reply (Unit {0}) × WrappedStream S → Reply (Stream S)
connected_stream (returned u, conn) = returned (wrapped_stream conn)
connected_stream (failed e, conn) = failed e

-- `asyncWrap` of the promised stream, which comes or not.
unfoldable pub wrap_promised :
    Crypto
    → {S : Type 0} → AsyncIoStream S
    → ℕ
    → Option StreamWrapper
    → Bytes
    → Reply S
    → Reply (Stream S)
wrap_promised c io fuel w x (failed e) = failed e
wrap_promised c io fuel none x (returned stream) = returned (plain_stream stream)
wrap_promised c io fuel (some w) x (returned stream) =
    connected_stream (wrap c io fuel w.context w.server_public_key w.authorizer x stream)

-- A call of `getMain`, with a number, or the end of the set-up.
pub data Event (S : Type 0) : Type 0 where
  asked : ℕ → Event S
  set_up : Reply (Stream S) → Event S

module _ {S C : Type 0} (bootstrap : Stream S → C) where
  -- `ClientContext::getMain`
  abbrev pub main_of : ClientContext S → C
  main_of context = bootstrap context.stream

  -- What a call gets that waited for the set-up.
  abbrev pub resumed : Option (ClientContext S) → Reply (Unit {0}) → Reply C
  resumed (some context) (returned u) = returned (main_of context)
  resumed none (returned u) = failed (thrown assertion_failed)
  resumed context (failed e) = failed e

  abbrev pub answer_all : Reply C → List ℕ → List (ℕ × Reply C) → List (ℕ × Reply C)
  answer_all r [] answers = answers
  answer_all r (n ∷ waiting) answers = answer_all r waiting ((n, r) ∷ answers)

  abbrev pub ask_later : ℕ → Option (Reply (Unit {0})) → Client S C → Client S C
  ask_later n none s = record s { waiting = s.waiting ++ n ∷ [] }
  ask_later n (some r) s = record s { answers = (n, resumed s.client_context r) ∷ s.answers }

  -- `getMain`
  abbrev pub get_main : ℕ → Option (ClientContext S) → Client S C → Client S C
  get_main n (some context) s = record s { answers = (n, returned (main_of context)) ∷ s.answers }
  get_main n none s = ask_later n s.setup s

  abbrev pub resume : Reply (Unit {0}) → Client S C → Client S C
  resume r s = record s {
    setup = some r;
    waiting = [];
    answers = answer_all (resumed s.client_context r) s.waiting s.answers;
  }

  -- The continuation of the set-up: the context is filled in before the promise is resolved.
  abbrev pub finish_setup : Reply (Stream S) → Client S C → Client S C
  finish_setup (returned stream) s =
      let context : ClientContext S = record { stream = stream } in
      resume (returned tt) (record s { client_context = some context })
  finish_setup (failed e) s = resume (failed e) s

  unfoldable pub handle : Event S → Client S C → Client S C
  handle (asked n) s = get_main n s.client_context s
  handle (set_up r) s = finish_setup r s

  unfoldable pub run : List (Event S) → Client S C → Client S C
  run [] s = s
  run (event ∷ events) s = run events (handle event s)

  -- What every call is told: the main capability of the stream, or why there is none.
  abbrev pub told : Reply (Stream S) → Reply C
  told (returned stream) = returned (bootstrap stream)
  told (failed e) = failed e

  unfoldable pub asks : List ℕ → List (Event S)
  asks [] = []
  asks (n ∷ ns) = asked n ∷ asks ns

  answer_all-append :
      (r : Reply C) (xs ys : List ℕ) (answers : List (ℕ × Reply C))
      → answer_all r (xs ++ ys) answers ≡ answer_all r ys (answer_all r xs answers)
  answer_all-append r [] ys answers = refl
  answer_all-append r (x ∷ xs) ys answers = answer_all-append r xs ys ((x, r) ∷ answers)

  -- A client whose set-up is not over, with these calls waiting.
  abbrev idle : List ℕ → Client S C
  idle waiting = record { client_context = none; setup = none; waiting = waiting; answers = [] }

  ask_before :
      (ns before : List ℕ) (events : List (Event S))
      → run (asks ns ++ events) (idle before) ≡ run events (idle (before ++ ns))
  unfolding run handle asks
  ask_before [] before events = ap (λ w. run events (idle w)) (sym (append-nil before))
  ask_before (n ∷ ns) before events =
      ask_before ns (before ++ n ∷ []) events
      ∙ ap (λ w. run events (idle w)) (append_assoc before (n ∷ []) ns)

  -- A client whose set-up is over.
  abbrev settled : Reply (Stream S) → List (ℕ × Reply C) → Client S C
  settled (returned stream) answers = record {
    client_context = some (record { stream = stream });
    setup = some (returned tt);
    waiting = [];
    answers = answers;
  }
  settled (failed e) answers = record {
    client_context = none;
    setup = some (failed e);
    waiting = [];
    answers = answers;
  }

  ask_after :
      (r : Reply (Stream S)) (ns : List ℕ) (answers : List (ℕ × Reply C))
      → run (asks ns) (settled r answers) ≡ settled r (answer_all (told r) ns answers)
  unfolding run handle asks
  ask_after r [] answers = refl
  ask_after (returned stream) (n ∷ ns) answers =
      ask_after (returned stream) ns ((n, told (returned stream)) ∷ answers)
  ask_after (failed e) (n ∷ ns) answers = ask_after (failed e) ns ((n, failed e) ∷ answers)

  settled-answers :
      (r : Reply (Stream S)) (answers : List (ℕ × Reply C)) → (settled r answers).answers ≡ answers
  settled-answers (returned stream) answers = refl
  settled-answers (failed e) answers = refl

  set_up_lem :
      (r : Reply (Stream S)) (before : List ℕ)
      → handle (set_up r) (idle before) ≡ settled r (answer_all (told r) before [])
  unfolding handle
  set_up_lem (returned stream) before = refl
  set_up_lem (failed e) before = refl

  -- Calls of `getMain` that come before the set-up is over get the same reply as those that come after:
  -- the main capability of the stream, if there is one, and otherwise the error of the set-up. All of
  -- them are answered, once each and in their order, and no assertion fails.
  pub get_main_lem :
      (r : Reply (Stream S)) (before after : List ℕ)
      → (run (asks before ++ set_up r ∷ asks after) new_client).answers
        ≡ answer_all (told r) (before ++ after) []
  unfolding run
  get_main_lem r before after =
      ap (λ s. s.answers)
        (ask_before before [] (set_up r ∷ asks after)
          ∙ ap (run (asks after)) (set_up_lem r before)
          ∙ ask_after r after (answer_all (told r) before []))
      ∙ settled-answers r _
      ∙ sym (answer_all-append (told r) before after [])
