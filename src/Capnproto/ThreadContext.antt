-- ===== src/Capnproto/ThreadContext.antt =====
-- capnproto/SecretRPC.cc and .hh, class `RPCContext`: the context of a thread, which is made when it is
-- first asked for and destroyed with its last reference. What it holds, KJ's asynchronous I/O, is not in
-- this repository.
pub mod Holding
use secret_handshake_capnp.Common.{
  ℕ, zero, suc, ◌-◌, Bool, false, Option, none, some, List, [], ◌∷◌, ◌==◌, if◌then◌else◌,
  undefined_behaviour,
}
use secret_handshake_capnp.Async.{
  Reply, returned, failed, requirement_failed, thrown, Async, ◌>>◌, pure,
}

-- `threadSecretContext` of each thread, and the number of references to each context. Contexts are
-- numbered in the order in which they are made; one without references is destroyed.
pub record Contexts : Type 0 where
  pub thread_context : ℕ → Option ℕ
  pub references : ℕ → ℕ
  pub made : ℕ

abbrev pub no_contexts : Contexts
no_contexts = record { thread_context = λ t. none; references = λ id. 0; made = 0 }

abbrev pub updated : {A : Type 0} → (ℕ → A) → ℕ → A → ℕ → A
updated f n a m = if n == m then a else f m

-- `getThreadLocal`, with the thread's pointer: `addRef`, of a context that is there, or a new one.
abbrev pub get_existing : ℕ → Option ℕ → ℕ → Async Contexts ℕ
get_existing t none n w = (
  returned w.made,
  record {
    thread_context = updated w.thread_context t (some w.made);
    references = updated w.references w.made 1;
    made = suc w.made;
  },
)
get_existing t (some id) zero w = (failed (thrown undefined_behaviour), w)
get_existing t (some id) (suc n) w =
    (returned id, record w { references = updated w.references id (suc (suc n)) })

abbrev pub references_of : Contexts → Option ℕ → ℕ
references_of w none = 0
references_of w (some id) = w.references id

unfoldable pub get_thread_local : ℕ → Async Contexts ℕ
get_thread_local t w = get_existing t (w.thread_context t) (references_of w (w.thread_context t)) w

abbrev is_current : Option ℕ → ℕ → Bool
is_current none id = false
is_current (some current) id = current == id

-- The destructor, on this thread: it requires that this is the thread's context.
abbrev pub destroy : ℕ → ℕ → Async Contexts (Unit {0})
destroy t id w =
    if is_current (w.thread_context t) id
    then (returned tt, record w { thread_context = updated w.thread_context t none })
    else (failed requirement_failed, w)

-- The end of a `kj::Own` reference, by the number of references that `kj::Refcounted` has counted: the
-- last one destroys the context.
abbrev pub drop_reference : ℕ → ℕ → ℕ → Async Contexts (Unit {0})
drop_reference t id zero w = (failed (thrown undefined_behaviour), w)
drop_reference t id (suc zero) w =
    destroy t id (record w { references = updated w.references id 0 })
drop_reference t id (suc (suc n)) w =
    (returned tt, record w { references = updated w.references id (suc n) })

unfoldable pub release : ℕ → ℕ → Async Contexts (Unit {0})
release t id w = drop_reference t id (w.references id) w

-- What a thread does: it asks for its context, or gives up a reference to it, if it has one.
pub data Use : Type 0 where
  enter leave : ℕ → Use

abbrev pub leave_current : ℕ → Option ℕ → Async Contexts (Unit {0})
leave_current t none w = (returned tt, w)
leave_current t (some id) w = release t id w

abbrev pub only_state : {A : Type 0} → Reply A × Contexts → Reply (Unit {0}) × Contexts
only_state (returned a, w) = (returned tt, w)
only_state (failed e, w) = (failed e, w)

unfoldable pub use_context : Use → Async Contexts (Unit {0})
use_context (enter t) w = only_state (get_thread_local t w)
use_context (leave t) w = leave_current t (w.thread_context t) w

unfoldable pub use_all : List Use → Async Contexts (Unit {0})
use_all [] = pure tt
use_all (u ∷ us) = use_context u >> use_all us

-- The specification: each thread holds a number of references to the one context that it has while this
-- number is not 0.
unfoldable pub hold : Use → (ℕ → ℕ) → ℕ → ℕ
hold (enter t) held = updated held t (suc (held t))
hold (leave t) held = updated held t (held t - 1)

unfoldable pub hold_all : List Use → (ℕ → ℕ) → ℕ → ℕ
hold_all [] held = held
hold_all (u ∷ us) held = hold_all us (hold u held)
