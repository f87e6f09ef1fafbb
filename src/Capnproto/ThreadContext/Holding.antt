-- ===== src/Capnproto/ThreadContext/Holding.antt =====
-- capnproto/SecretRPC.cc, class `RPCContext`: what threads that use it hold.
use secret_handshake_capnp.Common.{
  ℕ, zero, suc, ◌-◌, ◌<◌, ◌≤◌, ◌≡◌, ◌≢◌, refl, sym, ap, subst, ◌∙◌, Bool, false, Bool-cases, ◌⊎◌,
  inl, inr, Option, none, some, List, [], ◌∷◌, ◌==◌, ==_iff, arith,
}
use secret_handshake_capnp.Async.{Reply, returned, failed}
use secret_handshake_capnp.Async.Ends.{Ends, then-Ends}
use secret_handshake_capnp.Capnproto.ThreadContext.{
  Contexts, no_contexts, updated, get_existing, references_of, get_thread_local, drop_reference,
  release, Use, enter, leave, leave_current, only_state, use_context, use_all, hold, hold_all,
}

-- No error is allowed.
abbrev pub never : {E : Type 0} → E → Bool
never e = false

updated-same : {A : Type 0} (f : ℕ → A) (n : ℕ) (a : A) → updated f n a n ≡ a
updated-same f n a = rw ((==_iff n n).1 refl) refl

updated-other :
    {A : Type 0} (f : ℕ → A) (n m : ℕ) (a : A) → (n == m) ≡ false → updated f n a m ≡ f m
updated-other f n m a h = rw h refl

-- A thread with this pointer holds as many references.
abbrev pub Fits : Contexts → ℕ → Option ℕ → Type 0
Fits w n none = n ≡ 0
Fits w n (some id) = (w.references id ≡ n) × (0 < n) × (id < w.made)

-- The contexts are as the threads hold them, each by one thread.
pub record Represents (w : Contexts) (held : ℕ → ℕ) : Type 0 where
  pub fits : (t : ℕ) → Fits w (held t) (w.thread_context t)
  pub apart : (t u id : ℕ) → w.thread_context t ≡ some id → w.thread_context u ≡ some id → t ≡ u

Fits-still :
    (o : Option ℕ) (n : ℕ) (w w' : Contexts)
    → Fits w n o
    → ((id : ℕ) → o ≡ some id → id < w.made → w'.references id ≡ w.references id)
    → w.made ≤ w'.made
    → Fits w' n o
Fits-still none n w w' f same more = f
Fits-still (some id) n w w' (count, held, known) same more =
    (same id refl known ∙ count, held, omega arith)

differ : (a b : ℕ) → a ≢ b → (a == b) ≡ false
differ a b h = ground arith

same_number : (a b : ℕ) → some a ≡ some b → a ≡ b
same_number a b h = cc

-- The count of references to a thread's context changes, and the thread still has some.
counted :
    (t id n : ℕ) (w : Contexts) (held : ℕ → ℕ)
    → w.thread_context t ≡ some id
    → 0 < n
    → Represents w held
    → Represents (record w { references = updated w.references id n }) (updated held t n)
counted t id n w held is some_left v =
    let w' : Contexts = record w { references = updated w.references id n } in
    record {
      fits = λ u. elim (Bool-cases (t == u)) [
        | inl own ↦
            let same : t ≡ u = (==_iff t u).0 own in
            let (count, there, known) = subst (Fits w (held t)) is (v.fits t) in
            rw own (
              subst (Fits w' n) (sym is ∙ ap w.thread_context same)
                (updated-same w.references id n, some_left, known))
        | inr other ↦ rw other (
            Fits-still (w.thread_context u) (held u) w w' (v.fits u)
              (λ id' is' known. updated-other w.references id id' n (
                differ id id' (λ e.
                  let same : t ≡ u = v.apart t u id is (is' ∙ ap some (sym e)) in
                  let no = (==_iff t u).1 same in cc)))
              (omega arith))
      ];
      apart = v.apart;
    }

-- A thread's pointer, after it was set to a new context.
pointed :
    (t u id : ℕ) (w : Contexts)
    → updated w.thread_context t (some w.made) u ≡ some id
    → ((t ≡ u) × (id ≡ w.made)) ⊎ (w.thread_context u ≡ some id)
pointed t u id w is = elim (Bool-cases (t == u)) [
  | inl own ↦
      let same : t ≡ u = (==_iff t u).0 own in
      let moved : updated w.thread_context t (some w.made) u ≡ some w.made =
        ap (updated w.thread_context t (some w.made)) (sym same)
        ∙ updated-same w.thread_context t (some w.made) in
      inl (same, same_number id w.made (sym is ∙ moved))
  | inr other ↦ inr (sym (updated-other w.thread_context t u (some w.made) other) ∙ is)
]

known_number :
    (t id : ℕ) (w : Contexts) (held : ℕ → ℕ)
    → Represents w held
    → w.thread_context t ≡ some id
    → id < w.made
known_number t id w held v is = (subst (Fits w (held t)) is (v.fits t)).2

begun :
    (t : ℕ) (w : Contexts) (held : ℕ → ℕ)
    → w.thread_context t ≡ none
    → Represents w held
    → Represents
        (record {
          thread_context = updated w.thread_context t (some w.made);
          references = updated w.references w.made 1;
          made = suc w.made;
        })
        (updated held t 1)
begun t w held is v =
    let w' : Contexts = record {
      thread_context = updated w.thread_context t (some w.made);
      references = updated w.references w.made 1;
      made = suc w.made;
    } in
    record {
      fits = λ u. elim (Bool-cases (t == u)) [
        | inl own ↦ rw own (updated-same w.references w.made 1, omega arith, omega arith)
        | inr other ↦ rw other (
            Fits-still (w.thread_context u) (held u) w w' (v.fits u)
              (λ id is' known.
                updated-other w.references w.made id 1 (differ w.made id (λ e. omega arith)))
              (omega arith))
      ];
      apart = λ a b id is_a is_b. elim (pointed t a id w is_a) [
        | inl (own_a, new) ↦ elim (pointed t b id w is_b) [
          | inl (own_b, _) ↦ sym own_a ∙ own_b
          | inr old ↦ absurd (let known = known_number b id w held v old in omega arith)
        ]
        | inr old_a ↦ elim (pointed t b id w is_b) [
          | inl (own_b, new) ↦ absurd (let known = known_number a id w held v old_a in omega arith)
          | inr old_b ↦ v.apart a b id old_a old_b
        ]
      ];
    }

entered :
    (t : ℕ) (w : Contexts) (held : ℕ → ℕ) (o : Option ℕ) (n : ℕ)
    → w.thread_context t ≡ o
    → references_of w o ≡ n
    → Represents w held
    → Ends never (λ id w'. Represents w' (hold (enter t) held)) (get_existing t o n w)
unfolding hold
entered t w held none n is count v =
    let idle : held t ≡ 0 = subst (Fits w (held t)) is (v.fits t) in rw idle (begun t w held is v)
entered t w held (some id) zero is count v =
    absurd (let (c, there, known) = subst (Fits w (held t)) is (v.fits t) in omega arith)
entered t w held (some id) (suc n) is count v =
    let (c, there, known) = subst (Fits w (held t)) is (v.fits t) in
    let more : held t ≡ suc n = sym c ∙ count in
    rw more (counted t id (suc (suc n)) w held is (omega arith) v)

kept :
    (t u id : ℕ) (w : Contexts)
    → updated w.thread_context t none u ≡ some id
    → w.thread_context u ≡ some id
kept t u id w is = elim (Bool-cases (t == u)) [
  | inl own ↦
      let same : t ≡ u = (==_iff t u).0 own in
      let gone : updated w.thread_context t none u ≡ none =
        ap (updated w.thread_context t none) (sym same) ∙ updated-same w.thread_context t none in
      let no : none ≡ some id = sym gone ∙ is in cc
  | inr other ↦ sym (updated-other w.thread_context t u none other) ∙ is
]

-- The thread's last reference is given up: its context is destroyed.
ended :
    (t id : ℕ) (w : Contexts) (held : ℕ → ℕ)
    → w.thread_context t ≡ some id
    → Represents w held
    → Represents
        (record w {
          thread_context = updated w.thread_context t none;
          references = updated w.references id 0;
        })
        (updated held t 0)
ended t id w held is v =
    let w' : Contexts = record w {
      thread_context = updated w.thread_context t none;
      references = updated w.references id 0;
    } in
    record {
      fits = λ u. elim (Bool-cases (t == u)) [
        | inl own ↦ rw own refl
        | inr other ↦ rw other (
            Fits-still (w.thread_context u) (held u) w w' (v.fits u)
              (λ id' is' known. updated-other w.references id id' 0 (
                differ id id' (λ e.
                  let same : t ≡ u = v.apart t u id is (is' ∙ ap some (sym e)) in
                  let no = (==_iff t u).1 same in cc)))
              (omega arith))
      ];
      apart = λ a b i is_a is_b. v.apart a b i (kept t a i w is_a) (kept t b i w is_b);
    }

dropped :
    (t id n : ℕ) (w : Contexts) (held : ℕ → ℕ)
    → w.thread_context t ≡ some id
    → w.references id ≡ n
    → Represents w held
    → Ends never (λ u w'. Represents w' (hold (leave t) held)) (drop_reference t id n w)
unfolding hold
dropped t id zero w held is count v =
    absurd (let (c, there, known) = subst (Fits w (held t)) is (v.fits t) in omega arith)
dropped t id (suc zero) w held is count v =
    let (c, there, known) = subst (Fits w (held t)) is (v.fits t) in
    let last : held t ≡ 1 = sym c ∙ count in
    rw (is, (==_iff id id).1 refl, last) (ended t id w held is v)
dropped t id (suc (suc n)) w held is count v =
    let (c, there, known) = subst (Fits w (held t)) is (v.fits t) in
    let more : held t ≡ suc (suc n) = sym c ∙ count in
    let less : held t - 1 ≡ suc n = omega arith in
    rw less (counted t id (suc n) w held is (omega arith) v)

-- A thread that has no context gives up nothing.
unused :
    (t : ℕ) (w : Contexts) (held : ℕ → ℕ)
    → w.thread_context t ≡ none
    → Represents w held
    → Represents w (updated held t (held t - 1))
unused t w held is v =
    let idle : held t ≡ 0 = subst (Fits w (held t)) is (v.fits t) in
    let less : held t - 1 ≡ 0 = omega arith in
    record {
      fits = λ u. elim (Bool-cases (t == u)) [
        | inl own ↦
            let same : t ≡ u = (==_iff t u).0 own in
            rw (own, less) (subst (Fits w 0) (sym is ∙ ap w.thread_context same) refl)
        | inr other ↦ rw other (v.fits u)
      ];
      apart = v.apart;
    }

left :
    (t : ℕ) (o : Option ℕ) (w : Contexts) (held : ℕ → ℕ)
    → w.thread_context t ≡ o
    → Represents w held
    → Ends never (λ u w'. Represents w' (hold (leave t) held)) (leave_current t o w)
unfolding release hold
left t none w held is v = unused t w held is v
left t (some id) w held is v = dropped t id (w.references id) w held is refl v

state-Ends :
    {A : Type 0} (P : Contexts → Type 0) (r : Reply A × Contexts)
    → Ends never (λ a w. P w) r
    → Ends never (λ u w. P w) (only_state r)
state-Ends P (returned a, w) e = e
state-Ends P (failed x, w) e = e

used :
    (u : Use) (w : Contexts) (held : ℕ → ℕ)
    → Represents w held
    → Ends never (λ v w'. Represents w' (hold u held)) (use_context u w)
unfolding use_context get_thread_local
used (enter t) w held v =
    state-Ends (λ w'. Represents w' (hold (enter t) held)) _
      (entered t w held (w.thread_context t) _ refl refl v)
used (leave t) w held v = left t (w.thread_context t) w held refl v

all-used :
    (us : List Use) (w : Contexts) (held : ℕ → ℕ)
    → Represents w held
    → Ends never (λ v w'. Represents w' (hold_all us held)) (use_all us w)
unfolding use_all hold_all
all-used [] w held v = v
all-used (u ∷ us) w held v =
    then-Ends never (λ x w'. Represents w' (hold u held)) _ (use_context u w) (λ x. use_all us)
      (used u w held v) (λ x w' v'. all-used us w' (hold u held) v')

Ends-returned :
    (P : Contexts → Type 0) (r : Reply (Unit {0}) × Contexts)
    → Ends never (λ u w. P w) r
    → (r.0 ≡ returned tt) × P r.1
Ends-returned P (returned u, w) e = (refl, e)
Ends-returned P (failed x, w) e = cc

-- However threads ask for their contexts and give references up again, each its own: no call fails, and
-- the contexts are as the counts of references say. A thread has a context just while it holds
-- references, the context counts just those, and no two threads have the same one; so a context is
-- destroyed with its last reference, and never used after that.
pub use_all-Represents :
    (us : List Use)
    → let (reply, w) = use_all us no_contexts in
      (reply ≡ returned tt) × Represents w (hold_all us (λ t. 0))
use_all-Represents us =
    Ends-returned (λ w. Represents w (hold_all us (λ t. 0))) (use_all us no_contexts)
      (all-used us no_contexts (λ t. 0)
        (record { fits = λ t. refl; apart = λ t u id is_t is_u. cc }))
