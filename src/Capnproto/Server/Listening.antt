-- ===== src/Capnproto/Server/Listening.antt =====
-- capnproto/SecretRPC.cc: when a server accepts connections, and what stops it.
use secret_handshake_capnp.Common.{
  ℕ, zero, suc, ◌≡◌, refl, sym, ap, ◌∙◌, Bytes, Bool, true, false, Option, none, some, List, [],
  ◌∷◌, if◌then◌else◌, arith,
}
use secret_handshake_capnp.Crypto.{Crypto}
use secret_handshake_capnp.Async.{Reply, returned, Failure}
use secret_handshake_capnp.Async.{failed as failed_with}
use secret_handshake_capnp.Capnproto.Connection.{AsyncIoStream}
use secret_handshake_capnp.Capnproto.Wrapper.{StreamWrapper, AuthenticatedStream}
use secret_handshake_capnp.Capnproto.Server.{
  Server, Making, Event, parsed, accepted, offered, not_accepted, not_offered, made, timed_out,
  disconnected, new_server, handle, serve, settle, accept_ended, accept_broken, end_making, expire,
  listen,
}

-- What a server does about new streams: its address is yet to be parsed, it never listens, it waits for a
-- stream, or it has stopped.
pub data Phase : Type 0 where
  resolving unheard listening stopped : Phase

abbrev pub begun : Bool → Phase
begun true = resolving
begun false = unheard

-- The tasks that wait for a stream, and whether the address is yet to be parsed.
abbrev pub tasks : Phase → ℕ
tasks listening = 1
tasks p = 0

abbrev pub is_resolving : Phase → Bool
is_resolving resolving = true
is_resolving p = false

abbrev pub parsed_phase : Reply ℕ → Phase → Phase
parsed_phase (returned number) resolving = listening
parsed_phase (failed_with e) resolving = unheard
parsed_phase r p = p

abbrev pub broken_phase : Phase → Phase
broken_phase listening = stopped
broken_phase p = p

module _ {S : Type 0} where
  -- The events that count: the address is parsed, or not, and the name of an accepted stream's peer can
  -- not be found.
  abbrev pub next_phase : Event S → Phase → Phase
  next_phase (parsed address) p = parsed_phase address p
  next_phase (accepted (some e) x late stream inner) p = broken_phase p
  next_phase event p = p

  unfoldable pub last_phase : List (Event S) → Phase → Phase
  last_phase [] p = p
  last_phase (event ∷ events) p = last_phase events (next_phase event p)

-- A server in this phase.
pub record Follows {S C : Type 0} (p : Phase) (s : Server S C) : Type 0 where
  pub waits : s.accepting ≡ tasks p
  pub starts : s.starting ≡ is_resolving p

module _ {S C : Type 0} (p : Phase) where
  settle-Follows :
      (x : Option Failure) (r : Reply (AuthenticatedStream S)) (s : Server S C)
      → Follows p s
      → Follows p (settle x r s)
  settle-Follows none (returned a) s v = record { waits = v.waits; starts = v.starts }
  settle-Follows (some e) (returned a) s v = record { waits = v.waits; starts = v.starts }
  settle-Follows x (failed_with e) s v = record { waits = v.waits; starts = v.starts }

  accept_ended-Follows :
      (n : ℕ) (timer : Bool) (r : Reply (AuthenticatedStream S)) (s : Server S C)
      → s.accepting ≡ n
      → Follows p s
      → Follows p (accept_ended n timer r s)
  accept_ended-Follows zero timer r s is v = v
  accept_ended-Follows (suc others) timer r s is v = record {
    waits = sym is ∙ v.waits;
    starts = v.starts;
  }

  end_making-Follows :
      (n : ℕ) (x : Option Failure) (o : Option (Making S)) (s : Server S C)
      → Follows p s
      → Follows p (end_making n x o s)
  end_making-Follows n x none s v = v
  end_making-Follows n x (some m) s v =
      settle-Follows x m.reply _ (record { waits = v.waits; starts = v.starts })

  expire-Follows :
      (n : ℕ) (o : Option (Making S)) (s : Server S C) → Follows p s → Follows p (expire n o s)
  expire-Follows n none s v = v
  expire-Follows n (some m) s v = timer m.has_timer
    where
      timer : (b : Bool) → Follows p (expire n (some (record m { has_timer = b })) s)
      timer true = record { waits = v.waits; starts = v.starts }
      timer false = v

module _ {S C : Type 0} (s : Server S C) where
  listened-Follows :
      (r : Reply ℕ) (b : Bool) (p : Phase)
      → s.starting ≡ b
      → Follows p s
      → Follows (parsed_phase r p) (if b then listen r s else s)
  listened-Follows (returned number) true resolving is v = record {
    waits = ap suc v.waits;
    starts = refl;
  }
  listened-Follows (failed_with e) true resolving is v = record { waits = v.waits; starts = refl }
  listened-Follows r false resolving is v = let starts = v.starts in absurd (ground arith)
  listened-Follows r true unheard is v = let starts = v.starts in absurd (ground arith)
  listened-Follows r true listening is v = let starts = v.starts in absurd (ground arith)
  listened-Follows r true stopped is v = let starts = v.starts in absurd (ground arith)
  listened-Follows (returned number) false unheard is v = v
  listened-Follows (failed_with e) false unheard is v = v
  listened-Follows (returned number) false listening is v = v
  listened-Follows (failed_with e) false listening is v = v
  listened-Follows (returned number) false stopped is v = v
  listened-Follows (failed_with e) false stopped is v = v

  accept_broken-Follows :
      (n : ℕ) (e : Failure) (p : Phase)
      → s.accepting ≡ n
      → Follows p s
      → Follows (broken_phase p) (accept_broken n e s)
  accept_broken-Follows zero e listening is v = let waits = v.waits in absurd (omega arith)
  accept_broken-Follows (suc n) e listening is v = record {
    waits = let waits = v.waits in omega arith;
    starts = v.starts;
  }
  accept_broken-Follows zero e resolving is v = v
  accept_broken-Follows zero e unheard is v = v
  accept_broken-Follows zero e stopped is v = v
  accept_broken-Follows (suc n) e resolving is v = let waits = v.waits in absurd (omega arith)
  accept_broken-Follows (suc n) e unheard is v = let waits = v.waits in absurd (omega arith)
  accept_broken-Follows (suc n) e stopped is v = let waits = v.waits in absurd (omega arith)

module _ (c : Crypto) {S C : Type 0} (io : AsyncIoStream S) (fuel : ℕ) where
  module _ (null_reply : Reply (AuthenticatedStream S)) where
    handle-Follows :
        (event : Event S) (p : Phase) (s : Server S C)
        → Follows p s
        → Follows (next_phase event p) (handle c io fuel null_reply event s)
    unfolding handle
    handle-Follows (parsed r) p s v = listened-Follows s r s.starting p refl v
    handle-Follows (accepted (some e) x late stream inner) p s v =
        accept_broken-Follows s s.accepting e p refl v
    handle-Follows (accepted none x late stream inner) p s v =
        accept_ended-Follows p s.accepting true _ s refl v
    handle-Follows (not_accepted e) p s v =
        accept_ended-Follows p s.accepting false null_reply s refl v
    handle-Follows (offered x late stream inner) p s v = record {
      waits = v.waits;
      starts = v.starts;
    }
    handle-Follows (not_offered e) p s v = record { waits = v.waits; starts = v.starts }
    handle-Follows (made n x) p s v = end_making-Follows p n x _ s v
    handle-Follows (timed_out n) p s v = expire-Follows p n _ s v
    handle-Follows (disconnected n) p s v = record { waits = v.waits; starts = v.starts }

    phases-Follows :
        (events : List (Event S)) (p : Phase) (s : Server S C)
        → Follows p s
        → Follows (last_phase events p) (serve c io fuel null_reply events s)
    unfolding serve last_phase
    phases-Follows [] p s v = v
    phases-Follows (event ∷ events) p s v = phases-Follows events _ _ (handle-Follows event p s v)

    -- What a server with a wrapper does about new streams follows the phases, if KJ makes some reply of
    -- the null promise of a failed accept. A server that is to listen waits once its address is parsed,
    -- by exactly one task, and no other server waits. Neither a failed accept, a failed handshake, the
    -- timer, a closed connection nor a stream from elsewhere changes that; but where `getPeerName`, whose
    -- answer is only logged, throws for an accepted stream, no task waits any more.
    pub serve-Follows :
        (factory : Option Bytes → C) (listens : Bool) (w : StreamWrapper) (events : List (Event S))
        → Follows
            (last_phase events (begun listens))
            (serve c io fuel null_reply events (new_server factory listens (some w)))
    serve-Follows factory true w events =
        phases-Follows events _ _ (record { waits = refl; starts = refl })
    serve-Follows factory false w events =
        phases-Follows events _ _ (record { waits = refl; starts = refl })
