-- ===== src/Capnproto/Server/Serving.antt =====
-- capnproto/SecretRPC.cc: what every sequence of events keeps true of a server.
use secret_handshake_capnp.Common.{
  ℕ, zero, suc, ◌≤◌, ◌≡◌, ◌≢◌, refl, ap, subst, get_elem?, erase_idx, Bytes, Bool, true, false,
  Option, none, some, List, [], ◌∷◌, if◌then◌else◌,
}
use secret_handshake_capnp.Crypto.{Crypto, IsCrypto}
use secret_handshake_capnp.Shs.{Session}
use secret_handshake_capnp.Handshake.Shown.{Shown}
use secret_handshake_capnp.Async.{Reply, returned, Failure, operation_timed_out}
use secret_handshake_capnp.Async.{failed as failed_with}
use secret_handshake_capnp.Capnproto.Connection.{
  AsyncIoStream, WrappedStream, is_authorized, get_identity,
}
use secret_handshake_capnp.Capnproto.Rounds.{IsOrderly}
use secret_handshake_capnp.Capnproto.Settles.{Settled, wrap-Settled}
use secret_handshake_capnp.Capnproto.Wrapper.{
  StreamWrapper, PeerIdentity, AuthenticatedStream, wrapped_stream, wrap_authenticated, timed,
  authenticated, async_wrap,
}
use secret_handshake_capnp.Capnproto.Server.{
  Connection, Server, Making, Event, parsed, accepted, offered, not_accepted, not_offered, made,
  timed_out, disconnected, new_server, key_of, handle, serve, settle, accept_ended, accept_broken,
  task_failed, add_making, end_making, expire, listen, wrap_accepted,
}

abbrev pub Every : {A : Type 0} → (A → Type 0) → List A → Type 0
Every P [] = Unit {0}
Every P (x ∷ xs) = P x × Every P xs

erase_idx-Every :
    {A : Type 0} (P : A → Type 0) (n : ℕ) (xs : List A) → Every P xs → Every P (erase_idx xs n)
erase_idx-Every P n [] all = tt
erase_idx-Every P zero (x ∷ xs) (p, all) = all
erase_idx-Every P (suc n) (x ∷ xs) (p, all) = (p, erase_idx-Every P n xs all)

get_elem?-Every :
    {A : Type 0} (P : A → Type 0) (n : ℕ) (xs : List A) (x : A)
    → Every P xs
    → get_elem? xs n ≡ some x
    → P x
get_elem?-Every P n [] x all e = cc
get_elem?-Every P zero (y ∷ xs) x (p, all) e = let same : y ≡ x = cc in subst P same p
get_elem?-Every P (suc n) (y ∷ xs) x (p, all) e = get_elem?-Every P n xs x all e

-- A stream that a handshake has secured: it has a session, of a peer that the wrapper's authorizer
-- accepts and that has signed what it signs, and its identity is that peer's key.
pub record Secure {S : Type 0} (c : Crypto) (w : StreamWrapper) (a : AuthenticatedStream S)
    : Type 0 where
  pub connection : WrappedStream S
  pub session : Session
  pub ephemeral : Bytes
  pub stream_is : a.stream ≡ wrapped_stream connection
  pub session_is : connection.session ≡ some session
  pub allowed : is_authorized w.authorizer session.peer_public_key ≡ true
  pub shown : Shown c w.context ephemeral w.server_public_key session
  pub identified : key_of a.peer_identity ≡ some session.peer_public_key

-- A reply with a stream is one with a secure stream.
abbrev pub Secures : {S : Type 0} → Crypto → StreamWrapper → Reply (AuthenticatedStream S) → Type 0
Secures c w (returned a) = Secure c w a
Secures c w (failed_with e) = Unit {0}

timed-Secures :
    {S : Type 0} (c : Crypto) (w : StreamWrapper) (timeout : Option ℕ) (has_timer late : Bool)
    (r : Reply (AuthenticatedStream S))
    → Secures c w r
    → Secures c w (timed timeout has_timer late r)
timed-Secures c w none has_timer late r s = s
timed-Secures c w (some timeout) false late r s = tt
timed-Secures c w (some timeout) true true r s = tt
timed-Secures c w (some timeout) true false r s = s

module _ {c : Crypto} (laws : IsCrypto c) {S : Type 0} {io : AsyncIoStream S}
    (orderly : IsOrderly io) (w : StreamWrapper) where
  authenticated-Secures :
      (inner : PeerIdentity) (x : Bytes) (r : Reply (Unit {0}) × WrappedStream S)
      → Settled c w.context w.server_public_key w.authorizer x r
      → Secures c w (authenticated c io inner r)
  unfolding get_identity
  authenticated-Secures inner x (returned u, conn) (session, is, allowed, shown) = record {
    connection = conn;
    session = session;
    ephemeral = x;
    stream_is = refl;
    session_is = is;
    allowed = allowed;
    shown = shown;
    identified = rw is refl;
  }
  authenticated-Secures inner x (failed_with e, conn) settled = tt

  wrap_authenticated-Secures :
      (n : ℕ) (x : Bytes) (late : Bool) (stream : S) (inner : PeerIdentity)
      → 5 ≤ n
      → Secures c w (wrap_authenticated c io n w x late stream inner)
  unfolding wrap_authenticated
  wrap_authenticated-Secures n x late stream inner enough =
      timed-Secures c w w.connect_timeout w.has_timer late _ (
        authenticated-Secures inner x _
          (wrap-Settled laws orderly w.authorizer w.context x w.server_public_key n stream enough))

  wrap_accepted-Secures :
      (o : Option StreamWrapper) (n : ℕ) (x : Bytes) (late : Bool) (stream : S)
      (inner : PeerIdentity)
      → o ≡ some w
      → 5 ≤ n
      → Secures c w (wrap_accepted c io n o x late stream inner)
        × Secures c w (async_wrap c io n o x late stream inner)
  wrap_accepted-Secures none n x late stream inner is enough = cc
  wrap_accepted-Secures (some v) n x late stream inner is enough =
      let same : w ≡ v = cc in
      let secure = wrap_authenticated-Secures n x late stream inner enough in
      subst
        (λ v.
          Secures c w (wrap_accepted c io n (some v) x late stream inner)
          × Secures c w (async_wrap c io n (some v) x late stream inner))
        same (secure, secure)

-- A connection that a secure stream carries, with the main interface made for the peer's key.
abbrev pub Served :
    {S C : Type 0} → Crypto → StreamWrapper → (Option Bytes → C) → Connection S C → Type 0
Served c w factory k =
    Secure c w k.stream × (k.main_interface ≡ factory (key_of k.stream.peer_identity))

record Guards {S C : Type 0} (c : Crypto) (w : StreamWrapper) (factory : Option Bytes → C)
    (s : Server S C) : Type 0 where
  pub wrapper_is : s.wrapper ≡ some w
  pub factory_is : s.main_interface_factory ≡ factory
  pub secures : Every (λ m. Secures c w m.reply) s.making
  pub serves : Every (Served c w factory) s.connections

module _ {S C : Type 0} (c : Crypto) (w : StreamWrapper) (factory : Option Bytes → C) where
  add_making-Guards :
      (timer : Bool) (r : Reply (AuthenticatedStream S)) (s : Server S C)
      → Secures c w r
      → Guards c w factory s
      → Guards c w factory (add_making timer r s)
  add_making-Guards timer r s secure g = record {
    wrapper_is = g.wrapper_is;
    factory_is = g.factory_is;
    secures = (secure, g.secures);
    serves = g.serves;
  }

  accept_ended-Guards :
      (n : ℕ) (timer : Bool) (r : Reply (AuthenticatedStream S)) (s : Server S C)
      → Secures c w r
      → Guards c w factory s
      → Guards c w factory (accept_ended n timer r s)
  accept_ended-Guards zero timer r s secure g = g
  accept_ended-Guards (suc others) timer r s secure g = record {
    wrapper_is = g.wrapper_is;
    factory_is = g.factory_is;
    secures = (secure, g.secures);
    serves = g.serves;
  }

  failed-Guards :
      (e : Failure) (s : Server S C) → Guards c w factory s → Guards c w factory (task_failed e s)
  failed-Guards e s g = record {
    wrapper_is = g.wrapper_is;
    factory_is = g.factory_is;
    secures = g.secures;
    serves = g.serves;
  }

  accept_broken-Guards :
      (n : ℕ) (e : Failure) (s : Server S C)
      → Guards c w factory s
      → Guards c w factory (accept_broken n e s)
  accept_broken-Guards zero e s g = g
  accept_broken-Guards (suc others) e s g = record {
    wrapper_is = g.wrapper_is;
    factory_is = g.factory_is;
    secures = g.secures;
    serves = g.serves;
  }

  settle-Guards :
      (x : Option Failure) (r : Reply (AuthenticatedStream S)) (s : Server S C)
      → Secures c w r
      → Guards c w factory s
      → Guards c w factory (settle x r s)
  settle-Guards (some e) (returned a) s secure g = failed-Guards e s g
  settle-Guards none (returned a) s secure g = record {
    wrapper_is = g.wrapper_is;
    factory_is = g.factory_is;
    secures = g.secures;
    serves = ((secure, ap (λ f. f (key_of a.peer_identity)) g.factory_is), g.serves);
  }
  settle-Guards x (failed_with e) s secure g = failed-Guards e s g

  removed-Guards :
      (n : ℕ) (s : Server S C)
      → Guards c w factory s
      → Guards c w factory (record s { making = erase_idx s.making n })
  removed-Guards n s g = record {
    wrapper_is = g.wrapper_is;
    factory_is = g.factory_is;
    secures = erase_idx-Every (λ m. Secures c w m.reply) n s.making g.secures;
    serves = g.serves;
  }

  end_making-Guards :
      (n : ℕ) (x : Option Failure) (s : Server S C) (o : Option (Making S))
      → get_elem? s.making n ≡ o
      → Guards c w factory s
      → Guards c w factory (end_making n x o s)
  end_making-Guards n x s none is g = g
  end_making-Guards n x s (some m) is g =
      settle-Guards x m.reply _
        (get_elem?-Every (λ m. Secures c w m.reply) n s.making m g.secures is)
        (removed-Guards n s g)

  either-Guards :
      (b : Bool) (s s' : Server S C)
      → Guards c w factory s
      → Guards c w factory s'
      → Guards c w factory (if b then s else s')
  either-Guards true s s' g g' = g
  either-Guards false s s' g g' = g'

  expire-Guards :
      (n : ℕ) (s : Server S C) (o : Option (Making S))
      → Guards c w factory s
      → Guards c w factory (expire n o s)
  expire-Guards n s none g = g
  expire-Guards n s (some m) g =
      either-Guards m.has_timer _ s (failed-Guards operation_timed_out _ (removed-Guards n s g)) g

  listen-Guards :
      (r : Reply ℕ) (s : Server S C) → Guards c w factory s → Guards c w factory (listen r s)
  listen-Guards (returned port) s g = record {
    wrapper_is = g.wrapper_is;
    factory_is = g.factory_is;
    secures = g.secures;
    serves = g.serves;
  }
  listen-Guards (failed_with e) s g = record {
    wrapper_is = g.wrapper_is;
    factory_is = g.factory_is;
    secures = g.secures;
    serves = g.serves;
  }

module _ {c : Crypto} (laws : IsCrypto c) {S C : Type 0} {io : AsyncIoStream S}
    (orderly : IsOrderly io) (w : StreamWrapper) (factory : Option Bytes → C) (fuel : ℕ)
    (enough : 5 ≤ fuel) (null_reply : Reply (AuthenticatedStream S))
    (nothing_null : (a : AuthenticatedStream S) → null_reply ≢ returned a) where
  null-Secures : (r : Reply (AuthenticatedStream S)) → null_reply ≡ r → Secures c w r
  null-Secures (returned a) e = absurd (nothing_null a e)
  null-Secures (failed_with e) h = tt

  handle-Guards :
      (event : Event S) (s : Server S C)
      → Guards c w factory s
      → Guards c w factory (handle c io fuel null_reply event s)
  unfolding handle
  handle-Guards (parsed address) s g =
      either-Guards c w factory s.starting _ s (listen-Guards c w factory address s g) g
  handle-Guards (accepted (some e) x late stream inner) s g =
      accept_broken-Guards c w factory s.accepting e s g
  handle-Guards (accepted none x late stream inner) s g =
      accept_ended-Guards c w factory s.accepting true _ s
        (wrap_accepted-Secures laws orderly w s.wrapper fuel x late stream inner g.wrapper_is
          enough).0
        g
  handle-Guards (offered x late stream inner) s g =
      add_making-Guards c w factory false _ s
        (wrap_accepted-Secures laws orderly w s.wrapper fuel x late stream inner g.wrapper_is
          enough).1
        g
  handle-Guards (not_accepted e) s g =
      accept_ended-Guards c w factory s.accepting false null_reply s (null-Secures null_reply refl)
        g
  handle-Guards (not_offered e) s g = add_making-Guards c w factory false (failed_with e) s tt g
  handle-Guards (made n x) s g = end_making-Guards c w factory n x s (get_elem? s.making n) refl g
  handle-Guards (timed_out n) s g = expire-Guards c w factory n s (get_elem? s.making n) g
  handle-Guards (disconnected n) s g = record {
    wrapper_is = g.wrapper_is;
    factory_is = g.factory_is;
    secures = g.secures;
    serves = erase_idx-Every (Served c w factory) n s.connections g.serves;
  }

  serve-Guards :
      (events : List (Event S)) (s : Server S C)
      → Guards c w factory s
      → Guards c w factory (serve c io fuel null_reply events s)
  unfolding serve
  serve-Guards [] s g = g
  serve-Guards (event ∷ events) s g =
      serve-Guards events (handle c io fuel null_reply event s) (handle-Guards event s g)

  -- A server that has a wrapper, whatever streams come, however its peers answer on them and whichever
  -- timers fire, if the primitives behave as documented, the inner streams only return or fail with
  -- errors of their own, `read` returns just what it was asked for, each handshake may take five
  -- rounds, and the null promise of a failed accept yields no stream: every connection is on a stream
  -- that a handshake has secured, with a session of a peer that the authorizer accepts and that has
  -- signed what a client signs, its identity is that peer's key, and its main interface is the one
  -- made for this key.
  pub serve-Served :
      (events : List (Event S)) (listens : Bool)
      → Every
          (Served c w factory)
          (serve c io fuel null_reply events (new_server factory listens (some w))).connections
  serve-Served events listens =
      (serve-Guards events (new_server factory listens (some w))
        (record { wrapper_is = refl; factory_is = refl; secures = tt; serves = tt })).serves
