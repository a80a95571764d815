-- ===== src/Mux/Connection/Api/Ready.antt =====
-- The methods of a stream on a connection that is not ready.
use tunnel_weaver.Base.{ℕ, ◌≡◌, true, false, List, none, some, is_some, err}
use tunnel_weaver.Mux.Error.{StreamError}
use tunnel_weaver.Mux.Class.{Class}
use tunnel_weaver.Mux.Compress.{Compress}
use tunnel_weaver.Mux.Env.{Env}
use tunnel_weaver.Mux.Connection.{Connection, is_done}
use tunnel_weaver.Mux.Connection.Api.{
  not_ready, open_stream, send, finish, reset, recv_msg, set_class, Reply, when_ready,
}

-- Every method refuses with the error, and changes nothing.
abbrev pub Refuses : Env → Connection → StreamError → Type 0
Refuses env c e =
    ((class : Class) → open_stream env c class ≡ (c, err e))
    × ((id : ℕ) (msg : List ℕ) (compress : Compress) → send env c id msg compress ≡ (c, err e))
    × ((id : ℕ) → finish c id ≡ (c, err e))
    × ((id code : ℕ) → reset env c id code ≡ (c, err e))
    × ((id : ℕ) → recv_msg env c id ≡ (c, err e))
    × ((id : ℕ) (class : Class) → set_class c id class ≡ (c, err e))

when_ready_lem :
    {A : Type 0} (c : Connection) (next : Reply A) (e : StreamError)
    → not_ready c ≡ some e
    → when_ready c next ≡ (c, err e)
when_ready_lem c next e h = rw (h, when_ready)

Refuses-not_ready :
    (env : Env) (c : Connection) (e : StreamError) → not_ready c ≡ some e → Refuses env c e
unfolding open_stream send finish reset recv_msg set_class
Refuses-not_ready env c e h = (
  λ class. when_ready_lem c _ e h,
  λ id msg compress. when_ready_lem c _ e h,
  λ id. when_ready_lem c _ e h,
  λ id code. when_ready_lem c _ e h,
  λ id. when_ready_lem c _ e h,
  λ id class. when_ready_lem c _ e h,
)

-- On a closed connection all the methods of a stream refuse with `Closed`, and on an open one that
-- has not finished the handshake with `NotAuthenticated`; the connection stays as it is.
pub not_ready-Refuses :
    (env : Env) (c : Connection)
    → (is_some c.closed ≡ true → Refuses env c StreamError.closed)
      × (c.closed ≡ none → is_done c.hs ≡ false → Refuses env c StreamError.not_authenticated)
unfolding not_ready
not_ready-Refuses env c =
    (λ h. Refuses-not_ready env c _ (rw h), λ h d. Refuses-not_ready env c _ (rw (h, d)))
