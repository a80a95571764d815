-- ===== src/Mux/Connection/Api/Rules.antt =====
-- What holds after a call, from what holds where it is refused and where it goes on.
use tunnel_weaver.Base.{ℕ, ◌≡◌, none, some, Option-cases, inl, inr, err, nat_eq, lookup}
use tunnel_weaver.Mux.Error.{StreamError}
use tunnel_weaver.Mux.Stream.{Stream}
use tunnel_weaver.Mux.Connection.{Connection}
use tunnel_weaver.Mux.Connection.Api.{Reply, not_ready, when_ready, with_stream}

module _ {A : Type 0} (P : Reply A → Type 0) (c : Connection) where
  pub when_ready_rule :
      (next : Reply A)
      → ((e : StreamError) → not_ready c ≡ some e → P (c, err e))
      → (not_ready c ≡ none → P next)
      → P (when_ready c next)
  when_ready_rule next refused goes_on = elim (Option-cases (not_ready c)) [
    | inl h ↦ rw (h, when_ready) (goes_on h)
    | inr (e, h) ↦ rw (h, when_ready) (refused e h)
  ]

  pub with_stream_rule :
      (id : ℕ) (next : Stream → Reply A)
      → P (c, err StreamError.unknown_stream)
      → ((s : Stream) → lookup id c.streams ≡ some s → P (next s))
      → P (with_stream c id next)
  with_stream_rule id next refused goes_on = elim (Option-cases (lookup id c.streams)) [
    | inl h ↦ rw (h, with_stream) refused
    | inr (s, h) ↦ rw (h, with_stream) (goes_on s h)
  ]
