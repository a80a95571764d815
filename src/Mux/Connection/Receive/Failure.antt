-- ===== src/Mux/Connection/Receive/Failure.antt =====
-- The errors of `recv`.
use tunnel_weaver.Base.{ℕ, ◌≡◌, true, List, none, some, is_some, Result-cases, inl, inr, if_rule}
use tunnel_weaver.Mux.Frame.{parse}
use tunnel_weaver.Mux.Error.{ProtocolError}
use tunnel_weaver.Mux.Env.{Env}
use tunnel_weaver.Mux.Connection.{Connection}
use tunnel_weaver.Mux.Connection.Close.{fail}
use tunnel_weaver.Mux.Connection.Close.Laws.{closed-close_internal}
use tunnel_weaver.Mux.Connection.Handshake.{Outcome}
use tunnel_weaver.Mux.Connection.Receive.{recv, fail_on}

closed-fail_on :
    (env : Env) (o : Outcome) (e : ProtocolError)
    → (fail_on env o).1 ≡ some e
    → is_some (fail_on env o).0.closed ≡ true
unfolding fail
closed-fail_on env (c, none) e h = cc
closed-fail_on env (c, some x) e h = closed-close_internal env c _ true

-- An error of `recv` is fatal: whatever the frame was and whatever its handler had done, the
-- connection is closed when `recv` returns one.
pub closed-recv :
    (env : Env) (c : Connection) (now : ℕ) (bytes : List ℕ) (e : ProtocolError)
    → (recv env c now bytes).1 ≡ some e
    → is_some (recv env c now bytes).0.closed ≡ true
unfolding recv
closed-recv env c now bytes e =
    let P : Outcome → Type 0 = λ o. o.1 ≡ some e → is_some o.0.closed ≡ true in
    if_rule P (is_some c.closed) _ _ (λ b h. b)
      (λ b. elim (Result-cases (parse bytes)) [
        | inl (frame, p) ↦ rw (p, recv) (closed-fail_on env _ e)
        | inr (x, p) ↦ rw (p, recv) (closed-fail_on env (_, some x) e)
      ])
