-- ===== src/Mux/Connection/Transmit/Credit.antt =====
-- What `poll_transmit` takes from the credit of a stream.
use tunnel_weaver.Base.{
  ℕ, ◌+◌, ◌≡◌, refl, List, [], ◌∷◌, Option, none, some, Option-cases, inl, inr, length, u32, arith,
  if_rule, nat_eq, lookup, insert, lookup-insert, lookup-remove, if◌then◌else◌, AllValues-insert,
  AllValues-lookup, AllValues-remove, is_some, not, sub32, ap, ◌&&◌,
}
use tunnel_weaver.Mux.Frame.{Frame}
use tunnel_weaver.Mux.Flow.SendWindow
use tunnel_weaver.Mux.Stream.{Stream, head_len, is_finished}
use tunnel_weaver.Mux.Sched.Tree.{Pick, pick, pop_control}
use tunnel_weaver.Mux.Connection.{Connection, drop_stream, maybe_forget, queue_fin}
use tunnel_weaver.Mux.Connection.Api.Chunks.{total}
use tunnel_weaver.Mux.Connection.Api.Credit.{IsBacked, AllBacked}
use tunnel_weaver.Mux.Connection.Transmit.{
  on_open_sent, transmit_control, transmit_payload, transmit_front, transmit_stream, transmit_pick,
  transmit_from, poll_transmit, is_open,
}

-- The stream that `transmit_payload` leaves.
after_payload : Stream → List ℕ → List (List ℕ) → Stream
after_payload s payload rest = record s {
  outbox = rest;
  outbox_bytes = sub32 s.outbox_bytes (u32 (length payload));
  send = SendWindow.consume s.send (u32 (length payload));
}

after_payload-IsBacked :
    (s : Stream) (payload : List ℕ) (rest : List (List ℕ))
    → s.outbox ≡ payload ∷ rest
    → IsBacked s
    → IsBacked (after_payload s payload rest)
unfolding after_payload SendWindow.consume
after_payload-IsBacked s payload rest e b =
    let t = ap total e in
    record {
      counted = omega (arith, t, b.counted, b.paid, b.word);
      paid = omega (arith, t, b.counted, b.paid, b.word);
      word = omega (arith, b.word);
    }

pub drop_stream-AllBacked : (c : Connection) (id : ℕ) → AllBacked c → AllBacked (drop_stream c id)
unfolding drop_stream
drop_stream-AllBacked c id h = elim (Option-cases (lookup id c.streams)) [
  | inl l ↦ rw (l, drop_stream) h
  | inr (s, l) ↦ rw (l, drop_stream) (AllValues-remove IsBacked id c.streams h)
]

pub maybe_forget-AllBacked : (c : Connection) (id : ℕ) → AllBacked c → AllBacked (maybe_forget c id)
unfolding maybe_forget
maybe_forget-AllBacked c id h = elim (Option-cases (lookup id c.streams)) [
  | inl l ↦ rw (l, maybe_forget) h
  | inr (s, l) ↦
      rw (l, maybe_forget)
        (if_rule AllBacked (is_finished s) _ _ (λ _. drop_stream-AllBacked c id h) (λ _. h))
]

on_open_sent-AllBacked : (c : Connection) (id : ℕ) → AllBacked c → AllBacked (on_open_sent c id)
unfolding on_open_sent
on_open_sent-AllBacked c id h = elim (Option-cases (lookup id c.streams)) [
  | inl l ↦ rw (l, on_open_sent) h
  | inr (s, l) ↦
      let b = AllValues-lookup IsBacked id c.streams s h l in
      rw (l, on_open_sent)
        (AllValues-insert IsBacked id _ c.streams
          (record { counted = b.counted; paid = b.paid; word = b.word }) h)
]

transmit_payload-AllBacked :
    (c : Connection) (id : ℕ) (s : Stream) (payload : List ℕ) (rest : List (List ℕ))
    → s.outbox ≡ payload ∷ rest
    → IsBacked s
    → AllBacked c
    → AllBacked (transmit_payload c id s payload rest)
unfolding transmit_payload queue_fin after_payload
transmit_payload-AllBacked c id s payload rest e b h =
    let put =
      AllValues-insert IsBacked id _ c.streams (after_payload-IsBacked s payload rest e b) h in
    maybe_forget-AllBacked _ id (
      if_rule AllBacked
        (not (is_some (head_len (after_payload s payload rest))) && not s.local_open) _ _ (λ _. put)
        (λ _. put))

transmit_control-AllBacked : (c : Connection) → AllBacked c → AllBacked (transmit_control c).0
unfolding transmit_control
transmit_control-AllBacked c h =
    let c1 = record c { sched = (pop_control c.sched).0 } in
    let P : Connection × Option (List ℕ) → Type 0 = λ r. AllBacked r.0 in
    elim (Option-cases (pop_control c.sched).1) [
      | inl p ↦ rw (p, transmit_control) h
      | inr (frame, p) ↦
          rw (p, transmit_control)
            (if_rule AllBacked (is_open frame.frame_type) _ _
              (λ _. on_open_sent-AllBacked c1 frame.stream_id h) (λ _. h))
    ]

transmit_front-AllBacked :
    (c : Connection) (id : ℕ) (s : Stream) (outbox : List (List ℕ))
    → s.outbox ≡ outbox
    → IsBacked s
    → AllBacked c
    → AllBacked (transmit_front c id s outbox).0
transmit_front-AllBacked c id s [] e b h = h
transmit_front-AllBacked c id s (payload ∷ rest) e b h =
    transmit_payload-AllBacked c id s payload rest e b h

transmit_stream-AllBacked :
    (c : Connection) (id : ℕ) → AllBacked c → AllBacked (transmit_stream c id).0
unfolding transmit_stream
transmit_stream-AllBacked c id h = elim (Option-cases (lookup id c.streams)) [
  | inl l ↦ rw (l, transmit_stream) h
  | inr (s, l) ↦
      rw (l, transmit_stream)
        (transmit_front-AllBacked c id s s.outbox refl
          (AllValues-lookup IsBacked id c.streams s h l) h)
]

transmit_pick-AllBacked :
    (c : Connection) (p : Option Pick) → AllBacked c → AllBacked (transmit_pick c p).0
transmit_pick-AllBacked c none h = h
transmit_pick-AllBacked c (some Pick.control) h = transmit_control-AllBacked c h
transmit_pick-AllBacked c (some (Pick.stream id)) h = transmit_stream-AllBacked c id h

transmit_from-AllBacked :
    (c : Connection) (out : List Frame) → AllBacked c → AllBacked (transmit_from c out).0
transmit_from-AllBacked c [] h = transmit_pick-AllBacked _ (pick c.sched).1 h
transmit_from-AllBacked c (frame ∷ rest) h = h

-- `poll_transmit`, whatever it sends, leaves each stream with an outbox that its credit pays for in
-- full, with `outbox_bytes` the exact count, if it was so before.
pub poll_transmit-AllBacked : (c : Connection) → AllBacked c → AllBacked (poll_transmit c).0
unfolding poll_transmit
poll_transmit-AllBacked c h = transmit_from-AllBacked c c.priority_out h

-- What sending a payload makes of its stream: the payload leaves the outbox, and its length is taken
-- from the credit and from `outbox_bytes` with nothing cut off.
pub record IsSent (s : Stream) (payload : List ℕ) (rest : List (List ℕ)) (t : Stream) : Type 0 where
  pub left : t.outbox ≡ rest
  pub charged : t.send.credit + length payload ≡ s.send.credit
  pub counted : t.outbox_bytes + length payload ≡ s.outbox_bytes

after_payload-IsSent :
    (s : Stream) (payload : List ℕ) (rest : List (List ℕ))
    → s.outbox ≡ payload ∷ rest
    → IsBacked s
    → IsSent s payload rest (after_payload s payload rest)
unfolding after_payload SendWindow.consume
after_payload-IsSent s payload rest e b =
    let t = ap total e in
    record {
      left = refl;
      charged = omega (arith, t, b.counted, b.paid, b.word);
      counted = omega (arith, t, b.counted, b.paid, b.word);
    }

lookup-drop_stream :
    (c : Connection) (id : ℕ) (s : Stream)
    → lookup id c.streams ≡ some s
    → lookup id (drop_stream c id).streams ≡ none
unfolding drop_stream
lookup-drop_stream c id s h = rw (h, drop_stream) (ground (arith, lookup-remove id id c.streams))

lookup-maybe_forget :
    (c : Connection) (id : ℕ) (s : Stream)
    → lookup id c.streams ≡ some s
    → lookup id (maybe_forget c id).streams ≡ (if is_finished s then none else some s)
unfolding maybe_forget
lookup-maybe_forget c id s h =
    let P : Connection → Type 0 =
      λ d. lookup id d.streams ≡ (if is_finished s then none else some s) in
    rw (h, maybe_forget)
      (if_rule P (is_finished s) _ _ (λ b. rw (b, lookup-drop_stream c id s h)) (λ b. rw (b, h)))

-- Sending the next payload of a stream whose outbox its credit pays for takes exactly the payload's
-- length from the credit and from `outbox_bytes`; the stream stays in the connection with the rest
-- of its outbox, unless it has finished: then it is forgotten.
pub transmit_payload-IsSent :
    (c : Connection) (id : ℕ) (s : Stream) (payload : List ℕ) (rest : List (List ℕ))
    → s.outbox ≡ payload ∷ rest
    → IsBacked s
    → (t : Stream) × IsSent s payload rest t
      × (lookup id (transmit_payload c id s payload rest).streams
          ≡ (if is_finished t then none else some t))
unfolding transmit_payload queue_fin after_payload
transmit_payload-IsSent c id s payload rest e b =
    let t = after_payload s payload rest in
    let P : Connection → Type 0 = λ d. lookup id d.streams ≡ some t in
    let put : lookup id (insert id t c.streams) ≡ some t =
      ground (arith, lookup-insert id id t c.streams) in
    (
      t,
      after_payload-IsSent s payload rest e b,
      lookup-maybe_forget _ id t
          (if_rule P (not (is_some (head_len t)) && not s.local_open) _ _ (λ _. put) (λ _. put)),
    )
