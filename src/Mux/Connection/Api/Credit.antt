-- ===== src/Mux/Connection/Api/Credit.antt =====
-- The outbox of a stream against its send credit.
use tunnel_weaver.Base.{
  ℕ, suc, ◌+◌, ◌≡◌, ◌≤◌, refl, List, [], ◌∷◌, ◌++◌, Option, false, ltb, not, length, arith, u32,
  IsU32, if_rule, nat_eq, AllValues, Result, AllValues-insert, AllValues-lookup, sub64, u64,
}
use tunnel_weaver.Mux.Error.{StreamError}
use tunnel_weaver.Mux.Class.{Class, class_beq}
use tunnel_weaver.Mux.Compress.{Compress}
use tunnel_weaver.Mux.Stream.{Stream, free_credit}
use tunnel_weaver.Mux.Env.{Env}
use tunnel_weaver.Mux.Connection.{Connection, Report, params_of}
use tunnel_weaver.Mux.Connection.Api.{
  compressed, payload_of, payloads, enqueue, fragments, worst_case, schedule, send_on, send,
  stance_of,
}
use tunnel_weaver.Mux.Connection.Api.Rules.{when_ready_rule, with_stream_rule}
use tunnel_weaver.Mux.Connection.Api.Chunks.{total, total-fragments, length-fragments}

-- What `outbox_bytes` counts, and that the credit pays for all of it.
pub record IsBacked (s : Stream) : Type 0 where
  pub counted : s.outbox_bytes ≡ total s.outbox
  pub paid : s.outbox_bytes ≤ s.send.credit
  pub word : IsU32 s.send.credit

total-append : (ps qs : List (List ℕ)) → total (ps ++ qs) ≡ total ps + total qs
total-append [] qs = omega arith
total-append (p ∷ ps) qs = omega (arith, total-append ps qs)

-- A payload is at most the flags and its fragment: compression is used only where it saves.
length-payload_of :
    (env : Env) (stance : Compress) (class : Class) (more : ℕ) (chunk : List ℕ)
    → length (payload_of env stance class more chunk) ≤ suc (length chunk)
unfolding payload_of compressed
length-payload_of env stance class more chunk = ground arith

total-payloads :
    (env : Env) (stance : Compress) (class : Class) (chunks : List (List ℕ))
    → total (payloads env stance class chunks) ≤ total chunks + length chunks
unfolding payloads
total-payloads env stance class [] = omega arith
total-payloads env stance class (x ∷ []) = omega (arith, length-payload_of env stance class 0 x)
total-payloads env stance class (x ∷ y ∷ rest) =
    omega
      (arith, length-payload_of env stance class 2 x, total-payloads env stance class (y ∷ rest))

-- Queuing payloads that fit into a word.
enqueue-IsBacked :
    (id : ℕ) (ps : List (List ℕ)) (s : Stream) (sink : Option (List Report))
    → IsBacked s
    → s.outbox_bytes + total ps ≤ s.send.credit
    → IsBacked (enqueue id ps (s, sink)).0
unfolding enqueue
enqueue-IsBacked id [] s sink b h = b
enqueue-IsBacked id (p ∷ ps) s sink b h =
    let fits : u32 (s.outbox_bytes + u32 (length p)) ≡ s.outbox_bytes + length p =
      omega (arith, b.paid, b.word) in
    enqueue-IsBacked id ps _ _
      (record {
        counted = omega (arith, fits, b.counted, total-append s.outbox (p ∷ []));
        paid = omega (arith, fits);
        word = b.word;
      })
      (omega (arith, fits))

-- The payloads of a message fit into the credit that `send` asks for.
total-message :
    (env : Env) (stance : Compress) (class : Class) (n : ℕ) (msg : List ℕ)
    → 1 ≤ n
    → total (payloads env stance class (fragments n msg)) ≤ worst_case n (length msg)
unfolding worst_case
total-message env stance class n msg hn = omega (
  arith,
  total-payloads env stance class (fragments n msg),
  total-fragments n msg hn,
  length-fragments n msg hn,
)

-- Every stream of a connection is backed.
abbrev pub AllBacked : Connection → Type 0
AllBacked c = AllValues IsBacked c.streams

schedule-AllBacked :
    (c : Connection) (id : ℕ) (s : Stream) → IsBacked s → AllBacked c → AllBacked (schedule c id s)
unfolding schedule
schedule-AllBacked c id s b h =
    if_rule AllBacked (class_beq _ s.class) _ _ (λ _. AllValues-insert IsBacked id s c.streams b h)
      (λ _.
        AllValues-insert IsBacked id _ c.streams
          (record { counted = b.counted; paid = b.paid; word = b.word }) h)

queued_fits :
    (free : ℕ) (s : Stream) (queued : List (List ℕ)) (worst : ℕ)
    → free ≡ free_credit s
    → IsBacked s
    → total queued ≤ worst
    → ltb free worst ≡ false
    → s.outbox_bytes + total queued ≤ s.send.credit
unfolding free_credit
queued_fits free s queued worst e b h fits = ground (arith, b.paid)

send_on-AllBacked :
    (env : Env) (c : Connection) (id : ℕ) (s : Stream) (msg : List ℕ) (compress : Compress)
    → 2 ≤ (params_of c).max_frame
    → IsU32 (params_of c).max_frame
    → IsBacked s
    → AllBacked c
    → AllBacked (send_on env c id s msg compress).0
unfolding send_on free_credit
send_on-AllBacked env c id s msg compress h2 hf b h =
    let n = sub64 (params_of c).max_frame 1 in
    let queued =
      payloads env (stance_of (params_of c).compression_allowed compress) s.class
        (fragments n msg) in
    let P : Connection × Result StreamError (Unit {0}) → Type 0 = λ r. AllBacked r.0 in
    if_rule P (ltb (free_credit s) (worst_case n (length msg))) _ _
      (λ _.
        AllValues-insert IsBacked id _ c.streams
          (record { counted = b.counted; paid = b.paid; word = b.word }) h)
      (λ fits.
        let room =
          queued_fits (free_credit s) s queued (worst_case n (length msg)) refl b
            (total-message env _ s.class n msg (omega (arith, h2, hf))) fits in
        let e = enqueue-IsBacked id queued s c.bytes_sink b room in
        let q = enqueue id queued (s, c.bytes_sink) in
        schedule-AllBacked (record c { bytes_sink = q.1 }) id
          (record (q.0) { written_total = u64 (q.0.written_total + length msg) })
          (record { counted = e.counted; paid = e.paid; word = e.word }) h)

-- `send`, on every branch, leaves each stream with an outbox that its credit pays for in full, with
-- `outbox_bytes` the exact count, if it was so before; the frame limit is a word of at least 2.
pub send-AllBacked :
    (env : Env) (c : Connection) (id : ℕ) (msg : List ℕ) (compress : Compress)
    → 2 ≤ (params_of c).max_frame
    → IsU32 (params_of c).max_frame
    → AllBacked c
    → AllBacked (send env c id msg compress).0
unfolding send
send-AllBacked env c id msg compress h2 hf h =
    let P : Connection × Result StreamError (Unit {0}) → Type 0 = λ r. AllBacked r.0 in
    when_ready_rule P c _ (λ e _. h)
      (λ _.
        if_rule P (ltb (params_of c).max_message (length msg)) _ _ (λ _. h)
          (λ _. with_stream_rule P c id _ h (λ s l.
            if_rule P (not s.local_open) _ _ (λ _. h)
              (λ _.
                send_on-AllBacked env c id s msg compress h2 hf
                  (AllValues-lookup IsBacked id c.streams s h l) h))))
