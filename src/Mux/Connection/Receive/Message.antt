-- ===== src/Mux/Connection/Receive/Message.antt =====
-- A message that `send` cuts into payloads, put together again by `on_data`.
use mathlib.Core.List.{append_assoc}
use tunnel_weaver.Base.{
  ℕ, ◌+◌, ◌*◌, ◌≡◌, ◌≤◌, refl, subst, ap, sym, ◌∙◌, List, [], ◌∷◌, ◌++◌, none, some, true, false,
  length, IsU32, arith, nat_eq, lookup, insert, lookup-insert, is_empty, length-append, All,
  if_rule,
}
use tunnel_weaver.Mux.Class.{Class}
use tunnel_weaver.Mux.Compress.{Compress}
use tunnel_weaver.Mux.Flow.RecvWindow
use tunnel_weaver.Mux.Stream.{Stream}
use tunnel_weaver.Mux.Env.{Env}
use tunnel_weaver.Mux.Connection.{Connection, params_of}
use tunnel_weaver.Mux.Connection.Api.Chunks.{
  total, concat, total-fragments, concat-fragments, fragments-cons, fragments-All,
}
use tunnel_weaver.Mux.Connection.Api.{fragments, payload_of, payloads}
use tunnel_weaver.Mux.Connection.Receive.{on_data_payload, complete, decompress_cap_factor}
use tunnel_weaver.Mux.Connection.Receive.Payload.{
  IsZstd, flag, grown, counted, arrived, receive_lem,
}

-- The payloads are taken one after the other, none with an error.
pub data Delivered (env : Env) (id : ℕ) : Connection → List (List ℕ) → Connection → Type 0 where
  over : {c : Connection} → Delivered env id c [] c
  payload :
      {c d e : Connection} {p : List ℕ} {ps : List (List ℕ)}
      → on_data_payload env c id p ≡ (d, none)
      → Delivered env id d ps e
      → Delivered env id c (p ∷ ps) e

-- The whole message stands at the end of the stream's inbox, and nothing is left over.
pub record IsReceived (id : ℕ) (s : Stream) (msg : List ℕ) (d : Connection) : Type 0 where
  pub stream : Stream
  pub wire : ℕ
  pub present : lookup id d.streams ≡ some stream
  pub whole : stream.inbox ≡ s.inbox ++ ((msg, wire) ∷ [])
  pub nothing_left : stream.partial ≡ []

-- What lets a stream take a message's fragments.
pub record CanTake (c : Connection) (id : ℕ) (s : Stream) (chunks payloads : List (List ℕ))
    : Type 0 where
  pub present : lookup id c.streams ≡ some s
  pub open_there : s.remote_open ≡ true
  pub limits : All (λ chunk. length chunk ≤ (params_of c).max_frame * decompress_cap_factor) chunks
  pub room : total payloads ≤ s.recv.remaining
  pub word : IsU32 s.recv.remaining
  pub short : length s.partial + total chunks ≤ (params_of c).max_message

lookup-same : (id : ℕ) (s : Stream) (m : List (ℕ × Stream)) → lookup id (insert id s m) ≡ some s
lookup-same id s m = ground (arith, lookup-insert id id s m)

complete-IsReceived :
    (c : Connection) (id : ℕ) (s : Stream) → IsReceived id s s.partial (complete c id s)
unfolding complete
complete-IsReceived c id s =
    if_rule (IsReceived id s s.partial) (is_empty s.inbox) _ _
      (λ _. record {
        stream = _;
        wire = s.partial_wire;
        present = lookup-same id _ c.streams;
        whole = refl;
        nothing_left = refl;
      })
      (λ _. record {
        stream = _;
        wire = s.partial_wire;
        present = lookup-same id _ c.streams;
        whole = refl;
        nothing_left = refl;
      })

append_nil : (xs : List ℕ) → xs ++ [] ≡ xs
append_nil [] = refl
append_nil (x ∷ xs) = ap (◌∷◌ x) (append_nil xs)

module _ (sender env : Env) (law : IsZstd sender env) (id : ℕ) (stance : Compress)
    (class : Class) where
  -- The payloads of the fragments.
  cut : List (List ℕ) → List (List ℕ)
  cut chunks = payloads sender stance class chunks

  -- The stream after a fragment that another follows can take the rest.
  grown-CanTake :
      (c : Connection) (s : Stream) (x y : List ℕ) (rest : List (List ℕ))
      → CanTake c id s (x ∷ y ∷ rest) (cut (x ∷ y ∷ rest))
      → (let wire = length (payload_of sender stance class (flag true) x) in
          CanTake
            (arrived env c id s true x wire)
            id
            (grown env c id s x wire)
            (y ∷ rest)
            (cut (y ∷ rest)))
  unfolding arrived grown counted cut payloads RecvWindow.on_data
  grown-CanTake c s x y rest t =
      let wire = length (payload_of sender stance class 2 x) in
      record {
        present = lookup-same id _ c.streams;
        open_there = t.open_there;
        limits = t.limits.1;
        room = ground (arith, t.room);
        word = ground (arith, t.word);
        short = omega (arith, t.short, length-append s.partial x);
      }

  deliver_lem :
      (c : Connection) (s : Stream) (x : List ℕ) (rest : List (List ℕ))
      → CanTake c id s (x ∷ rest) (cut (x ∷ rest))
      → (d : Connection) × Delivered env id c (cut (x ∷ rest)) d
        × IsReceived id s (s.partial ++ concat (x ∷ rest)) d
  unfolding cut payloads arrived counted grown
  deliver_lem c s x [] t =
      let wire = length (payload_of sender stance class 0 x) in
      let taken =
        receive_lem sender env law id stance class c s false x t.present t.open_there t.limits.0
          (omega (arith, t.room)) t.word (omega (arith, t.short)) in
      let r = complete-IsReceived (counted env c id s wire) id (grown env c id s x wire) in
      (
        arrived env c id s false x wire,
        Delivered.payload taken Delivered.over,
        record {
          stream = r.stream;
          wire = r.wire;
          present = r.present;
          whole =
              r.whole ∙ ap (λ m. s.inbox ++ ((s.partial ++ m, r.wire) ∷ [])) (sym (append_nil x));
          nothing_left = r.nothing_left;
        },
      )
  deliver_lem c s x (y ∷ rest) t =
      let wire = length (payload_of sender stance class 2 x) in
      let taken =
        receive_lem sender env law id stance class c s true x t.present t.open_there t.limits.0
          (omega (arith, t.room)) t.word (omega (arith, t.short)) in
      let (d, ds, r) =
        deliver_lem (arrived env c id s true x wire) (grown env c id s x wire) y rest
          (grown-CanTake c s x y rest t) in
      (
        d,
        Delivered.payload taken ds,
        record {
          stream = r.stream;
          wire = r.wire;
          present = r.present;
          whole =
              r.whole
              ∙ ap (λ m. s.inbox ++ ((m, r.wire) ∷ []))
                  (append_assoc s.partial x (concat (y ∷ rest)));
          nothing_left = r.nothing_left;
        },
      )

-- What a sender makes of a message is received as that message. The fragments are of `n` bytes, which
-- the receiver's frame limit admits; the receiver has no message under way, credit for the payloads
-- and a message limit that the message respects; and zstd decompresses what zstd compressed. Then
-- the payloads are taken one after the other without an error, and at the end the message, and no
-- more, has been added to the stream's inbox.
pub payloads-IsReceived :
    (sender env : Env) (c : Connection) (id : ℕ) (s : Stream) (stance : Compress) (class : Class)
    (n : ℕ) (msg : List ℕ)
    → IsZstd sender env
    → 1 ≤ n
    → lookup id c.streams ≡ some s
    → s.remote_open ≡ true
    → s.partial ≡ []
    → n ≤ (params_of c).max_frame
    → total (payloads sender stance class (fragments n msg)) ≤ s.recv.remaining
    → IsU32 s.recv.remaining
    → length msg ≤ (params_of c).max_message
    → (d : Connection) × Delivered env id c (payloads sender stance class (fragments n msg)) d
      × IsReceived id s msg d
unfolding cut
payloads-IsReceived sender env c id s stance class n msg law hn l o e hf room word short =
    let (x, rest, f) = fragments-cons n msg in
    let Small : List ℕ → Type 0 = λ chunk. length chunk ≤ (params_of c).max_frame * 8 in
    let (d, ds, r) = deliver_lem sender env law id stance class c s x rest (record {
      present = l;
      open_there = o;
      limits = subst (All Small) f (fragments-All Small n msg hn (λ chunk h. omega (arith, h, hf)));
      room =
          subst (λ chunks. total (payloads sender stance class chunks) ≤ s.recv.remaining) f room;
      word = word;
      short = omega (arith, short, ap length e, ap total f, total-fragments n msg hn);
    }) in
    let whole : s.partial ++ concat (x ∷ rest) ≡ msg =
      ap (λ p. p ++ concat (x ∷ rest)) e ∙ ap concat (sym f) ∙ concat-fragments n msg hn in
    (
      d,
      subst (λ chunks. Delivered env id c (payloads sender stance class chunks) d) (sym f) ds,
      subst (λ m. IsReceived id s m d) whole r,
    )
