-- ===== src/Mux/Connection/Receive/Payload.antt =====
-- One payload that `send` made of a fragment, as `on_data` takes it.
use Prim.Native.Nat.{bit_and}
use tunnel_weaver.Base.{
  ℕ, suc, ◌+◌, ◌*◌, ◌≡◌, ◌≤◌, refl, ◌==◌, ap, List, ◌∷◌, ◌++◌, none, some, inl, inr, ◌⊎◌, Bool,
  true, false, not, length, u32, IsU32, arith, nat_eq, lookup, ok, sat_add32, if_rule,
}
use tunnel_weaver.Mux.Class.{Class}
use tunnel_weaver.Mux.Compress.{Compress}
use tunnel_weaver.Mux.Flow.RecvWindow
use tunnel_weaver.Mux.Stream.{Stream}
use tunnel_weaver.Mux.Env.{Env}
use tunnel_weaver.Mux.Connection.{Connection, put_stream, add_report, params_of, stream_mut}
use tunnel_weaver.Mux.Connection.Api.{payload_of, compressed}
use tunnel_weaver.Mux.Connection.Handshake.{Outcome}
use tunnel_weaver.Mux.Connection.Receive.{
  on_data_payload, on_payload, body_of, take_data, reassemble, complete, decompress_cap_factor,
}

-- What zstd documents: a fragment that one side compressed is what the other side decompresses, where
-- its limit lets it through.
abbrev pub IsZstd : Env → Env → Type 0
IsZstd sender receiver =
    (chunk z : List ℕ) (cap : ℕ)
    → sender.zstd_compress chunk ≡ some z
    → length chunk ≤ cap
    → receiver.zstd_decompress z cap ≡ some chunk

-- The flags of a fragment that is, or is not, followed by another.
abbrev pub flag : Bool → ℕ
flag true = 2
flag false = 0

module _ (env : Env) (c : Connection) (id : ℕ) (s : Stream) where
  -- The stream with one more fragment, of so many bytes on the wire.
  unfoldable pub grown : List ℕ → ℕ → Stream
  grown bytes wire = record s {
    recv = (RecvWindow.on_data s.recv wire).0;
    partial = s.partial ++ bytes;
    partial_wire = sat_add32 s.partial_wire wire;
  }

  unfoldable pub counted : ℕ → Connection
  counted wire = record c {
    bytes_sink = add_report c.bytes_sink (record { id = id; bytes_in = wire; bytes_out = 0 });
  }

  unfoldable pub arrived : Bool → List ℕ → ℕ → Connection
  arrived true bytes wire = put_stream (counted wire) id (grown bytes wire)
  arrived false bytes wire = complete (counted wire) id (grown bytes wire)

  reassemble_lem :
      (more : Bool) (bytes : List ℕ) (wire : ℕ)
      → length s.partial + length bytes ≤ (params_of c).max_message
      → reassemble
          (counted wire)
          id
          (record s { recv = (RecvWindow.on_data s.recv wire).0 })
          wire
          more
          bytes
        ≡ (arrived more bytes wire, none)
  unfolding reassemble arrived grown counted
  reassemble_lem true bytes wire h = ground arith
  reassemble_lem false bytes wire h = ground arith

  take_data_lem :
      (more : Bool) (bytes : List ℕ) (wire : ℕ)
      → s.remote_open ≡ true
      → wire ≤ s.recv.remaining
      → length s.partial + length bytes ≤ (params_of c).max_message
      → take_data c id s wire more bytes ≡ (arrived more bytes wire, none)
  unfolding take_data counted
  take_data_lem more bytes wire o w h =
      let P : Outcome → Type 0 = λ d. d ≡ (arrived more bytes wire, none) in
      if_rule P (not s.remote_open) _ _ (λ b. absurd (ground arith))
        (λ _.
          if_rule P (not (RecvWindow.on_data s.recv wire).1) _ _
            (λ b. absurd (unfold RecvWindow.on_data in ground arith))
            (λ _. reassemble_lem more bytes wire h))

  on_payload_lem :
      (flags : ℕ) (body bytes : List ℕ)
      → (bit_and flags 0xfc == 0) ≡ true
      → body_of env c id flags body ≡ ok bytes
      → lookup id c.streams ≡ some s
      → s.remote_open ≡ true
      → suc (length body) ≤ s.recv.remaining
      → IsU32 s.recv.remaining
      → length s.partial + length bytes ≤ (params_of c).max_message
      → on_payload env c id flags body
        ≡ (arrived (not (bit_and flags 2 == 0)) bytes (suc (length body)), none)
  unfolding stream_mut on_payload arrived
  on_payload_lem flags body bytes f b l o w word h =
      let word_len : u32 (length body + 1) ≡ suc (length body) = omega arith in
      rw (f, b, l, word_len, on_payload)
        (take_data_lem (not (bit_and flags 2 == 0)) bytes (suc (length body)) o w h)

-- The two forms of a payload.
payload_of-cases :
    (env : Env) (stance : Compress) (class : Class) (more : Bool) (chunk : List ℕ)
    → (payload_of env stance class (flag more) chunk ≡ flag more ∷ chunk)
      ⊎ ((z : List ℕ) × (payload_of env stance class (flag more) chunk ≡ suc (flag more) ∷ z)
          × (env.zstd_compress chunk ≡ some z))
unfolding payload_of compressed
payload_of-cases env stance class true chunk = ground arith
payload_of-cases env stance class false chunk = ground arith

module _ (sender env : Env) (law : IsZstd sender env) (id : ℕ) (stance : Compress)
    (class : Class) where
  -- A payload that the sender made of a fragment is taken as that fragment.
  pub receive_lem :
      (c : Connection) (s : Stream) (more : Bool) (chunk : List ℕ)
      → lookup id c.streams ≡ some s
      → s.remote_open ≡ true
      → length chunk ≤ (params_of c).max_frame * decompress_cap_factor
      → length (payload_of sender stance class (flag more) chunk) ≤ s.recv.remaining
      → IsU32 s.recv.remaining
      → length s.partial + length chunk ≤ (params_of c).max_message
      → on_data_payload env c id (payload_of sender stance class (flag more) chunk) ≡ (
        arrived env c id s more chunk (length (payload_of sender stance class (flag more) chunk)),
        none,
      )
  unfolding body_of
  receive_lem c s true chunk l o small w word h =
      elim (payload_of-cases sender stance class true chunk) [
        | inl e ↦
            let w' : suc (length chunk) ≤ s.recv.remaining = omega (arith, w, ap length e) in
            rw e (on_payload_lem env c id s 2 chunk chunk refl refl l o w' word h)
        | inr (z, e, q) ↦
            let w' : suc (length z) ≤ s.recv.remaining = omega (arith, w, ap length e) in
            rw e (
              on_payload_lem env c id s 3 z chunk refl (rw (body_of, law chunk z _ q small)) l o w'
                word h)
      ]
  receive_lem c s false chunk l o small w word h =
      elim (payload_of-cases sender stance class false chunk) [
        | inl e ↦
            let w' : suc (length chunk) ≤ s.recv.remaining = omega (arith, w, ap length e) in
            rw e (on_payload_lem env c id s 0 chunk chunk refl refl l o w' word h)
        | inr (z, e, q) ↦
            let w' : suc (length z) ≤ s.recv.remaining = omega (arith, w, ap length e) in
            rw e (
              on_payload_lem env c id s 1 z chunk refl (rw (body_of, law chunk z _ q small)) l o w'
                word h)
      ]
