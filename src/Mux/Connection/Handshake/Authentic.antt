-- ===== src/Mux/Connection/Handshake/Authentic.antt =====
-- What `on_hello` has checked of a peer when it ends the handshake.
use tunnel_weaver.Base.{
  ℕ, ◌≡◌, refl, true, false, none, some, ok, if_rule, not, Option-cases, Result-cases, inl, inr,
  unwrap_or, String,
}
use tunnel_weaver.Mux.FrameType.{FrameType}
use tunnel_weaver.Mux.Frame.{Frame}
use tunnel_weaver.Mux.Error.{RejectCode}
use tunnel_weaver.Mux.Wire.{Params, Hello, decode_payload}
use tunnel_weaver.Mux.Config.{Role}
use tunnel_weaver.Mux.Handshake.{negotiate}
use tunnel_weaver.Mux.Auth.{transcript, verify}
use tunnel_weaver.Mux.Env.{Env, PublicKey}
use tunnel_weaver.Mux.Connection.{Connection, is_done}
use tunnel_weaver.Mux.Connection.Close.{reject}
use tunnel_weaver.Mux.Connection.Close.Laws.{hs-close_internal}
use tunnel_weaver.Mux.Connection.Handshake.{
  on_hello, on_hello_as, is_challenge_sent, answer_hello, check_hello, finish_handshake, Outcome,
}

-- What a server has checked of the peer that it authenticates by a frame: the frame is a HELLO, its
-- key is known to the verifier, the signature is one of this connection's transcript under that key,
-- and the version is one that both speak. The state records exactly this key and version.
pub record IsAuthentic (env : Env) (c : Connection) (frame : Frame) (d : Connection) : Type 0 where
  pub hello : Hello
  pub pk : PublicKey
  pub version : ℕ
  pub decoded : decode_payload env.hello_codec FrameType.hello frame.payload ≡ ok hello
  pub known : env.public_key hello.key_id ≡ some pk
  pub signed :
      verify env hello.key_id pk
        (transcript
          (unwrap_or c.nonce_s env.nonce)
          hello.nonce_c
          c.cfg.server_name
          c.cfg.channel_binding)
        hello.sig
      ≡ true
  pub agreed : negotiate hello.version ≡ ok version
  pub key_is : d.key_id ≡ some hello.key_id
  pub version_is : d.version ≡ some version

hs-reject :
    (env : Env) (c : Connection) (code : RejectCode) (m : String) → (reject env c code m).hs ≡ c.hs
unfolding reject
hs-reject env c code m = rw hs-close_internal

module _ (env : Env) (c : Connection) (frame : Frame) where
  -- An outcome authenticates nobody, or an authentic peer.
  Sound : Outcome → Type 0
  Sound d = is_done d.0.hs ≡ true → IsAuthentic env c frame d.0

  Sound-same : (d : Outcome) → is_done c.hs ≡ false → d.0.hs ≡ c.hs → Sound d
  unfolding Sound
  Sound-same d h e = λ done. cc

  Sound-reject :
      (code : RejectCode) (m : String) → is_done c.hs ≡ false → Sound (reject env c code m, none)
  Sound-reject code m h = Sound-same (reject env c code m, none) h (hs-reject env c code m)

  check_hello-Sound :
      (now : ℕ) (params : Params) (hello : Hello) (version : ℕ) (pk : PublicKey)
      → is_done c.hs ≡ false
      → decode_payload env.hello_codec FrameType.hello frame.payload ≡ ok hello
      → negotiate hello.version ≡ ok version
      → env.public_key hello.key_id ≡ some pk
      → Sound (check_hello env c now params hello version pk)
  unfolding check_hello finish_handshake Sound
  check_hello-Sound now params hello version pk h d n k =
      if_rule Sound
        (verify env hello.key_id pk
          (transcript (unwrap_or c.nonce_s env.nonce) hello.nonce_c c.cfg.server_name
            c.cfg.channel_binding)
          hello.sig)
        _ _
        (λ s _. record {
          hello = hello;
          pk = pk;
          version = version;
          decoded = d;
          known = k;
          signed = s;
          agreed = n;
          key_is = refl;
          version_is = refl;
        })
        (λ _. Sound-reject RejectCode.bad_signature "signature verification failed" h)

  answer_hello-Sound :
      (now : ℕ) (params : Params) (hello : Hello)
      → is_done c.hs ≡ false
      → decode_payload env.hello_codec FrameType.hello frame.payload ≡ ok hello
      → Sound (answer_hello env c now params hello)
  unfolding answer_hello
  answer_hello-Sound now params hello h d = elim (Result-cases (negotiate hello.version)) [
    | inr (code, n) ↦ rw (n, answer_hello) (Sound-reject _ _ h)
    | inl (version, n) ↦ elim (Option-cases (env.public_key hello.key_id)) [
      | inl k ↦ rw (n, k, answer_hello) (Sound-reject _ _ h)
      | inr (pk, k) ↦
          rw (n, k, answer_hello) (check_hello-Sound now params hello version pk h d n k)
    ]
  ]

  on_hello_as-Sound :
      (now : ℕ) (role : Role) → is_done c.hs ≡ false → Sound (on_hello_as env c now frame role)
  on_hello_as-Sound now Role.client h = Sound-same _ h refl
  on_hello_as-Sound now (Role.server params every) h =
      elim (Result-cases (decode_payload env.hello_codec FrameType.hello frame.payload)) [
        | inr (x, d) ↦ rw (d, on_hello_as) (Sound-same _ h refl)
        | inl (hello, d) ↦ rw (d, on_hello_as) (answer_hello-Sound now params hello h d)
      ]

  on_hello-Sound : (now : ℕ) → is_done c.hs ≡ false → Sound (on_hello env c now frame)
  unfolding on_hello
  on_hello-Sound now h =
      if_rule Sound (not (is_challenge_sent c.hs)) _ _ (λ _. Sound-same _ h refl)
        (λ _. on_hello_as-Sound now c.cfg.role h)

-- If the handshake was not done before `on_hello` and is done after it, the frame decodes to a HELLO
-- whose key the verifier knows, whose signature of this connection's transcript verifies under that
-- key, and whose version negotiates; the state then holds exactly that key and the agreed version.
pub on_hello-IsAuthentic :
    (env : Env) (c : Connection) (now : ℕ) (frame : Frame)
    → is_done c.hs ≡ false
    → is_done (on_hello env c now frame).0.hs ≡ true
    → IsAuthentic env c frame (on_hello env c now frame).0
unfolding Sound
on_hello-IsAuthentic env c now frame h = on_hello-Sound env c frame now h
