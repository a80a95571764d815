-- ===== src/Mux/Auth/Transcript.antt =====
-- When two transcripts of auth.rs are the same bytes.
use tunnel_weaver.Base.{
  ℕ, ◌≡◌, refl, ap, sym, ◌∙◌, List, [], ◌∷◌, ◌++◌, Option, none, some, length, length-append, arith,
  is_some,
}
use tunnel_weaver.Mux.Wire.{transcript_prefix}
use tunnel_weaver.Mux.Auth.{transcript, optional}

append_cancel : (a b x y : List ℕ) → length a ≡ length b → a ++ x ≡ b ++ y → (a ≡ b) × (x ≡ y)
append_cancel [] [] x y h e = (refl, e)
append_cancel [] (d ∷ b) x y h e = absurd (omega arith)
append_cancel (c ∷ a) [] x y h e = absurd (omega arith)
append_cancel (c ∷ a) (d ∷ b) x y h e = ground (arith, append_cancel a b x y)

abbrev pub Is32 : Option (List ℕ) → Type 0
Is32 none = Unit
Is32 (some cb) = length cb ≡ 32

optional-injective :
    (c d : Option (List ℕ)) → is_some c ≡ is_some d → optional c ≡ optional d → c ≡ d
optional-injective none none h e = refl
optional-injective none (some d) h e = cc
optional-injective (some c) none h e = cc
optional-injective (some c) (some d) h e = ap some e

length-optional :
    (c d : Option (List ℕ))
    → is_some c ≡ is_some d
    → Is32 c
    → Is32 d
    → length (optional c) ≡ length (optional d)
length-optional none none h hc hd = refl
length-optional none (some d) h hc hd = cc
length-optional (some c) none h hc hd = cc
length-optional (some c) (some d) h hc hd = hc ∙ sym hd

-- Two handshakes that agree on the presence of a channel binding sign the same bytes only if the
-- nonces, the server names and the bindings are all the same, for 32-byte nonces and bindings.
pub transcript-injective :
    (s c n s' c' n' : List ℕ) (b b' : Option (List ℕ))
    → length s ≡ 32
    → length c ≡ 32
    → length s' ≡ 32
    → length c' ≡ 32
    → Is32 b
    → Is32 b'
    → is_some b ≡ is_some b'
    → transcript s c n b ≡ transcript s' c' n' b'
    → (s ≡ s') × (c ≡ c') × (n ≡ n') × (b ≡ b')
unfolding transcript
transcript-injective s c n s' c' n' b b' hs hc hs' hc' hb hb' present e =
    let (_, e1) = append_cancel transcript_prefix transcript_prefix _ _ refl e in
    let (es, e2) = append_cancel s s' _ _ (omega arith) e1 in
    let (ec, e3) = append_cancel c c' _ _ (omega arith) e2 in
    let same : length n ≡ length n' = omega (
      arith,
      ap length e3,
      length-append n (optional b),
      length-append n' (optional b'),
      length-optional b b' present hb hb',
    ) in
    let (en, e4) = append_cancel n n' _ _ same e3 in
    (es, ec, en, optional-injective b b' present e4)
