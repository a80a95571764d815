-- ===== src/Abuse/Scanner/Decode/Bytes.antt =====
-- The bytes that decoding gives.
use tunnel_weaver.Base.{
  ℕ, zero, suc, ◌<◌, ◌≡◌, ◌==◌, ltb, leb, ◌&&◌, if◌then◌else◌, if_rule, inl, inr, List, [], ◌∷◌,
  Option, Option-cases, none, some, All, All-append, IsByte, arith, is_digit, subst, sym,
}
use tunnel_weaver.Abuse.Scanner.Decode.{
  hex, escape, escape_at, percent_decode, Partial, idle, lead, feed, lossy_from, from_utf8_lossy,
  percent_decode_lossy, has_percent, decode_path, replacement,
}

-- What is below 256, where there is something.
abbrev pub IsByteOption : Option ℕ → Type 0
IsByteOption none = Unit {0}
IsByteOption (some b) = IsByte b

hex-bound : (b h : ℕ) → hex b ≡ some h → h < 16
unfolding hex is_digit
hex-bound b h e = ground arith

abbrev pub IsDigitOption : Option ℕ → Type 0
IsDigitOption none = Unit {0}
IsDigitOption (some h) = h < 16

hex-IsDigitOption : (b : ℕ) → IsDigitOption (hex b)
hex-IsDigitOption b = elim (Option-cases (hex b)) [
  | inl e ↦ subst IsDigitOption (sym e) tt
  | inr (h, e) ↦ subst IsDigitOption (sym e) (hex-bound b h e)
]

escape-IsByteOption :
    (p q : Option ℕ) → IsDigitOption p → IsDigitOption q → IsByteOption (escape p q)
escape-IsByteOption none q a b = tt
escape-IsByteOption (some h) none a b = tt
escape-IsByteOption (some h) (some l) a b = omega arith

escape_at-IsByteOption : (bs : List ℕ) → IsByteOption (escape_at bs)
unfolding escape_at
escape_at-IsByteOption [] = tt
escape_at-IsByteOption (b ∷ []) = tt
escape_at-IsByteOption (b ∷ c ∷ rest) =
    escape-IsByteOption (hex b) (hex c) (hex-IsDigitOption b) (hex-IsDigitOption c)

found-IsByte :
    (o : Option ℕ) (b : ℕ) (next after : List ℕ)
    → IsByteOption o
    → IsByte b
    → All IsByte next
    → All IsByte after
    → All IsByte (elim o [ none ↦ b ∷ next | some byte ↦ byte ∷ after ])
found-IsByte none b next after o h n a = (h, n)
found-IsByte (some byte) b next after o h n a = (o, a)

percent_decode-IsByte :
    (skip : ℕ) (bs : List ℕ) → All IsByte bs → All IsByte (percent_decode skip bs)
unfolding percent_decode
percent_decode-IsByte skip [] h = tt
percent_decode-IsByte (suc skip) (b ∷ bs) h = percent_decode-IsByte skip bs h.1
percent_decode-IsByte zero (b ∷ bs) h =
    found-IsByte (if b == b'%' then escape_at bs else none) b (percent_decode 0 bs)
      (percent_decode 2 bs)
      (if_rule IsByteOption (b == b'%') _ _ (λ _. escape_at-IsByteOption bs) (λ _. tt)) h.0
      (percent_decode-IsByte 0 bs h.1) (percent_decode-IsByte 2 bs h.1)

replacement-IsByte : All IsByte replacement
replacement-IsByte = (omega arith, (omega arith, (omega arith, tt)))

lead-IsByte : (b : ℕ) → IsByte b → All IsByte (lead b).0 × All IsByte (lead b).1.held
unfolding lead
lead-IsByte b h =
    let P : List ℕ × Partial → Type 0 = λ r. All IsByte r.0 × All IsByte r.1.held in
    if_rule P (ltb b 0x80) _ _ (λ _. ((h, tt), tt))
      (λ _.
        if_rule P (leb 0xc2 b && leb b 0xdf) _ _ (λ _. (tt, (h, tt)))
          (λ _.
            if_rule P (leb 0xe0 b && leb b 0xef) _ _ (λ _. (tt, (h, tt)))
              (λ _.
                if_rule P (leb 0xf0 b && leb b 0xf4) _ _ (λ _. (tt, (h, tt)))
                  (λ _. (replacement-IsByte, tt)))))

feed-IsByte :
    (p : Partial) (b : ℕ)
    → All IsByte p.held
    → IsByte b
    → All IsByte (feed p b).0 × All IsByte (feed p b).1.held
unfolding feed
feed-IsByte p b a h =
    let P : List ℕ × Partial → Type 0 = λ r. All IsByte r.0 × All IsByte r.1.held in
    let held = All-append IsByte p.held (b ∷ []) a (h, tt) in
    if_rule P (p.missing == 0) _ _ (λ _. lead-IsByte b h)
      (λ _.
        if_rule P (leb p.low b && leb b p.high) _ _
          (λ _. if_rule P (p.missing == 1) _ _ (λ _. (held, tt)) (λ _. (tt, held)))
          (λ _. (
            All-append IsByte replacement (lead b).0 replacement-IsByte (lead-IsByte b h).0,
            (lead-IsByte b h).1,
          )))

lossy_from-IsByte :
    (p : Partial) (bs : List ℕ) → All IsByte p.held → All IsByte bs → All IsByte (lossy_from p bs)
unfolding lossy_from
lossy_from-IsByte p [] a h =
    if_rule (All IsByte) (p.missing == 0) _ _ (λ _. tt) (λ _. replacement-IsByte)
lossy_from-IsByte p (b ∷ bs) a h =
    let fed = feed-IsByte p b a h.0 in
    All-append IsByte (feed p b).0 (lossy_from (feed p b).1 bs) fed.0
      (lossy_from-IsByte (feed p b).1 bs fed.1 h.1)

percent_decode_lossy-IsByte : (bs : List ℕ) → All IsByte bs → All IsByte (percent_decode_lossy bs)
unfolding percent_decode_lossy from_utf8_lossy
percent_decode_lossy-IsByte bs h =
    lossy_from-IsByte idle (percent_decode 0 bs) tt (percent_decode-IsByte 0 bs h)

-- The decoded path of bytes is one of bytes.
pub decode_path-IsByte : (path : List ℕ) → All IsByte path → All IsByte (decode_path path)
unfolding decode_path
decode_path-IsByte path h =
    let once = percent_decode_lossy-IsByte path h in
    if_rule (All IsByte) (has_percent path) _ _
      (λ _.
        if_rule (All IsByte) (has_percent (percent_decode_lossy path)) _ _
          (λ _. percent_decode_lossy-IsByte (percent_decode_lossy path) once) (λ _. once))
      (λ _. h)
