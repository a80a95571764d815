-- ===== src/Abuse/Scanner/Verdicts.antt =====
-- The verdicts, against the rules read one after the other.
use tunnel_weaver.Base.{
  ℕ, suc, ◌≡◌, refl, sym, ap, ◌∙◌, ◌==◌, ◌&&◌, ◌||◌, not, if◌then◌else◌, if_rule, Bool, false, List,
  [], ◌∷◌, Option, none, some, All, IsByte, bytes_eq, starts_with, ascii, to_ascii_lowercase,
  to_lower, is_upper, arith,
}
use tunnel_weaver.Abuse.Surface.{Method, method_trace, before_query}
use tunnel_weaver.Abuse.Scanner.{
  ScanVerdict, Scan, no_scan, is_risky_at, scan_step, scan_segments, by_last, by_root, or_else,
  judge, inspect_decoded, inspect,
}
use tunnel_weaver.Abuse.Scanner.Decode.{decode_path}
use tunnel_weaver.Abuse.Scanner.Decode.Bytes.{decode_path-IsByte}
use tunnel_weaver.Abuse.Scanner.Rules.{segments, is_risky_dotfile}
use tunnel_weaver.Abuse.Scanner.Words.{is_malformed}
use tunnel_weaver.Abuse.Scanner.Words.Lanes.{any}
use tunnel_weaver.Abuse.Scanner.Words.Classes.{classify-any}

abbrev pub is_dotdot : List ℕ → Bool
is_dotdot seg = bytes_eq seg (ascii "..")

-- Some segment of the list satisfies a test.
abbrev pub some_segment : (List ℕ → Bool) → List (List ℕ) → Bool
some_segment p [] = false
some_segment p (seg ∷ segs) = p seg || some_segment p segs

-- Some segment is a dotfile's, the first by the rule for the root.
abbrev pub some_risky : List (List ℕ) → Bool
some_risky [] = false
some_risky (seg ∷ segs) = is_risky_at 0 seg || some_segment (is_risky_at 1) segs

abbrev pub last_or : List ℕ → List (List ℕ) → List ℕ
last_or seg [] = seg
last_or seg (next ∷ segs) = last_or next segs

abbrev pub first_of : List (List ℕ) → List ℕ
first_of [] = []
first_of (seg ∷ segs) = seg

abbrev pub second_of : List (List ℕ) → List ℕ
second_of [] = []
second_of (seg ∷ segs) = first_of segs

-- The rules on the segments of a path.
pub segment_rules : List (List ℕ) → Option ScanVerdict
segment_rules segs =
    if some_segment is_dotdot segs
    then some ScanVerdict.traversal
    else if some_risky segs
    then some ScanVerdict.dotfile
    else or_else (by_last (last_or [] segs)) (by_root (first_of segs) (second_of segs))

-- The rules: each is asked of the whole request, in the order of their ranks.
pub rules : Method → List ℕ → Option ScanVerdict
rules method raw_path =
    if bytes_eq method method_trace
    then some ScanVerdict.trace
    else if any is_malformed (decode_path (before_query raw_path))
    then some ScanVerdict.malformed
    else segment_rules (segments (to_ascii_lowercase (decode_path (before_query raw_path))))

to_ascii_lowercase-same : (bs : List ℕ) → any is_upper bs ≡ false → to_ascii_lowercase bs ≡ bs
unfolding to_ascii_lowercase to_lower
to_ascii_lowercase-same [] h = refl
to_ascii_lowercase-same (b ∷ bs) h =
    let both : (is_upper b ≡ false) × (any is_upper bs ≡ false) = ground arith in
    rw (both.0, to_ascii_lowercase-same bs both.1)

-- Further down, the index does not count.
is_risky_at-suc : (i : ℕ) (seg : List ℕ) → is_risky_at (suc i) seg ≡ is_risky_at 1 seg
unfolding is_risky_at
is_risky_at-suc i seg =
    let later : (suc i == 0) ≡ false = ground arith in
    ap
      (λ at_root.
        starts_with (ascii ".") seg
        && (not (at_root && bytes_eq seg (ascii ".well-known")) && is_risky_dotfile seg))
      later

scan_segments-rest :
    (i : ℕ) (s : Scan) (segs : List (List ℕ))
    → scan_segments (suc (suc i)) s segs ≡ (
        if some_segment is_dotdot segs
        then none
        else some (record s {
          last = last_or s.last segs;
          dotfile = s.dotfile || some_segment (is_risky_at 1) segs;
        }))
unfolding scan_segments scan_step
scan_segments-rest i s [] = ground arith
scan_segments-rest i s (seg ∷ segs) = ground (
  arith,
  scan_segments-rest (suc i) (scan_step (suc (suc i)) s seg) segs,
  is_risky_at-suc (suc i) seg,
)

-- The loop over all segments of a path.
scan_segments-all :
    (segs : List (List ℕ)) → judge (scan_segments 0 no_scan segs) ≡ segment_rules segs
unfolding scan_segments scan_step segment_rules
scan_segments-all [] = refl
scan_segments-all (a ∷ []) = ground arith
scan_segments-all (a ∷ b ∷ segs) =
    ground (arith, scan_segments-rest 0 (scan_step 1 (scan_step 0 no_scan a) b) segs)

folded :
    (bs : List ℕ) → (if any is_upper bs then to_ascii_lowercase bs else bs) ≡ to_ascii_lowercase bs
folded bs =
    if_rule (λ lower. lower ≡ to_ascii_lowercase bs) (any is_upper bs) _ _ (λ _. refl)
      (λ e. sym (to_ascii_lowercase-same bs e))

inspect_decoded-rules :
    (decoded : List ℕ)
    → All IsByte decoded
    → inspect_decoded decoded ≡ (
        if any is_malformed decoded
        then some ScanVerdict.malformed
        else segment_rules (segments (to_ascii_lowercase decoded)))
unfolding inspect_decoded
inspect_decoded-rules decoded h =
    let after = λ (c : Bool × Bool).
      if c.0
      then some ScanVerdict.malformed
      else judge (
          scan_segments 0 no_scan
            (segments (if c.1 then to_ascii_lowercase decoded else decoded))) in
    let otherwise =
      ap (λ lower. judge (scan_segments 0 no_scan (segments lower))) (folded decoded)
      ∙ scan_segments-all (segments (to_ascii_lowercase decoded)) in
    ap after (classify-any decoded h)
    ∙ ap (λ answer. if any is_malformed decoded then some ScanVerdict.malformed else answer)
        otherwise

-- The pass over a path is the rules, each asked of the whole request in the order of their ranks: TRACE,
-- then a control character or DEL in the decoded path, then a `..` segment anywhere, then a dotfile
-- anywhere, then the last segment, then the first two, with upper case folded throughout.
pub inspect-rules :
    (method : Method) (raw_path : List ℕ)
    → All IsByte (before_query raw_path)
    → inspect method raw_path ≡ rules method raw_path
unfolding inspect rules
inspect-rules method raw_path h =
    ap (λ answer. if bytes_eq method method_trace then some ScanVerdict.trace else answer)
      (inspect_decoded-rules (decode_path (before_query raw_path))
        (decode_path-IsByte (before_query raw_path) h))
