-- ===== src/Abuse/Scanner.antt =====
-- crates/weaver-abuse/src/scanner.rs: the rules that refuse the probes of scanners. A text is the bytes
-- of its UTF-8 form.
pub mod Decode
pub mod Words
pub mod Rules
pub mod Verdicts
use tunnel_weaver.Base.{
  ℕ, zero, suc, ◌==◌, ◌&&◌, ◌||◌, not, if◌then◌else◌, Bool, true, false, List, [], ◌∷◌, Option,
  none, some, is_empty, bytes_eq, starts_with, ascii, to_ascii_lowercase,
}
use tunnel_weaver.Abuse.Surface.{Method, method_trace, before_query}
use tunnel_weaver.Abuse.Scanner.Decode.{decode_path}
use tunnel_weaver.Abuse.Scanner.Words.{classify}
use tunnel_weaver.Abuse.Scanner.Rules.{
  is_in, is_risky_dotfile, leftover_extensions, secret_extensions, debug_roots, pair_roots,
  debug_pairs, is_pair, ends_with, extension, segments_from, segments,
}

pub data ScanVerdict : Type 0 where
  dotfile traversal leftover secret_material debug_endpoint malformed trace : ScanVerdict

-- What the loop over the segments remembers.
pub record Scan : Type 0 where
  pub first : List ℕ
  pub second : List ℕ
  pub last : List ℕ
  pub dotfile : Bool

abbrev pub no_scan : Scan
no_scan = record { first = []; second = []; last = []; dotfile = false }

-- A segment that makes the path a dotfile's: `/.well-known/` is one only further down.
unfoldable pub is_risky_at : ℕ → List ℕ → Bool
unfolding is_risky_dotfile
is_risky_at idx seg =
    starts_with (ascii ".") seg
    && (not (idx == 0 && bytes_eq seg (ascii ".well-known")) && is_risky_dotfile seg)

unfoldable pub scan_step : ℕ → Scan → List ℕ → Scan
unfolding is_risky_at
scan_step idx s seg = record {
  first = if idx == 0 then seg else s.first;
  second = if idx == 1 then seg else s.second;
  last = seg;
  dotfile = s.dotfile || is_risky_at idx seg;
}

-- The loop; there is no result where a `..` segment returns early.
unfoldable pub scan_segments : ℕ → Scan → List (List ℕ) → Option Scan
unfolding scan_step
scan_segments idx s [] = some s
scan_segments idx s (seg ∷ segs) =
    let rest = scan_segments (suc idx) (scan_step idx s seg) segs in
    if bytes_eq seg (ascii "..") then none else rest

abbrev pub by_extension : List ℕ → Option (List ℕ) → Option ScanVerdict
by_extension last none = none
by_extension last (some found) =
    if is_in found leftover_extensions
    then some ScanVerdict.leftover
    else if is_in found secret_extensions
    then some ScanVerdict.secret_material
    else if bytes_eq found (ascii "gz") && ends_with (ascii ".sql.gz") last
    then some ScanVerdict.secret_material
    else none

-- The rules on the last segment.
unfoldable pub by_last : List ℕ → Option ScanVerdict
unfolding is_in leftover_extensions secret_extensions ends_with extension
by_last last =
    if is_empty last
    then none
    else if ends_with (ascii "~") last
    then some ScanVerdict.leftover
    else if ends_with (ascii "id_rsa") last || ends_with (ascii "id_ed25519") last
    then some ScanVerdict.secret_material
    else by_extension last (extension last)

-- The rules on the first two.
unfoldable pub by_root : List ℕ → List ℕ → Option ScanVerdict
unfolding is_in debug_roots pair_roots debug_pairs is_pair
by_root first second =
    if not (is_empty first) && is_in first debug_roots
    then some ScanVerdict.debug_endpoint
    else if not (is_empty second) && (is_in first pair_roots && is_pair first second debug_pairs)
    then some ScanVerdict.debug_endpoint
    else none

abbrev pub or_else : Option ScanVerdict → Option ScanVerdict → Option ScanVerdict
or_else none other = other
or_else (some verdict) other = some verdict

-- What is said of the path, once the loop is through.
abbrev pub judge : Option Scan → Option ScanVerdict
judge none = some ScanVerdict.traversal
judge (some s) =
    if s.dotfile
    then some ScanVerdict.dotfile
    else or_else (by_last s.last) (by_root s.first s.second)

-- From the decoded path on.
unfoldable pub inspect_decoded : List ℕ → Option ScanVerdict
inspect_decoded decoded =
    let (is_malformed, has_upper) = classify decoded in
    if is_malformed
    then some ScanVerdict.malformed
    else judge (
        scan_segments 0 no_scan
          (segments (if has_upper then to_ascii_lowercase decoded else decoded)))

unfoldable pub inspect : Method → List ℕ → Option ScanVerdict
inspect method raw_path =
    if bytes_eq method method_trace
    then some ScanVerdict.trace
    else inspect_decoded (decode_path (before_query raw_path))
