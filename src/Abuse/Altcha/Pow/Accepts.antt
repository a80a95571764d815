-- ===== src/Abuse/Altcha/Pow/Accepts.antt =====
-- What a verified solution has behind it, read off one by one.
use tunnel_weaver.Base.{
  ℕ, ◌/◌, ◌≤◌, Bool, true, false, List, Option, none, some, Result, ok, ascii, bytes_eq, not,
  bytes_eq_iff, arith, ◌≡◌, ◌≢◌, ◌↔◌, refl, ◌>>=◌, ◌>>◌,
}
use tunnel_weaver.Abuse.Altcha.{ProofError, Libraries}
use tunnel_weaver.Abuse.Altcha.Pow.{
  VerifyRequest, Verified, is_supported, sign, signed, derive_key, key_prefix_matches,
  verify_solution, refuse_if, ok_or, solves, is_bound, is_past, nonzero,
}

pub ok_or-ok :
    {E A B : Type 0} (o : Option A) (e : E) (k : A → Result E B) (b : B)
    → (ok_or o e >>= k) ≡ ok b
    → (a : A) × (o ≡ some a) × (k a ≡ ok b)
ok_or-ok none e k b h = absurd (cc)
ok_or-ok (some a) e k b h = (a, refl, h)

pub refuse_if-ok :
    {E B : Type 0} (c : Bool) (e : E) (k : Result E B) (b : B)
    → (refuse_if c e >> k) ≡ ok b
    → (c ≡ false) × (k ≡ ok b)
refuse_if-ok true e k b h = absurd (cc)
refuse_if-ok false e k b h = (refl, h)

not_past :
    (o : Option ℕ) (now t : ℕ)
    → is_past (nonzero o) now ≡ false
    → o ≡ some t
    → t ≢ 0
    → now / 1000 ≤ t
not_past none now t h e n = absurd (cc)
not_past (some u) now t h e n = ground arith

is_past_lem :
    (o : Option ℕ) (now : ℕ)
    → ((t : ℕ) → o ≡ some t → t ≢ 0 → now / 1000 ≤ t)
    → is_past (nonzero o) now ≡ false
is_past_lem none now h = refl
is_past_lem (some u) now h = ground (arith, h u refl)

same_bytes : (xs ys : List ℕ) → xs ≡ ys → bytes_eq xs ys ≡ true
same_bytes xs ys e = (bytes_eq_iff xs ys).1 e

module _ {Json : Type 0} (lib : Libraries Json) where
  pub record Accepts (req : VerifyRequest Json) (v : Verified) : Type 0 where
    pub is_current :
        (t : ℕ) → req.challenge.parameters.expires_at ≡ some t → t ≢ 0 → req.now_ms / 1000 ≤ t
    pub is_signed : req.challenge.signature ≡ some (sign lib req.secret req.challenge.parameters)
    pub is_algorithm : is_supported req.challenge.parameters.algorithm ≡ true
    pub context : List (List ℕ × Json)
    pub has_context : req.challenge.parameters.context ≡ some context
    pub is_purpose : signed lib context (ascii "purpose") ≡ req.expected_purpose
    pub is_flow : signed lib context (ascii "flow") ≡ req.expected_flow
    pub nonce : List ℕ
    pub salt : List ℕ
    pub is_nonce : lib.hex_decode req.challenge.parameters.nonce ≡ some nonce
    pub is_salt : lib.hex_decode req.challenge.parameters.salt ≡ some salt
    pub is_derived :
        lib.hex_encode (derive_key lib req.challenge.parameters nonce salt req.solution.counter)
        ≡ req.solution.derived_key
    pub is_work :
        key_prefix_matches lib req.challenge.parameters.key_prefix
          (derive_key lib req.challenge.parameters nonce salt req.solution.counter)
        ≡ true
    pub is_answer : v ≡ record {
      nonce = req.challenge.parameters.nonce;
      purpose = req.expected_purpose;
      flow = req.expected_flow;
    }

  pub verify_solution-Accepts :
      (req : VerifyRequest Json) (v : Verified) → verify_solution lib req ≡ ok v → Accepts req v
  unfolding verify_solution
  verify_solution-Accepts req v h =
      let params = req.challenge.parameters in
      let past = is_past (nonzero params.expires_at) req.now_ms in
      let (late, h1) = refuse_if-ok past ProofError.expired _ v h in
      let (signature, has_signature, h2) =
        ok_or-ok req.challenge.signature ProofError.missing_signature _ v h1 in
      let right = bytes_eq signature (sign lib req.secret params) in
      let (forged, h3) = refuse_if-ok (not right) ProofError.bad_signature _ v h2 in
      let served = is_supported params.algorithm in
      let (foreign, h4) = refuse_if-ok (not served) ProofError.unsupported_algorithm _ v h3 in
      let (context, has_context, h5) = ok_or-ok params.context ProofError.wrong_context _ v h4 in
      let is_here = is_bound lib context req.expected_purpose req.expected_flow in
      let (elsewhere, h6) = refuse_if-ok (not is_here) ProofError.wrong_context _ v h5 in
      let (nonce, is_nonce, h7) =
        ok_or-ok (lib.hex_decode params.nonce) ProofError.bad_solution _ v h6 in
      let (salt, is_salt, h8) =
        ok_or-ok (lib.hex_decode params.salt) ProofError.bad_solution _ v h7 in
      let solved = solves lib params nonce salt req.solution in
      let (unsolved, answer) = refuse_if-ok (not solved) ProofError.bad_solution _ v h8 in
      let purpose = signed lib context (ascii "purpose") in
      let flow = signed lib context (ascii "flow") in
      let key = lib.hex_encode (derive_key lib params nonce salt req.solution.counter) in
      let is_purpose : purpose ≡ req.expected_purpose =
        ground (arith, bytes_eq_iff purpose req.expected_purpose) in
      let is_flow : flow ≡ req.expected_flow =
        ground (arith, bytes_eq_iff flow req.expected_flow) in
      record {
        is_current = λ t. not_past params.expires_at req.now_ms t late;
        is_signed = ground (arith, bytes_eq_iff signature (sign lib req.secret params));
        is_algorithm = ground arith;
        context = context;
        has_context = has_context;
        is_purpose = is_purpose;
        is_flow = is_flow;
        nonce = nonce;
        salt = salt;
        is_nonce = is_nonce;
        is_salt = is_salt;
        is_derived = ground (arith, bytes_eq_iff key req.solution.derived_key);
        is_work = ground arith;
        is_answer = ground arith;
      }

  pub Accepts-verify_solution :
      (req : VerifyRequest Json) (v : Verified) → Accepts req v → verify_solution lib req ≡ ok v
  unfolding verify_solution
  Accepts-verify_solution req v a =
      let params = req.challenge.parameters in
      let purpose = signed lib a.context (ascii "purpose") in
      let flow = signed lib a.context (ascii "flow") in
      let key = lib.hex_encode (derive_key lib params a.nonce a.salt req.solution.counter) in
      let late = is_past_lem params.expires_at req.now_ms a.is_current in
      let right = same_bytes (sign lib req.secret params) _ refl in
      let here = same_bytes purpose req.expected_purpose a.is_purpose in
      let now = same_bytes flow req.expected_flow a.is_flow in
      let solved = same_bytes key req.solution.derived_key a.is_derived in
      rw
        (
          late, a.is_signed, right, a.is_algorithm, a.has_context, here, now, a.is_nonce, a.is_salt,
          solved, a.is_work, a.is_answer, a.is_purpose, a.is_flow,
        )
        refl

  -- A solution verifies exactly if it is accepted: the challenge has not run out, it bears the signature
  -- of its parameters under the secret, its algorithm is the supported one, its signed context names the
  -- purpose and the flow that are expected, and the key that is derived from the nonce, the salt and the
  -- counter is the one handed in and has the prefix; the answer names the nonce, the purpose and the flow.
  pub verify_solution_iff :
      (req : VerifyRequest Json) (v : Verified) → (verify_solution lib req ≡ ok v) ↔ Accepts req v
  verify_solution_iff req v = (verify_solution-Accepts req v, Accepts-verify_solution req v)
