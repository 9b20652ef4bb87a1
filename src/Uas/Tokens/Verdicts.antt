-- ===== src/Uas/Tokens/Verdicts.antt =====
-- What the verification of an access token answers.
use Prim.Native.Char.{Char}
use Prim.Native.String.{char_at}
use Prim.Native.String.append
use sbd_drones_economics.Base.{
  ℕ, zero, suc, ◌+◌, ◌-◌, String, Bool, true, false, ◌||◌, if◌then◌else◌, some, List, [], ◌∷◌, ◌==◌,
  ◌⊕◌, ltb, eqb, is_space, strip, lacks, strip-plain, split_by, split_by-lacks, split_by-append,
  lacks-append, lacks-weaker, ◌≡◌, refl, sym, ap, subst, ◌∙◌, ◌↔◌, ◌≢◌, inl, inr, arith, Bool-cases,
}
use sbd_drones_economics.Outcome.{ok, err, token_error, ◌>>=◌, result_cases}
use sbd_drones_economics.Uas.Tokens.{
  Payload, Codec, is_equals, is_dot, strip_equals, equals_signs, size_mod_4, padding, b64encode,
  b64decode, signature, create_access_token, read_payload, is_expired, verify_segments,
  verify_parts, verify_access_token,
}

-- The characters that Base64 does not use for its digits.
unfoldable pub is_reserved : Char → Bool
unfolding is_equals is_dot
is_reserved c = is_equals c || is_dot c || is_space c

ok-injective : {A : Type 0} (a b : A) → ok a ≡ ok b → a ≡ b
ok-injective a b e = ground arith

abbrev dot_char : Char
dot_char = char_at "." 0

reserved-each :
    (c : Char)
    → is_reserved c ≡ false
    → (is_equals c ≡ false) × ((is_dot c ≡ false) × (is_space c ≡ false))
unfolding is_reserved
reserved-each c h = all_false (is_equals c) (is_dot c) (is_space c) h
  where
    all_false : (a b d : Bool) → (a || b || d) ≡ false → (a ≡ false) × ((b ≡ false) × (d ≡ false))
    all_false a b d h = ground arith

strip_equals-signs : (n : ℕ) → strip_equals (equals_signs n) ≡ ""
unfolding strip_equals equals_signs is_equals
strip_equals-signs zero = refl
strip_equals-signs (suc n) = rw (append.cons, append.nil) (rw (strip_equals-signs n) refl)

strip_equals-padded :
    (body : String) (n : ℕ)
    → lacks is_equals body ≡ true
    → strip_equals (body ⊕ equals_signs n) ≡ body
unfolding strip_equals
strip_equals-padded String.[] n h = rw append.nil (strip_equals-signs n)
strip_equals-padded (String.◌∷◌ c s) n h = rw append.cons (ground (arith, strip_equals-padded s n))

padding-signs : (body : String) → (n : ℕ) × (padding body ≡ equals_signs n)
unfolding padding equals_signs
padding-signs body = elim (Bool-cases (eqb (size_mod_4 body) 0)) [
  | inl e ↦ (0, rw (padding, e) refl)
  | inr e ↦ (4 - size_mod_4 body, rw (padding, e) refl)
]

strip_equals-padding :
    (body : String) → lacks is_equals body ≡ true → strip_equals (body ⊕ padding body) ≡ body
strip_equals-padding body h = let (n, e) = padding-signs body in rw e (strip_equals-padded body n h)

module _ (codec : Codec) where
  open codec use {
    Bytes, encode, decode, urlsafe_b64encode, urlsafe_b64decode, hmac, compare_digest, header,
    dumps, loads,
  }

  -- RFC 4648: digits, then as many `=` as bring the length to a multiple of four; and decoding gives
  -- the bytes back.
  unfoldable pub IsEncoded : Bytes → Type 0
  IsEncoded bytes =
      (body : String) × ((urlsafe_b64encode bytes ≡ body ⊕ padding body)
        × ((lacks is_reserved body ≡ true)
            × (urlsafe_b64decode (urlsafe_b64encode bytes) ≡ some bytes)))

  b64encode-body :
      (bytes : Bytes) (h : IsEncoded bytes)
      → (lacks is_reserved (b64encode codec bytes) ≡ true)
        × (b64decode codec (b64encode codec bytes) ≡ ok bytes)
  unfolding IsEncoded b64encode b64decode
  b64encode-body bytes (body, (e, (plain, back))) = rw own (plain, rw (sym e, back) refl)
    where
      no_equals : lacks is_equals body ≡ true
      no_equals = lacks-weaker is_reserved is_equals body (λ c f. (reserved-each c f).0) plain

      own : strip_equals (urlsafe_b64encode bytes) ≡ body
      own = rw e (strip_equals-padding body no_equals)

  create_lem :
      (now : ℕ) (secret username role : String) (ttl : ℕ)
      → (secret == "") ≡ false
      → (h p : String) → b64encode codec (encode header) ≡ h
      → b64encode codec (
          encode
            (dumps (record { sub = username; role = role; iat = now; exp = some (now + ttl) })))
        ≡ p
      → create_access_token codec now secret username role ttl
        ≡ ok (h ⊕ "." ⊕ p ⊕ "." ⊕ b64encode codec (signature codec secret h p))
  unfolding create_access_token
  create_lem now secret username role ttl named h p eh ep =
      rw (create_access_token, named) (rw (eh, ep) refl)

  -- A token of three segments comes apart into them.
  verify_three :
      (now : ℕ) (secret h p s : String)
      → (secret == "") ≡ false
      → lacks is_reserved h ≡ true
      → lacks is_reserved p ≡ true
      → lacks is_reserved s ≡ true
      → verify_access_token codec now secret (h ⊕ "." ⊕ p ⊕ "." ⊕ s)
        ≡ verify_segments codec now secret h p s
  unfolding verify_access_token verify_parts is_space
  verify_three now secret h p s named hh hp hs =
      rw (verify_access_token, named, strip-plain (h ⊕ "." ⊕ p ⊕ "." ⊕ s) plain, parts) refl
    where
      dots : (t : String) → lacks is_reserved t ≡ true → lacks is_dot t ≡ true
      dots t = lacks-weaker is_reserved is_dot t (λ c f. (reserved-each c f).1.0)

      spaces : (t : String) → lacks is_reserved t ≡ true → lacks is_space t ≡ true
      spaces t = lacks-weaker is_reserved is_space t (λ c f. (reserved-each c f).1.1)

      after : (t : String) → lacks is_space t ≡ true → lacks is_space ("." ⊕ t) ≡ true
      after t = lacks-append is_space "." t refl

      plain : lacks is_space (h ⊕ "." ⊕ p ⊕ "." ⊕ s) ≡ true
      plain = lacks-append is_space h ("." ⊕ p ⊕ "." ⊕ s) (spaces h hh) (
          after (p ⊕ "." ⊕ s)
            (lacks-append is_space p ("." ⊕ s) (spaces p hp) (after s (spaces s hs))))

      cut :
          (a t : String)
          → lacks is_dot a ≡ true
          → split_by is_dot (a ⊕ "." ⊕ t) ≡ a ∷ split_by is_dot t
      cut a t e = rw (append.cons, append.nil) (split_by-append is_dot a dot_char t e refl)

      parts : split_by is_dot (h ⊕ "." ⊕ p ⊕ "." ⊕ s) ≡ h ∷ p ∷ s ∷ []
      parts =
          rw
            (
              cut h (p ⊕ "." ⊕ s) (dots h hh),
              cut p s (dots p hp),
              split_by-lacks is_dot s (dots s hs),
            )
            refl

  -- `hmac.compare_digest` says whether the digests are equal.
  abbrev pub Compares : Type 0
  Compares = (a b : Bytes) → (compare_digest a b ≡ true) ↔ (a ≡ b)

  verify_segments-signed :
      (now : ℕ) (secret h p s : String) (sig : Bytes) (payload : Payload)
      → b64decode codec s ≡ ok sig
      → read_payload codec p ≡ ok payload
      → verify_segments codec now secret h p s ≡ (
          if compare_digest (signature codec secret h p) sig
          then if is_expired codec now payload.exp
            then err (token_error "token expired")
            else ok payload
          else err (token_error "invalid signature"))
  unfolding verify_segments
  verify_segments-signed now secret h p s sig payload es ep =
      rw (verify_segments, es)
        (elim (Bool-cases (compare_digest (signature codec secret h p) sig)) [
          | inl e ↦ rw (e, ep) refl
          | inr e ↦ rw e refl
        ])

  unfoldable pub issued : (now : ℕ) (username role : String) (ttl : ℕ) → Payload
  issued now username role ttl = record {
    sub = username;
    role = role;
    iat = now;
    exp = some (now + ttl);
  }

  -- The first two segments of a token.
  abbrev pub header_segment : String
  header_segment = b64encode codec (encode header)

  abbrev pub payload_segment : Payload → String
  payload_segment payload = b64encode codec (encode (dumps payload))

  -- What the library's functions are documented to do on the parts of one token.
  pub record IsDocumented (secret : String) (payload : Payload) : Type 0 where
    pub comparison : Compares
    pub header_encoded : IsEncoded (encode header)
    pub payload_encoded : IsEncoded (encode (dumps payload))
    pub signature_encoded :
        IsEncoded (signature codec secret header_segment (payload_segment payload))
    pub utf8 : decode (encode (dumps payload)) ≡ some (dumps payload)
    pub json : loads (dumps payload) ≡ some payload

  -- The verification, under any secret, of a token issued under a secret.
  verify-issued :
      (later : ℕ) (secret other : String) (payload : Payload)
      → IsDocumented secret payload
      → (other == "") ≡ false
      → verify_access_token codec later other (
          header_segment
          ⊕ "."
          ⊕ payload_segment payload
          ⊕ "."
          ⊕ b64encode codec (signature codec secret header_segment (payload_segment payload)))
        ≡ (if compare_digest
              (signature codec other header_segment (payload_segment payload))
              (signature codec secret header_segment (payload_segment payload))
            then if is_expired codec later payload.exp
              then err (token_error "token expired")
              else ok payload
            else err (token_error "invalid signature"))
  unfolding read_payload
  verify-issued later secret other payload d named =
      verify_three later other h p s named (b64encode-body (encode header) d.header_encoded).0
        (b64encode-body (encode (dumps payload)) d.payload_encoded).0
        (b64encode-body sig d.signature_encoded).0
      ∙ verify_segments-signed later other h p s sig payload
          (b64encode-body sig d.signature_encoded).1
          (rw ((b64encode-body (encode (dumps payload)) d.payload_encoded).1, read_payload)
            (rw d.utf8 (rw d.json refl)))
    where
      h : String
      h = header_segment

      p : String
      p = payload_segment payload

      sig : Bytes
      sig = signature codec secret h p

      s : String
      s = b64encode codec sig

  -- A token verifies, under the secret that it was created with, until its lifetime is over, and gives
  -- the name and the role that it was created for.
  pub verify-create :
      (now later : ℕ) (secret username role token : String) (ttl : ℕ)
      → IsDocumented secret (issued now username role ttl)
      → create_access_token codec now secret username role ttl ≡ ok token
      → verify_access_token codec later secret token ≡ (
          if ltb (now + ttl) later
          then err (token_error "token expired")
          else ok (issued now username role ttl))
  unfolding issued is_expired create_access_token
  verify-create now later secret username role token ttl d made = elim (Bool-cases (secret == "")) [
    | inl e ↦ ground arith
    | inr named ↦ rw (← (ok-injective _ _ (rw (create_access_token, named) at made))) (
        rw ((d.comparison _ _).1 refl) at
          (verify-issued later secret secret (issued now username role ttl) d named))
  ]

  -- Under another secret, for which the digest of the token differs, it never verifies.
  verify-create_other :
      (now later : ℕ) (secret other username role token : String) (ttl : ℕ)
      → IsDocumented secret (issued now username role ttl)
      → (other == "") ≡ false
      → (signature codec other header_segment (payload_segment (issued now username role ttl))
          ≢ signature codec secret header_segment (payload_segment (issued now username role ttl)))
      → create_access_token codec now secret username role ttl ≡ ok token
      → verify_access_token codec later other token ≡ err (token_error "invalid signature")
  unfolding issued create_access_token
  verify-create_other now later secret other username role token ttl d named differ made =
      elim (Bool-cases (secret == "")) [
        | inl e ↦ ground arith
        | inr e ↦ rw (← (ok-injective _ _ (rw (create_access_token, e) at made))) (
            rw (unequal) at
              (verify-issued later secret other (issued now username role ttl) d named))
      ]
    where
      unequal :
          compare_digest
            (signature codec other header_segment (payload_segment (issued now username role ttl)))
            (signature codec secret header_segment (payload_segment (issued now username role ttl)))
          ≡ false
      unequal =
          elim (Bool-cases (
            compare_digest
              (signature codec other header_segment
                (payload_segment (issued now username role ttl)))
              (signature codec secret header_segment
                (payload_segment (issued now username role ttl))))) [
                  | inl e ↦ elim (differ ((d.comparison _ _).0 e)) [ ]
                  | inr e ↦ e
                ]

  -- Three segments, of which the last is the digest of the others, and the second holds the payload.
  abbrev pub Signed : (now : ℕ) (secret h p s : String) → Payload → Type 0
  Signed now secret h p s payload =
      (b64decode codec s ≡ ok (signature codec secret h p))
      × ((read_payload codec p ≡ ok payload) × (is_expired codec now payload.exp ≡ false))

  verify_payload :
      (now : ℕ) (p : String) (payload : Payload)
      → (read_payload codec p >>= λ r.
          if is_expired codec now r.exp then err (token_error "token expired") else ok r)
        ≡ ok payload
      → (read_payload codec p ≡ ok payload) × (is_expired codec now payload.exp ≡ false)
  verify_payload now p payload e = elim (result_cases (read_payload codec p)) [
    | inr (x, bad) ↦ ground (arith, rw bad at e)
    | inl (r, good) ↦ elim (Bool-cases (is_expired codec now r.exp)) [
      | inl late ↦ ground (arith, rw (good, late) at e)
      | inr early ↦
          let same = ok-injective r payload (rw (good, early) at e) in
          (good ∙ ap ok same, subst (λ q. is_expired codec now q.exp ≡ false) same early)
    ]
  ]

  verify_segments-Signed :
      (now : ℕ) (secret h p s : String) (payload : Payload)
      → Compares
      → verify_segments codec now secret h p s ≡ ok payload
      → Signed now secret h p s payload
  unfolding verify_segments
  verify_segments-Signed now secret h p s payload c e = elim (result_cases (b64decode codec s)) [
    | inr (x, bad) ↦ ground (arith, rw (verify_segments, bad) at e)
    | inl (sig, good) ↦ elim (Bool-cases (compare_digest (signature codec secret h p) sig)) [
      | inr ne ↦ ground (arith, rw (verify_segments, good, ne) at e)
      | inl same ↦ (
        good ∙ ap ok (sym ((c (signature codec secret h p) sig).0 same)),
        verify_payload now p payload (rw (verify_segments, good, same) at e),
      )
    ]
  ]

  abbrev pub HasSigned : (now : ℕ) (secret : String) → List String → Payload → Type 0
  HasSigned now secret parts payload =
      (h : String) × ((p : String) × ((s : String) × ((parts ≡ h ∷ p ∷ s ∷ [])
            × Signed now secret h p s payload)))

  verify_parts-Signed :
      (now : ℕ) (secret : String) (parts : List String) (payload : Payload)
      → Compares
      → verify_parts codec now secret parts ≡ ok payload
      → HasSigned now secret parts payload
  unfolding verify_parts
  verify_parts-Signed now secret (h ∷ p ∷ s ∷ []) payload c e =
      (h, (p, (s, (refl, verify_segments-Signed now secret h p s payload c e))))
  verify_parts-Signed now secret [] payload c e = ground arith
  verify_parts-Signed now secret (_ ∷ []) payload c e = ground arith
  verify_parts-Signed now secret (_ ∷ _ ∷ []) payload c e = ground arith
  verify_parts-Signed now secret (_ ∷ _ ∷ _ ∷ _ ∷ _) payload c e = ground arith

  -- What verifies was signed: the token has three segments, the last of which is the digest of the
  -- first two under the secret, the second holds the payload, and its lifetime is not over.
  pub verify-Signed :
      (now : ℕ) (secret token : String) (payload : Payload)
      → Compares
      → verify_access_token codec now secret token ≡ ok payload
      → HasSigned now secret (split_by is_dot (strip token)) payload
  unfolding verify_access_token
  verify-Signed now secret token payload c e = elim (Bool-cases (secret == "")) [
    | inl blank ↦ ground arith
    | inr named ↦
        verify_parts-Signed now secret (split_by is_dot (strip token)) payload c
          (rw (verify_access_token, named) at e)
  ]
