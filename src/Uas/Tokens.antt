-- ===== src/Uas/Tokens.antt =====
-- shared/jwt_tokens.py: the access tokens of the gateway. Base64, HMAC and JSON are the library's.
pub mod Verdicts
mod Tests
use Prim.Native.Char.{Char, code}
use Prim.Native.String
use sbd_drones_economics.Base.{
  ℕ, zero, suc, ◌+◌, ◌-◌, String, Bool, true, false, ◌&&◌, ◌||◌, not, if◌then◌else◌, Option, none,
  some, List, [], ◌∷◌, ◌==◌, ◌⊕◌, ltb, eqb, strip, split_by,
}
use sbd_drones_economics.Outcome.{
  Result, ok, err, Exception, value_error, token_error, or_raise, ◌>>=◌,
}

-- The claims that a token carries. `exp` may be missing from a payload that another wrote; one
-- that is no number is left out.
pub record Payload : Type 0 where
  pub sub : String
  pub role : String
  pub iat : ℕ
  pub exp : Option ℕ

-- What the standard library provides: texts as bytes, URL-safe Base64, HMAC-SHA256, the comparison
-- of digests, and JSON. `header` is the JSON of `{"alg": "HS256", "typ": "JWT"}`.
pub record Codec : Type 1 where
  pub Bytes : Type 0
  pub encode : String → Bytes
  pub decode : Bytes → Option String
  pub urlsafe_b64encode : Bytes → String
  pub urlsafe_b64decode : String → Option Bytes
  pub hmac : (secret message : Bytes) → Bytes
  pub compare_digest : Bytes → Bytes → Bool
  pub header : String
  pub dumps : Payload → String
  pub loads : String → Option Payload

unfoldable pub is_equals : Char → Bool
is_equals c = eqb (code c) 61

unfoldable pub is_dot : Char → Bool
is_dot c = eqb (code c) 46

-- `data.rstrip(b"=")`
unfoldable pub strip_equals : String → String
unfolding is_equals
strip_equals String.[] = String.[]
strip_equals (String.◌∷◌ c s) =
    let rest = strip_equals s in if rest == "" && is_equals c then String.[] else String.◌∷◌ c rest

-- `"=" * n`
unfoldable pub equals_signs : ℕ → String
equals_signs zero = String.[]
equals_signs (suc n) = "=" ⊕ equals_signs n

-- `len(text) % 4`
unfoldable pub size_mod_4 : String → ℕ
size_mod_4 String.[] = 0
size_mod_4 (String.◌∷◌ c s) = let n = size_mod_4 s in if eqb n 3 then 0 else suc n

-- `"=" * (-len(seg) % 4)`
unfoldable pub padding : String → String
unfolding equals_signs size_mod_4
padding seg = if eqb (size_mod_4 seg) 0 then "" else equals_signs (4 - size_mod_4 seg)

module _ (codec : Codec) where
  open codec use {
    Bytes, encode, decode, urlsafe_b64encode, urlsafe_b64decode, hmac, compare_digest, header,
    dumps, loads,
  }

  -- `_b64encode`
  unfoldable pub b64encode : Bytes → String
  unfolding strip_equals
  b64encode bytes = strip_equals (urlsafe_b64encode bytes)

  -- `_b64decode`
  unfoldable pub b64decode : String → Result Bytes
  unfolding padding
  b64decode seg =
      or_raise (urlsafe_b64decode (seg ⊕ padding seg)) (token_error "invalid token encoding")

  -- `hmac.new(secret.encode("utf-8"), f"{h}.{p}".encode(), hashlib.sha256).digest()`
  unfoldable pub signature : (secret h p : String) → Bytes
  signature secret h p = hmac (encode secret) (encode (h ⊕ "." ⊕ p))

  -- `create_access_token`, at the time `now`
  unfoldable pub create_access_token :
      (now : ℕ) (secret username role : String) (ttl_seconds : ℕ) → Result String
  unfolding b64encode signature
  create_access_token now secret username role ttl_seconds =
      if secret == ""
      then err (value_error "JWT secret is empty")
      else ok (h ⊕ "." ⊕ p ⊕ "." ⊕ b64encode (signature secret h p))
    where
      payload : Payload
      payload = record { sub = username; role = role; iat = now; exp = some (now + ttl_seconds) }

      h : String
      h = b64encode (encode header)

      p : String
      p = b64encode (encode (dumps payload))

  -- `json.loads(_b64decode(p_b64).decode("utf-8"))`
  unfoldable pub read_payload : String → Result Payload
  unfolding b64decode
  read_payload p_b64 = do
    bytes ← b64decode p_b64
    text ← or_raise (decode bytes) (token_error "invalid payload")
    or_raise (loads text) (token_error "invalid payload")

  unfoldable pub is_expired : ℕ → Option ℕ → Bool
  is_expired now none = true
  is_expired now (some t) = ltb t now

  -- What follows the split of the token.
  unfoldable pub verify_segments : (now : ℕ) (secret h p s : String) → Result Payload
  unfolding b64decode signature read_payload is_expired
  verify_segments now secret h p s = do
    actual ← b64decode s
    if not (compare_digest (signature secret h p) actual)
        then err (token_error "invalid signature")
        else do
          payload ← read_payload p
          if is_expired now payload.exp then err (token_error "token expired") else ok payload

  unfoldable pub verify_parts : (now : ℕ) (secret : String) → List String → Result Payload
  unfolding verify_segments
  verify_parts now secret (h ∷ p ∷ s ∷ []) = verify_segments now secret h p s
  verify_parts now secret [] = err (token_error "token must have three segments")
  verify_parts now secret (_ ∷ []) = err (token_error "token must have three segments")
  verify_parts now secret (_ ∷ _ ∷ []) = err (token_error "token must have three segments")
  verify_parts now secret (_ ∷ _ ∷ _ ∷ _ ∷ _) = err (token_error "token must have three segments")

  -- `verify_access_token`, at the time `now`
  unfoldable pub verify_access_token : (now : ℕ) (secret token : String) → Result Payload
  unfolding verify_parts is_dot
  verify_access_token now secret token =
      if secret == ""
      then err (value_error "JWT secret is empty")
      else verify_parts now secret (split_by is_dot (strip token))
