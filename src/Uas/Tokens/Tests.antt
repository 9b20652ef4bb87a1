-- ===== src/Uas/Tokens/Tests.antt =====
-- A toy codec, on which the tokens can be run.
use sbd_drones_economics.Base.{
  String, if◌then◌else◌, some, ◌==◌, ◌⊕◌, ltb, strip, split_by, is_space, ◌≡◌, refl, eq_iff,
}
use sbd_drones_economics.Outcome.{ok, err, token_error}
use sbd_drones_economics.Uas.Tokens.{
  Payload, Codec, is_dot, padding, strip_equals, equals_signs, size_mod_4, b64encode, signature,
  create_access_token, verify_access_token,
}
use sbd_drones_economics.Uas.Tokens.Verdicts.{
  IsEncoded, IsDocumented, HasSigned, issued, is_reserved, verify-create, verify-Signed,
}

abbrev alice : Payload
alice = record { sub = "alice"; role = "admin"; iat = 5; exp = some 15 }

-- Bytes are texts, digits are themselves, and the digest is the secret.
unfoldable toy : Codec
unfolding padding strip_equals
toy = record {
  Bytes = String;
  encode = λ s. s;
  decode = some;
  urlsafe_b64encode = λ b. b ⊕ padding b;
  urlsafe_b64decode = λ s. some (strip_equals s);
  hmac = λ secret m. secret;
  compare_digest = λ a b. a == b;
  header = "aGVhZA";
  dumps = λ p. "YWxp";
  loads = λ s. some alice;
}

toy-IsDocumented : IsDocumented toy "key" alice
unfolding toy IsEncoded signature b64encode is_reserved is_space equals_signs size_mod_4
toy-IsDocumented = record {
  comparison = eq_iff;
  header_encoded = ("aGVhZA", (refl, (refl, refl)));
  payload_encoded = ("YWxp", (refl, (refl, refl)));
  signature_encoded = ("key", (refl, (refl, refl)));
  utf8 = refl;
  json = refl;
}

abbrev token : String
token = "aGVhZA.YWxp.key"

token-created : create_access_token toy 5 "key" "alice" "admin" 10 ≡ ok token
unfolding toy create_access_token b64encode equals_signs size_mod_4
token-created = refl

verify-create_example :
    verify_access_token toy 20 "key" token
    ≡ (if ltb 15 20 then err (token_error "token expired") else ok alice)
unfolding issued
verify-create_example =
    verify-create toy 5 20 "key" "alice" "admin" token 10 toy-IsDocumented token-created

token-verifies : verify_access_token toy 6 "key" token ≡ ok alice
unfolding issued
token-verifies = verify-create toy 5 6 "key" "alice" "admin" token 10 toy-IsDocumented token-created

verify-Signed_example : HasSigned toy 6 "key" (split_by is_dot (strip token)) alice
unfolding toy
verify-Signed_example = verify-Signed toy 6 "key" token alice eq_iff token-verifies
