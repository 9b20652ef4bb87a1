-- ===== src/Uas/Auth.antt =====
-- Password records, shared/tcb/auth_policy.py. PBKDF2 is `hashlib`'s: a parameter that takes the
-- password and the salt and gives the digest in hexadecimal. `token` is what `secrets` would give.
use Prim.Native.Char.{code}
use Prim.Native.String.append
use text.Mathlib.TextLemmas.{append_cancel_left}
use sbd_drones_economics.Base.{
  String, ◌≡◌, ◌≢◌, refl, Bool, true, false, ◌&&◌, ltb, ◌||◌, not, Option, none, some, arith, ◌==◌,
  eq_iff, ◌⊕◌, if◌then◌else◌, or_default, Bool-cases, inl, inr, eq_refl, ap,
}
use sbd_drones_economics.Outcome.{Result, ok, err, value_error, type_error, ◌>>=◌}

-- `text.split("$", 1)`, where the separator occurs
split_dollar : String → Option (String × String)
split_dollar String.[] = none
split_dollar (String.◌∷◌ c s) =
    if String.◌∷◌ c String.[] == "$"
    then some (String.[], s)
    else elim (split_dollar s) [ none ↦ none | some (a, b) ↦ some (String.◌∷◌ c a, b) ]

abbrev pub has_dollar : String → Bool
has_dollar String.[] = false
has_dollar (String.◌∷◌ c s) = String.◌∷◌ c String.[] == "$" || has_dollar s

split_dollar-append :
    (a b : String) → has_dollar a ≡ false → split_dollar (a ⊕ "$" ⊕ b) ≡ some (a, b)
unfolding split_dollar
split_dollar-append String.[] b h = rw (append.nil, append.cons, append.nil)
split_dollar-append (String.◌∷◌ c a) b h = rw append.cons (ground (arith, split_dollar-append a b))

-- A common beginning does not matter to a comparison.
append-eq : (s a b : String) → ((s ⊕ a) == (s ⊕ b)) ≡ (a == b)
append-eq s a b = elim (Bool-cases (a == b)) [
  | inl same ↦ rw (same, (eq_iff a b).0 same) (eq_refl (s ⊕ b))
  | inr other ↦ elim (Bool-cases ((s ⊕ a) == (s ⊕ b))) [
    | inl joined ↦ cc ((eq_iff a b).1 (append_cancel_left s a b ((eq_iff _ _).0 joined)))
    | inr apart ↦ rw (apart, other)
  ]
]

-- `password_hash.split("$", 2)` into three parts, or `ValueError`.
unfoldable pub split_hash : String → Option (String × String × String)
unfolding split_dollar
split_hash password_hash = elim (split_dollar password_hash) [
  | none ↦ none
  | some (algorithm, rest) ↦ elim (split_dollar rest) [
    | none ↦ none
    | some (salt, expected) ↦ some (algorithm, salt, expected)
  ]
]

record_text-eq :
    (salt a b : String)
    → (("pbkdf2_sha256" ⊕ "$" ⊕ salt ⊕ "$" ⊕ a) == ("pbkdf2_sha256" ⊕ "$" ⊕ salt ⊕ "$" ⊕ b))
      ≡ (a == b)
record_text-eq salt a b =
    rw (append-eq "pbkdf2_sha256" ("$" ⊕ salt ⊕ "$" ⊕ a) ("$" ⊕ salt ⊕ "$" ⊕ b)) (
      rw (append-eq "$" (salt ⊕ "$" ⊕ a) (salt ⊕ "$" ⊕ b))
        (rw (append-eq salt ("$" ⊕ a) ("$" ⊕ b)) (append-eq "$" a b)))

hash_parts :
    (salt digest : String)
    → has_dollar salt ≡ false
    → split_hash ("pbkdf2_sha256" ⊕ "$" ⊕ salt ⊕ "$" ⊕ digest)
      ≡ some ("pbkdf2_sha256", salt, digest)
unfolding split_hash
hash_parts salt digest h =
    rw (split_dollar-append "pbkdf2_sha256" (salt ⊕ "$" ⊕ digest) refl, split_hash)
      (rw (split_dollar-append salt digest h))

-- `str.isascii`
abbrev pub is_ascii : String → Bool
is_ascii String.[] = true
is_ascii (String.◌∷◌ c s) = ltb (code c) 128 && is_ascii s

-- `hmac.compare_digest` on two texts, which takes ASCII only
unfoldable pub compare_digest : (a b : String) → Result Bool
compare_digest a b =
    if is_ascii a && is_ascii b
    then ok (a == b)
    else err (type_error "comparing strings with non-ASCII characters is not supported")

is_ascii-append : (a b : String) → is_ascii (a ⊕ b) ≡ (is_ascii a && is_ascii b)
is_ascii-append String.[] b = rw append.nil refl
is_ascii-append (String.◌∷◌ c a) b = rw append.cons (ground (arith, is_ascii-append a b))

record_text_ascii :
    (salt digest : String)
    → is_ascii salt ≡ true
    → is_ascii digest ≡ true
    → is_ascii ("pbkdf2_sha256" ⊕ "$" ⊕ salt ⊕ "$" ⊕ digest) ≡ true
record_text_ascii salt digest hs hd =
    rw (is_ascii-append "pbkdf2_sha256" ("$" ⊕ salt ⊕ "$" ⊕ digest)) (
      rw (is_ascii-append "$" (salt ⊕ "$" ⊕ digest))
        (rw (is_ascii-append salt ("$" ⊕ digest)) (rw (is_ascii-append "$" digest, hs, hd) refl)))

-- Two records of one salt are compared by their digests.
compare_records :
    (salt a b : String)
    → is_ascii salt ≡ true
    → is_ascii a ≡ true
    → is_ascii b ≡ true
    → compare_digest
        ("pbkdf2_sha256" ⊕ "$" ⊕ salt ⊕ "$" ⊕ a)
        ("pbkdf2_sha256" ⊕ "$" ⊕ salt ⊕ "$" ⊕ b)
      ≡ ok (a == b)
unfolding compare_digest
compare_records salt a b hs ha hb =
    rw (record_text_ascii salt a hs ha, record_text_ascii salt b hs hb)
      (ap ok (record_text-eq salt a b))

module _ (pbkdf2 : (password salt : String) → String) where
  -- `salt or secrets.token_hex(16)` chooses the salt.
  unfoldable pub hash_password : (token password : String) → Option String → Result String
  hash_password token password salt =
      let given = or_default salt "" in
      let salt_value = if given == "" then token else given in
      if password == ""
      then err (value_error "password is required")
      else ok ("pbkdf2_sha256" ⊕ "$" ⊕ salt_value ⊕ "$" ⊕ pbkdf2 password salt_value)

  -- The `ValueError` of an empty password is raised by the call of `hash_password`, outside the
  -- `try`, so it reaches the caller.
  unfoldable pub verify_password : (token password password_hash : String) → Result Bool
  unfolding hash_password compare_digest
  verify_password token password password_hash = elim (split_hash password_hash) [
    | none ↦ ok false
    | some (algorithm, salt, expected) ↦ if not (algorithm == "pbkdf2_sha256") then ok false else do
      actual ← hash_password token password (some salt)
      compare_digest actual password_hash
  ]

  pub hash_password_lem :
      (t password salt : String)
      → password ≢ ""
      → salt ≢ ""
      → hash_password t password (some salt)
        ≡ ok ("pbkdf2_sha256" ⊕ "$" ⊕ salt ⊕ "$" ⊕ pbkdf2 password salt)
  unfolding hash_password
  hash_password_lem t password salt np ns = ground (arith, eq_iff salt "", eq_iff password "")

  -- A new password takes the token for its salt.
  pub hash_password-none :
      (t password : String) → hash_password t password none ≡ hash_password t password (some t)
  unfolding hash_password
  hash_password-none t password = ground arith

  -- Where the digests are ASCII, as `hex` makes them: a record made from an ASCII salt without a
  -- dollar sign accepts a password exactly when PBKDF2 gives that password the digest of the
  -- record's own, for passwords and salts that are not empty.
  pub verify-hash_password :
      (t u password other salt : String) {stored : String}
      → password ≢ ""
      → other ≢ ""
      → salt ≢ ""
      → has_dollar salt ≡ false
      → is_ascii salt ≡ true
      → ((p s : String) → is_ascii (pbkdf2 p s) ≡ true)
      → hash_password t password (some salt) ≡ ok stored
      → verify_password u other stored ≡ ok (pbkdf2 other salt == pbkdf2 password salt)
  unfolding verify_password
  verify-hash_password t u password other salt {stored = stored} np no_ ns hs ascii hex e =
      let text : stored ≡ ("pbkdf2_sha256" ⊕ "$" ⊕ salt ⊕ "$" ⊕ pbkdf2 password salt) =
        cc (hash_password_lem t password salt np ns) in
      rw (text, hash_parts salt (pbkdf2 password salt) hs, verify_password)
        (rw (hash_password_lem u other salt no_ ns, text)
          (compare_records salt (pbkdf2 other salt) (pbkdf2 password salt) ascii (hex other salt)
            (hex password salt)))
