-- ===== src/Uas/Users/Tests.antt =====
-- A small company, and the theorems on accounts at it.
use sbd_drones_economics.Base.{
  Bool-cases, inl, inr, if◌then◌else◌, ◌==◌, String, ◌≡◌, refl, true, false, none, some, [], ◌∷◌,
  arith, ◌⊕◌, eq_iff,
}
use sbd_drones_economics.Outcome.{ok, err, authorization_error, type_error}
use sbd_drones_economics.Uas.Roles
use sbd_drones_economics.Uas.Auth.{
  verify_password, hash_password, split_hash, verify-hash_password, is_ascii, compare_digest,
}
use sbd_drones_economics.Uas.Users.{User, UserStore, create_row, authenticate}
use sbd_drones_economics.Uas.Users.Requests.{disable, delete, serve}
use sbd_drones_economics.Uas.Users.Admins.{HasAdmin, serve-HasAdmin}
use sbd_drones_economics.Uas.Users.Faults.{authenticate-create_row}

abbrev digest : String → String → String
digest password salt = salt ⊕ ":" ⊕ password

abbrev root : User
root = record { username = "root"; role = Roles.admin; password_hash = ""; is_active = true }

abbrev retired : User
retired = record { username = "old"; role = Roles.admin; password_hash = ""; is_active = false }

abbrev buyer : User
buyer = record { username = "bob"; role = Roles.operator; password_hash = ""; is_active = true }

abbrev office : UserStore
office = record {
  users = ("root", root) ∷ ("old", retired) ∷ ("bob", buyer) ∷ [];
  purchases = some ("ann" ∷ []);
  journal = none;
}

-- The user_management database of the deployment by domains, with a journal.
abbrev domain_store : UserStore
domain_store = record { users = ("root", root) ∷ []; purchases = none; journal = some [] }

-- A digest for the tests, in ASCII whatever is hashed.
abbrev lengths : String → String → String
lengths password salt = if password == "pw" then "d1" else "d2"

lengths-is_ascii : (p s : String) → is_ascii (lengths p s) ≡ true
lengths-is_ascii p s = elim (Bool-cases (p == "pw")) [ inl e ↦ rw e refl | inr e ↦ rw e refl ]

office-HasAdmin : HasAdmin office
office-HasAdmin = record {
  valid = record {
    keyed = (refl, (refl, (refl, tt)));
    named = λ k u found. ground (arith, eq_iff "root" k, eq_iff "old" k, eq_iff "bob" k);
  };
  some_admin = omega arith;
}

login_after_create :
    (authenticate digest "x" "ann" "pw"
      (create_row digest "salt" "ann" Roles.operator "pw" office).1).0
    ≡ ok ("ann", Roles.operator)
unfolding authenticate create_row verify_password hash_password split_hash compare_digest
login_after_create = refl

verify-hash_password_example :
    verify_password lengths "u" "guess" "pbkdf2_sha256$salt$d1" ≡ ok false
unfolding hash_password
verify-hash_password_example =
    verify-hash_password lengths "t" "u" "pw" "guess" "salt" {stored = "pbkdf2_sha256$salt$d1"}
      (ground (arith, eq_iff "pw" "")) (ground (arith, eq_iff "guess" ""))
      (ground (arith, eq_iff "salt" "")) refl refl lengths-is_ascii refl

-- A salt that is not ASCII makes a record that no password can be compared with.
umlaut :
    verify_password digest "u" "pw" "pbkdf2_sha256$ü$ü:pw"
    ≡ err (type_error "comparing strings with non-ASCII characters is not supported")
unfolding verify_password hash_password split_hash compare_digest
umlaut = refl

serve-HasAdmin_example : HasAdmin (
    serve digest
      (disable Roles.admin "root" ∷ delete Roles.admin "root" ∷ delete Roles.admin "old" ∷ [])
      office)
serve-HasAdmin_example =
    serve-HasAdmin digest
      (disable Roles.admin "root" ∷ delete Roles.admin "root" ∷ delete Roles.admin "old" ∷ [])
      office office-HasAdmin

abbrev empty_store : UserStore
empty_store = record { users = []; purchases = none; journal = none }

authenticate-create_row_example :
    let after = (create_row lengths "salt" "ann" Roles.operator "pw" office).1 in
    ((authenticate lengths "u" "ann" "pw" after).0 ≡ ok ("ann", Roles.operator))
    × ((authenticate lengths "u" "ann" "guess" after).0
        ≡ err (authorization_error "invalid credentials"))
authenticate-create_row_example =
    authenticate-create_row lengths "salt" "u" "ann" Roles.operator "pw" "guess" office
      (ground (arith, eq_iff "pw" "")) (ground (arith, eq_iff "salt" "")) refl refl lengths-is_ascii
      refl refl (ground (arith, eq_iff "guess" "")) (ground (arith, eq_iff "d2" "d1"))
