-- ===== src/Uas/Users/Faults.antt =====
-- What UserService refuses, and where it does not do what it means to.
use sbd_drones_economics.Base.{
  String, ◌≤◌, ◌≡◌, ◌≢◌, true, false, none, some, List, arith, eq_iff, lookup, insert, contains,
  count-erase, lookup-insert_self, Option-cases, inl, inr, strip, refl, ap, ◌∙◌, ◌⊕◌, Bool, eq_refl,
  if◌then◌else◌, is_some,
}
use sbd_drones_economics.Outcome.{ok, err, is_ok, authorization_error, value_error}
use sbd_drones_economics.Uas.Roles
use sbd_drones_economics.Uas.Journal.{security_event, record_event}
use sbd_drones_economics.Uas.Auth.{
  hash_password, verify_password, has_dollar, is_ascii, verify-hash_password, hash_password_lem,
  hash_password-none,
}
use sbd_drones_economics.Uas.Users.{
  User, UserStore, Account, is_admin, is_active_admin, create_row, create_user, authenticate,
  set_user_active, delete_user,
}
use sbd_drones_economics.Uas.Users.Admins.{admins, active_admins}

-- In a database without the table `purchases` no account can be deleted: the call raises, and the
-- store stays as it was.
delete_user-no_table :
    (actor username : String) (s : UserStore)
    → s.purchases ≡ none
    → (is_ok (delete_user actor username s).0 ≡ false) × ((delete_user actor username s).1 ≡ s)
unfolding delete_user
delete_user-no_table actor username s h = ground arith

-- In a store with the table `purchases` and no journal, deleting the only active administrator, who
-- placed no order, succeeds where another administrator is on record, although that one is switched
-- off; no active administrator is left.
delete_user-last_active :
    (username : String) (row : User) (bought : List String) (s : UserStore)
    → s.purchases ≡ some bought
    → contains bought username ≡ false
    → lookup username s.users ≡ some row
    → is_active_admin row ≡ true
    → active_admins s ≡ 1
    → 2 ≤ admins s
    → s.journal ≡ none
    → let (r, after) = delete_user Roles.admin username s in
      (r ≡ ok username) × (active_admins after ≡ 0) × (1 ≤ admins after)
unfolding delete_user Roles.require_role record_event
delete_user-last_active username row bought s table clean found act only two quiet = ground (
  arith,
  count-erase is_admin username row s.users found,
  eq_iff Roles.admin Roles.admin,
  count-erase is_active_admin username row s.users found,
)

-- Right after an account was switched off, no password lets its user in.
authenticate-disabled :
    (pbkdf2 : (password salt : String) → String) (t actor username password : String)
    (s : UserStore)
    → is_ok (set_user_active actor username false s).0 ≡ true
    → (authenticate pbkdf2 t username password (set_user_active actor username false s).1).0
      ≡ err (authorization_error "invalid credentials")
unfolding set_user_active authenticate
authenticate-disabled pbkdf2 t actor username password s h =
    elim (Option-cases (lookup username s.users)) [
      | inl unknown ↦ ground arith
      | inr (row, e) ↦
          ground (arith, lookup-insert_self username (record row { is_active = false }) s.users)
    ]

module _ (pbkdf2 : (password salt : String) → String) where
  create_row_lem :
      (t username role password stored : String) (s : UserStore)
      → contains Roles.all role ≡ true
      → hash_password pbkdf2 t password none ≡ ok stored
      → lookup username s.users ≡ none
      → create_row pbkdf2 t username role password s ≡ (
        ok (username, role, true),
        record s {
          users =
              insert username
                (record {
                  username = username;
                  role = role;
                  password_hash = stored;
                  is_active = true;
                })
                s.users;
        },
      )
  unfolding create_row
  create_row_lem t username role password stored s known hashed fresh = ground arith

  authenticate_lem :
      (u username password : String) (row : User) (verdict : Bool) (s : UserStore)
      → lookup username s.users ≡ some row
      → row.is_active ≡ true
      → verify_password pbkdf2 u password row.password_hash ≡ ok verdict
      → (authenticate pbkdf2 u username password s).0 ≡ (
          if verdict
          then ok (row.username, row.role)
          else err (authorization_error "invalid credentials"))
  unfolding authenticate
  authenticate_lem u username password row verdict s found active verified = ground arith

-- Where the name is new, the role is one of the list, the password and the salt are not empty, and the
-- salt has no dollar sign and is ASCII, as the digests are: a new account can log in with its password at once, under the role it
-- was created with, and with any other password, whose digest differs, it cannot.
pub authenticate-create_row :
    (pbkdf2 : (password salt : String) → String) (t u username role password other : String)
    (s : UserStore)
    → password ≢ ""
    → t ≢ ""
    → has_dollar t ≡ false
    → is_ascii t ≡ true
    → ((p s : String) → is_ascii (pbkdf2 p s) ≡ true)
    → contains Roles.all role ≡ true
    → lookup username s.users ≡ none
    → other ≢ ""
    → pbkdf2 other t ≢ pbkdf2 password t
    → let after = (create_row pbkdf2 t username role password s).1 in
      ((authenticate pbkdf2 u username password after).0 ≡ ok (username, role))
      × ((authenticate pbkdf2 u username other after).0
          ≡ err (authorization_error "invalid credentials"))
authenticate-create_row pbkdf2 t u username role password other s np nt nd ascii hex known fresh no_
      differ =
    let stored : String = "pbkdf2_sha256" ⊕ "$" ⊕ t ⊕ "$" ⊕ pbkdf2 password t in
    let hashed : hash_password pbkdf2 t password none ≡ ok stored =
      hash_password-none pbkdf2 t password ∙ hash_password_lem pbkdf2 t password t np nt in
    let row : User = record {
      username = username;
      role = role;
      password_hash = stored;
      is_active = true;
    } in
    let found : lookup username (insert username row s.users) ≡ some row =
      lookup-insert_self username row s.users in
    let made = hash_password_lem pbkdf2 t password t np nt in
    rw (create_row_lem pbkdf2 t username role password stored s known hashed fresh) (
      authenticate_lem pbkdf2 u username password row true _ found refl (
          verify-hash_password pbkdf2 t u password password t np np nt nd ascii hex made
          ∙ ap ok (eq_refl (pbkdf2 password t))),
      authenticate_lem pbkdf2 u username other row false _ found refl (
          verify-hash_password pbkdf2 t u password other t np no_ nt nd ascii hex made
          ∙ ap ok (ground (arith, eq_iff (pbkdf2 other t) (pbkdf2 password t)))),
    )

create_user_unrecorded :
    (pbkdf2 : (password salt : String) → String) (t username role password : String) (s : UserStore)
    {after : UserStore} {made : Account}
    → create_row pbkdf2 t username role password s ≡ (ok made, after)
    → strip username ≡ ""
    → after.journal ≢ none
    → create_user pbkdf2 t Roles.admin username role password s
      ≡ (err (value_error "subject is required"), after)
unfolding create_user Roles.require_role record_event security_event strip
create_user_unrecorded pbkdf2 t username role password s made blank attached =
    ground (arith, eq_iff Roles.admin Roles.admin, eq_iff (strip username) "")

-- In a store with a journal, an administrator's call that creates an account whose name is new and
-- blank, with a password and a role of the list, raises, and the account is there.
create_user-blank_name :
    (pbkdf2 : (password salt : String) → String) (t username role password : String) (s : UserStore)
    → strip username ≡ ""
    → password ≢ ""
    → t ≢ ""
    → contains Roles.all role ≡ true
    → lookup username s.users ≡ none
    → s.journal ≢ none
    → let (r, after) = create_user pbkdf2 t Roles.admin username role password s in
      (is_ok r ≡ false) × (is_some (lookup username after.users) ≡ true)
create_user-blank_name pbkdf2 t username role password s blank np nt known fresh attached =
    let stored : String = "pbkdf2_sha256" ⊕ "$" ⊕ t ⊕ "$" ⊕ pbkdf2 password t in
    let hashed : hash_password pbkdf2 t password none ≡ ok stored =
      hash_password-none pbkdf2 t password ∙ hash_password_lem pbkdf2 t password t np nt in
    let row : User = record {
      username = username;
      role = role;
      password_hash = stored;
      is_active = true;
    } in
    let made = create_row_lem pbkdf2 t username role password stored s known hashed fresh in
    rw (create_user_unrecorded pbkdf2 t username role password s made blank attached)
      (refl, ap is_some (lookup-insert_self username row s.users))
