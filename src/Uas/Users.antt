-- ===== src/Uas/Users.antt =====
-- UserService of user_management/user_service.py. The table `users` is a dictionary by its primary
-- key; the table `purchases` is the operators' names, one for each purchase, or `none` where the
-- database has no such table (the schema of the user_management domain in shared/storage.py). A
-- statement in `with self.storage.connect()` that raises leaves the database as it was.
pub mod Requests
pub mod Admins
pub mod Faults
mod Tests
use sbd_drones_economics.Base.{
  ℕ, String, ◌≡◌, Bool, true, false, ◌&&◌, ◌||◌, not, Option, none, some, List, [], ◌∷◌, ◌==◌, ◌⊕◌,
  leb, eqb, if◌then◌else◌, is_some, length, count, contains, Dict, lookup, insert, erase, values,
  map, sort_by,
}
use sbd_drones_economics.Outcome.{
  Exception, Result, ok, err, authorization_error, value_error, integrity_error, operational_error,
}
use sbd_drones_economics.Outcome.Action.{
  Action, pure, raise, lift, gets, or_raise, modify, raise_if, done, ◌>>=◌, ◌>>◌,
}
use sbd_drones_economics.Uas.Roles
use sbd_drones_economics.Uas.Journal.{Journal, record_event}
use sbd_drones_economics.Uas.Auth.{hash_password, verify_password}

pub record User : Type 0 where
  pub username : String
  pub role : String
  pub password_hash : String
  pub is_active : Bool

pub record UserStore : Type 0 where
  pub users : Dict User
  pub purchases : Option (List String)
  pub journal : Journal

-- What a client sees of an account: its name, its role and whether it is active.
abbrev pub Account : Type 0
Account = String × String × Bool

abbrev pub is_admin : User → Bool
is_admin u = u.role == Roles.admin

abbrev pub is_active_admin : User → Bool
is_active_admin u = u.role == Roles.admin && u.is_active

abbrev record_in : (event_type severity subject details : String) → Action UserStore Unit
record_in event_type severity subject details = do
  s ← gets (λ s. s)
  j ← lift (record_event s.journal event_type severity "user_management" subject details)
  modify (λ s. record s { journal = j })

module _ (pbkdf2 : (password salt : String) → String) where
  -- `_create_user`; the insertion fails on a repeated primary key. The new account is returned.
  pub create_row : (token username role password : String) → Action UserStore Account
  create_row token username role password = do
    raise_if (not (contains Roles.all role)) (value_error ("unsupported role: " ⊕ role))
    password_hash ← lift (hash_password pbkdf2 token password none)
    s ← gets (λ s. s)
    raise_if (is_some (lookup username s.users))
        (integrity_error "UNIQUE constraint failed: users.username")
    modify (λ s. record s {
      users =
          insert username
            (record {
              username = username;
              role = role;
              password_hash = password_hash;
              is_active = true;
            })
            s.users;
    })
    pure (username, role, true)

  pub bootstrap_admin : (token username password : String) → Action UserStore Account
  bootstrap_admin token username password = do
    s ← gets (λ s. s)
    raise_if (not (eqb (length s.users) 0))
        (authorization_error "admin bootstrap is allowed only for an empty database")
    result ← create_row token username Roles.admin password
    record_in "admin_bootstrapped" "info" username ""
    pure result

  pub create_user : (token actor_role username role password : String) → Action UserStore Account
  create_user token actor_role username role password = do
    lift (Roles.require_role actor_role Roles.admin)
    result ← create_row token username role password
    record_in "user_created" "info" username ("role=" ⊕ role)
    pure result

  -- The name and the role of the account.
  pub authenticate : (token username password : String) → Action UserStore (String × String)
  authenticate token username password = do
    row ←
        or_raise (← gets (λ s. lookup username s.users)) (authorization_error "invalid credentials")
    raise_if (not row.is_active) (authorization_error "invalid credentials")
    verified ← lift (verify_password pbkdf2 token password row.password_hash)
    raise_if (not verified) (authorization_error "invalid credentials")
    pure (row.username, row.role)

abbrev pub public_columns : User → Account
public_columns u = (u.username, u.role, u.is_active)

pub list_users : (actor_role : String) → Action UserStore (List Account)
list_users actor_role = do
  lift (Roles.require_role actor_role Roles.admin)
  gets (λ s. map public_columns (sort_by (λ u. u.username) (values s.users)))

abbrev flag : Bool → String
flag true = "True"
flag false = "False"

abbrev severity_of_active : Bool → String
severity_of_active true = "info"
severity_of_active false = "warning"

pub set_user_active : (actor_role username : String) → Bool → Action UserStore (String × Bool)
set_user_active actor_role username is_active = do
  lift (Roles.require_role actor_role Roles.admin)
  s ← gets (λ s. s)
  row ← or_raise (lookup username s.users) (value_error "user is not found")
  raise_if
      (not is_active && row.role == Roles.admin && leb (count is_active_admin (values s.users)) 1)
      (value_error "cannot deactivate the last administrator")
  modify (λ s. record s { users = insert username (record row { is_active = is_active }) s.users })
  record_in "user_active_changed" (severity_of_active is_active) username
      ("is_active=" ⊕ flag is_active)
  pure (username, is_active)

pub delete_user : (actor_role username : String) → Action UserStore String
delete_user actor_role username = do
  lift (Roles.require_role actor_role Roles.admin)
  s ← gets (λ s. s)
  row ← or_raise (lookup username s.users) (value_error "user is not found")
  raise_if (row.role == Roles.admin && leb (count is_admin (values s.users)) 1)
      (value_error "cannot delete the last administrator")
  purchases ← or_raise s.purchases (operational_error "no such table: purchases")
  raise_if (contains purchases username) (value_error "cannot delete user with purchase history")
  modify (λ s. record s { users = erase username s.users })
  record_in "user_deleted" "alert" username ""
  pure username
