-- ===== src/Uas/Users/Admins.antt =====
-- Administrators of the company: what every operation of UserService does to their number.
use sbd_drones_economics.Base.{
  true, false, strip, List-cases, refl, ◌≡◌, none, List, [], ◌∷◌, lookup-insert, lookup-erase_self,
  lookup-erase_ne, Bool-cases, ℕ, String, ◌≤◌, ◌≡◌, Bool, true, false, none, some, inl, inr, List,
  [], ◌∷◌, arith, ◌==◌, eq_iff, lookup, insert, erase, values, count, IsKeyed, Option-cases,
  insert-IsKeyed, erase-IsKeyed, count-insert, count-insert_new, count-erase,
}
use sbd_drones_economics.Outcome.{result_cases, is_ok}
use sbd_drones_economics.Uas.Users.Requests.{
  Request, bootstrap, login, create, list, enable, disable, delete, handle, serve,
}
use sbd_drones_economics.Uas.Roles
use sbd_drones_economics.Uas.Auth.{hash_password}
use sbd_drones_economics.Uas.Users.{
  User, UserStore, is_admin, is_active_admin, create_row, bootstrap_admin, create_user,
  authenticate, list_users, set_user_active, delete_user,
}

abbrev pub admins : UserStore → ℕ
admins s = count is_admin (values s.users)

abbrev pub active_admins : UserStore → ℕ
active_admins s = count is_active_admin (values s.users)

-- The accounts are stored under their own names, each name once.
pub record IsValid (s : UserStore) : Type 0 where
  pub keyed : IsKeyed s.users
  pub named : (k : String) (u : User) → lookup k s.users ≡ some u → u.username ≡ k

-- What every request keeps: a well-formed table with an administrator in it.
pub record HasAdmin (s : UserStore) : Type 0 where
  pub valid : IsValid s
  pub some_admin : 1 ≤ admins s

IsValid-insert :
    (k : String) (u : User) (s : UserStore)
    → IsValid s
    → u.username ≡ k
    → IsValid (record s { users = insert k u s.users })
IsValid-insert k u s v e = record {
  keyed = insert-IsKeyed k u s.users v.keyed;
  named = λ j w found. ground (arith, lookup-insert k j u s.users, eq_iff k j, v.named j w);
}

IsValid-erase :
    (k : String) (s : UserStore) → IsValid s → IsValid (record s { users = erase k s.users })
IsValid-erase k s v = record {
  keyed = erase-IsKeyed k s.users v.keyed;
  named = λ j w found. elim (Bool-cases (k == j)) [
    | inl same ↦ cc ((eq_iff k j).0 same, lookup-erase_self k s.users v.keyed)
    | inr other ↦ v.named j w (ground (arith, lookup-erase_ne k j s.users, eq_iff k j))
  ];
}

-- Switching an account on or off leaves an active administrator, where there was one.
set_user_active-keeps_active_admin :
    (actor username : String) (active : Bool) (s : UserStore)
    → 1 ≤ active_admins s
    → 1 ≤ active_admins (set_user_active actor username active s).1
unfolding set_user_active
set_user_active-keeps_active_admin actor username active s h =
    elim (Option-cases (lookup username s.users)) [
      | inl unknown ↦ ground arith
      | inr (row, e) ↦ ground (
        arith,
        count-insert is_active_admin username (record row { is_active = active }) row s.users e,
      )
    ]

set_user_active-HasAdmin :
    (actor username : String) (active : Bool) (s : UserStore)
    → HasAdmin s
    → HasAdmin (set_user_active actor username active s).1
unfolding set_user_active
set_user_active-HasAdmin actor username active s h = elim (Option-cases (lookup username s.users)) [
  | inl unknown ↦ ground arith
  | inr (row, e) ↦
      let row' : User = record row { is_active = active } in
      ground (
        arith,
        count-insert is_admin username row' row s.users e,
        IsValid-insert username row' s h.valid (h.valid.named username row e),
      )
]

delete_user-HasAdmin :
    (actor username : String) (s : UserStore)
    → HasAdmin s
    → HasAdmin (delete_user actor username s).1
unfolding delete_user
delete_user-HasAdmin actor username s h = elim (Option-cases (lookup username s.users)) [
  | inl unknown ↦ ground arith
  | inr (row, e) ↦
      ground (arith, count-erase is_admin username row s.users e, IsValid-erase username s h.valid)
]

-- The store after the first account, an administrator.
first-HasAdmin :
    (k : String) (u : User) (s : UserStore)
    → u.username ≡ k
    → u.role ≡ Roles.admin
    → HasAdmin (record s { users = (k, u) ∷ [] })
first-HasAdmin k u s named role = record {
  valid = record { keyed = (refl, tt); named = λ j w found. ground (arith, eq_iff k j) };
  some_admin = ground (arith, eq_iff u.role Roles.admin);
}

module _ (pbkdf2 : (password salt : String) → String) where
  create_row-HasAdmin :
      (t username role password : String) (s : UserStore)
      → HasAdmin s
      → HasAdmin (create_row pbkdf2 t username role password s).1
  unfolding create_row
  create_row-HasAdmin t username role password s h = elim (Option-cases (lookup username s.users)) [
    | inl fresh ↦ elim (result_cases (hash_password pbkdf2 t password none)) [
      | inl (stored, e) ↦
          let row : User = record {
            username = username;
            role = role;
            password_hash = stored;
            is_active = true;
          } in
          rw e (
            ground (
              arith,
              count-insert_new is_admin username row s.users fresh,
              IsValid-insert username row s h.valid,
            ))
      | inr (raised, e) ↦ rw e (ground arith)
    ]
    | inr (row, e) ↦ ground arith
  ]

  bootstrap_admin-HasAdmin :
      (t username password : String) (s : UserStore)
      → HasAdmin s
      → HasAdmin (bootstrap_admin pbkdf2 t username password s).1
  unfolding bootstrap_admin
  bootstrap_admin-HasAdmin t username password s h =
      ground (arith, create_row-HasAdmin t username Roles.admin password s h)

  create_user-HasAdmin :
      (t actor username role password : String) (s : UserStore)
      → HasAdmin s
      → HasAdmin (create_user pbkdf2 t actor username role password s).1
  unfolding create_user
  create_user-HasAdmin t actor username role password s h =
      ground (arith, create_row-HasAdmin t username role password s h)

  authenticate_keeps :
      (t username password : String) (s : UserStore)
      → (authenticate pbkdf2 t username password s).1 ≡ s
  unfolding authenticate
  authenticate_keeps t username password s = ground arith

  pub handle-HasAdmin : (r : Request) (s : UserStore) → HasAdmin s → HasAdmin (handle pbkdf2 r s).1
  unfolding handle
  handle-HasAdmin (bootstrap t u p) s h = ground (arith, bootstrap_admin-HasAdmin t u p s h)
  handle-HasAdmin (login t u p) s h = ground (arith, authenticate_keeps t u p s)
  handle-HasAdmin (create t a u r p) s h =
      ground (arith, create_user-HasAdmin t a (strip u) (strip r) p s h)
  handle-HasAdmin (list a) s h = unfold list_users in ground arith
  handle-HasAdmin (enable a u) s h = ground (arith, set_user_active-HasAdmin a u true s h)
  handle-HasAdmin (disable a u) s h = ground (arith, set_user_active-HasAdmin a u false s h)
  handle-HasAdmin (delete a u) s h = ground (arith, delete_user-HasAdmin a u s h)

  -- Whatever requests come, also those that raise: from a well-formed store with an administrator
  -- the service reaches only well-formed stores with an administrator.
  pub serve-HasAdmin :
      (rs : List Request) (s : UserStore) → HasAdmin s → HasAdmin (serve pbkdf2 rs s)
  unfolding serve
  serve-HasAdmin [] s h = h
  serve-HasAdmin (r ∷ rs) s h = serve-HasAdmin rs (handle pbkdf2 r s).1 (handle-HasAdmin r s h)

  -- A bootstrap that succeeds began with no account, and leaves an administrator.
  bootstrap_admin_first :
      (t username password : String) (s : UserStore)
      → is_ok (bootstrap_admin pbkdf2 t username password s).0 ≡ true
      → (s.users ≡ []) × HasAdmin (bootstrap_admin pbkdf2 t username password s).1
  unfolding bootstrap_admin create_row
  bootstrap_admin_first t username password s done = elim (List-cases s.users) [
    | inl empty ↦ elim (result_cases (hash_password pbkdf2 t password none)) [
      | inl (stored, e) ↦
          let row : User = record {
            username = username;
            role = Roles.admin;
            password_hash = stored;
            is_active = true;
          } in
          (
            empty,
            rw (e, empty)
                (ground
                  (arith, first-HasAdmin username row s refl refl, eq_iff Roles.admin Roles.admin)),
          )
      | inr (raised, e) ↦ cc (rw (e, empty) at done)
    ]
    | inr (x, xs, e) ↦ ground arith
  ]
