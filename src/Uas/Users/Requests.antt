-- ===== src/Uas/Users/Requests.antt =====
-- The messages of user_management/handlers.py, and a run of the service over a list of them.
use sbd_drones_economics.Base.{String, Bool, List, [], ◌∷◌, true, false, strip}
use sbd_drones_economics.Outcome.Action.{Action, ◌>>=◌, pure}
use sbd_drones_economics.Uas.Users.{
  UserStore, Account, bootstrap_admin, create_user, authenticate, list_users, set_user_active,
  delete_user,
}

-- `token` is the salt that `secrets` would give.
pub data Request : Type 0 where
  bootstrap : (token username password : String) → Request
  login : (token username password : String) → Request
  create : (token actor_role username role password : String) → Request
  list : (actor_role : String) → Request
  enable disable delete : (actor_role username : String) → Request

pub data Reply : Type 0 where
  account : Account → Reply
  credentials : String × String → Reply
  accounts : List Account → Reply
  activity : String × Bool → Reply
  deleted : String → Reply

module _ (pbkdf2 : (password salt : String) → String) where
  unfoldable pub handle : Request → Action UserStore Reply
  handle (bootstrap t u p) = bootstrap_admin pbkdf2 t u p >>= λ a. pure (account a)
  handle (login t u p) = authenticate pbkdf2 t u p >>= λ a. pure (credentials a)
  handle (create t a u r p) = create_user pbkdf2 t a (strip u) (strip r) p >>= λ a. pure (account a)
  handle (list a) = list_users a >>= λ l. pure (accounts l)
  handle (enable a u) = set_user_active a u true >>= λ r. pure (activity r)
  handle (disable a u) = set_user_active a u false >>= λ r. pure (activity r)
  handle (delete a u) = delete_user a u >>= λ r. pure (deleted r)

  -- The store after the requests; a request that raises ends, and the next one is served.
  unfoldable pub serve : List Request → UserStore → UserStore
  serve [] s = s
  serve (r ∷ rs) s = serve rs (handle r s).1
