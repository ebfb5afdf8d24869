-- ===== src/UserService.antt =====
-- server/src/api/services/user.service.ts: the reads that the other services make. The children
-- have the operations that change a user.
pub mod Creating
pub mod Changing
pub mod Identities
use home_gate.Model.{UserStatus, User, World}
use home_gate.Common.{ℕ, String, Bool, Option, none, some}
use home_gate.Environment.{Environment}
use home_gate.Repositories.Users
use mathlib.Core.Option

-- UserResponseDto
pub record UserResponse : Type 0 where
  pub id : String
  pub email : String
  pub username : String
  pub first_name : String
  pub last_name : String
  pub is_admin : Bool
  pub avatar_url : Option String

abbrev pub user_model_to_load_request : User → UserResponse
user_model_to_load_request u = record {
  id = u.id;
  email = u.email;
  username = u.username;
  first_name = u.first_name;
  last_name = u.last_name;
  is_admin = u.is_admin;
  avatar_url = u.avatar_url;
}

-- UserResponseForAdminDto; `avatar_url` is null or undefined where it is none.
pub record UserResponseForAdmin : Type 0 where
  pub id : String
  pub email : String
  pub username : String
  pub first_name : String
  pub last_name : String
  pub is_admin : Bool
  pub status : UserStatus
  pub avatar_url : Option String
  pub created_at : ℕ

abbrev pub user_model_to_load_request_for_admin : User → UserResponseForAdmin
user_model_to_load_request_for_admin u = record {
  id = u.id;
  email = u.email;
  username = u.username;
  first_name = u.first_name;
  last_name = u.last_name;
  is_admin = u.is_admin;
  status = u.status;
  avatar_url = u.avatar_url;
  created_at = u.created_at;
}

-- What `getUserByEmail` makes of a row: it leaves the avatar out.
abbrev pub without_avatar : User → UserResponseForAdmin
without_avatar u = record (user_model_to_load_request_for_admin u) { avatar_url = none }

module _ (env : Environment) where
  unfoldable pub get_user_by_id : String → World → Option UserResponse
  get_user_by_id id w = Option.map user_model_to_load_request (Users.find_by_id env id w)

  unfoldable pub get_user_by_id_for_admin : String → World → Option UserResponseForAdmin
  get_user_by_id_for_admin id w =
      Option.map user_model_to_load_request_for_admin (Users.find_by_id env id w)

  unfoldable pub get_user_by_email : String → World → Option UserResponseForAdmin
  get_user_by_email email w = Option.map without_avatar (Users.find_by_email env email w)

  pub get_avatar_url : String → World → Option String
  get_avatar_url id w = elim (Users.find_by_id env id w) [ none ↦ none | some u ↦ u.avatar_url ]
