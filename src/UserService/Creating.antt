-- ===== src/UserService/Creating.antt =====
-- `createUser` and `generateUsername` of user.service.ts.
use home_gate.Effects.{M, pure, still_running, returned, threw, ◌>>=◌}
pub mod Names
use home_gate.Common.{
  ℕ, zero, suc, ◌+◌, String, Bool, Option, ◌==◌, if◌then◌else◌, nat_eq, string_eq,
}
use home_gate.Environment.{Environment}
use home_gate.Repositories.Users
use home_gate.UserService.{UserResponseForAdmin, user_model_to_load_request_for_admin}
use Prim.Native.String
use mathlib.Core.Option
use Prim.Native.Char.{code}

-- `email.split('@')[0]`
unfoldable pub before_at : String → String
before_at String.[] = ""
before_at (String.◌∷◌ c text) =
    let rest = before_at text in if code c == 64 then "" else String.◌∷◌ c rest

-- UserCreateRequestDto, with the fields of the invite that the sign-up adds.
pub record UserCreateRequest : Type 0 where
  pub email : String
  pub first_name : String
  pub last_name : String
  pub is_admin : Bool

module _ (env : Environment) where
  -- `${base}${counter}` for the n-th number that is drawn.
  abbrev pub numbered : String → ℕ → String
  numbered base n = String.◌++◌ base (env.number_to_string (env.random_int n))

  -- The loop of `generateUsername`, of at most so many draws.
  unfoldable pub draw_username : ℕ → String → String → M String
  draw_username zero base username w =
      if Users.username_exists env username w then threw still_running w else returned username w
  draw_username (suc draws) base username w =
      let rest =
        draw_username draws base (numbered base w.drawn) (record w { drawn = w.drawn + 1 }) in
      if Users.username_exists env username w then rest else returned username w

  abbrev pub base_name : String → String
  base_name email = env.to_lower_case (before_at email)

  unfoldable pub generate_username : String → M String
  generate_username email = draw_username env.patience (base_name email) (base_name email)

  -- `create` returns a row or throws, so the answer is never null.
  unfoldable pub create_user : UserCreateRequest → M (Option UserResponseForAdmin)
  create_user request = do
    username ← generate_username request.email
    saved ← Users.create env (record {
      email = request.email;
      username = username;
      first_name = request.first_name;
      last_name = request.last_name;
      is_admin = request.is_admin;
    })
    pure (Option.map user_model_to_load_request_for_admin saved)
