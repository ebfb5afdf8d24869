-- ===== src/AuthService/SigningUp/Beginning.antt =====
-- When `beginSignUp` lets a holder of a token on to the provider.

use home_gate.AuthService.SigningUp.{
  BeginSignUpResult, signup_completion_window, reject_existing, begin_sign_up,
}
use home_gate.InviteService.Redeeming.Attempts.{Redeemable, validate_token_same, validate_token_iff}
use home_gate.InviteService.Redeeming.{validate_token}
use home_gate.UserService.{get_user_by_email}
use home_gate.Environment.{Environment}
use home_gate.Effects.{
  Outcome, ◌>>=◌, ◌>>◌, pure, gets, bind_returned, then_returned, returned, threw,
}
use home_gate.Model.{Invite, World}
use home_gate.Common.{◌+◌, String, ◌≡◌, refl, sym, ap, ◌∙◌, Option, none, some, arith}
use home_gate.Repositories.Users
use home_gate.Repositories.Invites

module _ (env : Environment) (token : String) (w : World) where
  -- The address that an invite is bound to, if any, is that of no account.
  abbrev pub IsVacant : Option String → Type 0
  IsVacant none = Unit
  IsVacant (some email) = Users.find_by_email env email w ≡ none

  reject_existing-IsVacant :
      (bound : Option String) (w' : World)
      → reject_existing env bound w ≡ returned tt w'
      → IsVacant bound × (w' ≡ w)
  unfolding reject_existing get_user_by_email
  reject_existing-IsVacant none w' e = (tt, ground arith)
  reject_existing-IsVacant (some email) w' e = (ground arith, ground arith)

  go_on :
      (i : Invite) (answer : BeginSignUpResult) (w' : World) (o : Outcome (Unit {0}))
      → reject_existing env i.email w ≡ o
      → (reject_existing env i.email
            >> (gets (λ w. w.now) >>= (λ now.
                pure (record { invite_id = i.id; expires_at = now + signup_completion_window }))))
          w
        ≡ returned answer w'
      → IsVacant i.email
        × (answer ≡ record { invite_id = i.id; expires_at = w.now + 600000 })
        × (w' ≡ w)
  go_on i answer w' (threw x v) p e = absurd (ground arith)
  go_on i answer w' (returned a v) p e =
      let (vacant, same) = reject_existing-IsVacant i.email v p in
      let rest = sym (then_returned (reject_existing env i.email) _ w v a p) ∙ e in
      (vacant, ground arith, ground arith)

  -- A sign-up begins only with the token of a stored invite that is neither revoked, used nor
  -- expired, and that is bound to no address which an account has already. The answer names the
  -- invite and gives ten minutes, and nothing is written.
  pub begin_sign_up-Redeemable :
      (answer : BeginSignUpResult) (w' : World)
      → begin_sign_up env token w ≡ returned answer w'
      → (i : Invite) × (Invites.find_by_token env (env.hash_sha256 token) w ≡ some i)
        × Redeemable none w.now i
        × IsVacant i.email
        × (answer ≡ record { invite_id = i.id; expires_at = w.now + 600000 })
        × (w' ≡ w)
  unfolding begin_sign_up
  begin_sign_up-Redeemable answer w' e = go (validate_token env token none w) refl
    where
      go :
          (o : Outcome Invite)
          → validate_token env token none w ≡ o
          → (i : Invite) × (Invites.find_by_token env (env.hash_sha256 token) w ≡ some i)
            × Redeemable none w.now i
            × IsVacant i.email
            × (answer ≡ record { invite_id = i.id; expires_at = w.now + 600000 })
            × (w' ≡ w)
      go (threw x v) p = absurd (ground arith)
      go (returned i v) p =
          let same = validate_token_same env token none w i v p in
          let accepted = p ∙ ap (λ x. returned i x) same in
          let (found, redeemable) = (validate_token_iff env token none w i).0 accepted in
          let rest = sym (bind_returned (validate_token env token none) _ w _ _ accepted) ∙ e in
          let (vacant, named, kept) = go_on i answer w' (reject_existing env i.email w) refl rest in
          (i, found, redeemable, vacant, named, kept)
