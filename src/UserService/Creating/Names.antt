-- ===== src/UserService/Creating/Names.antt =====
-- The loop of `generateUsername` ends.
use home_gate.Database.Counting.{AllDistinct, some_free}
use home_gate.Common.{
  ℕ, zero, suc, ◌+◌, ◌≤◌, String, ◌≡◌, refl, ◌⊎◌, inl, inr, true, false, List, [], ◌∷◌, arith, ◌==◌,
  Bool-cases, length, keep, All, nat_eq, string_eq,
}
use home_gate.Model.{User, World}
use home_gate.Effects.{Outcome, returned}
use home_gate.Environment.{Environment}
use home_gate.Repositories.Users
use home_gate.UserService.Creating.{numbered, draw_username, base_name, generate_username}

module _ (env : Environment) where
  -- The names that the loop tries, from the given one on: it and one for each draw.
  abbrev pub attempts : ℕ → String → String → ℕ → List String
  attempts zero base username drawn = username ∷ []
  attempts (suc draws) base username drawn =
      username ∷ attempts draws base (numbered env base drawn) (drawn + 1)

  length-attempts :
      (draws : ℕ) (base username : String) (drawn : ℕ)
      → length (attempts draws base username drawn) ≡ draws + 1
  length-attempts zero base username drawn = refl
  length-attempts (suc draws) base username drawn =
      ground (arith, length-attempts draws base (numbered env base drawn) (drawn + 1))

  abbrev IsTaken : World → String → Type 0
  IsTaken w n =
      1 ≤ length (keep (λ (u : User). u.username == n) (env.users.find_many (λ u. true) w.users))

  username_exists-IsTaken :
      (username : String) (w : World)
      → Users.username_exists env username w ≡ true
      → IsTaken w username
  unfolding Users.username_exists
  username_exists-IsTaken username w e =
      ground (arith, env.users.count-refine (λ u. true) (λ u. u.username == username) w.users)

  -- A name was found that is free, and only numbers were drawn.
  abbrev pub Chosen : Outcome String → World → Type 0
  Chosen o w =
      (username : String) × ((n : ℕ) × (o ≡ returned username (record w { drawn = n }))
        × (Users.username_exists env username w ≡ false))

  -- Either a free name is found or every name that is tried is taken.
  draw_username-cases :
      (draws : ℕ) (base username : String) (w : World)
      → Chosen (draw_username env draws base username w) w
        ⊎ All (IsTaken w) (attempts draws base username w.drawn)
  unfolding draw_username Users.username_exists
  draw_username-cases zero base username w =
      elim (Bool-cases (Users.username_exists env username w)) [
        | inl e ↦ inr (username_exists-IsTaken username w e, tt)
        | inr e ↦ inl (username, (w.drawn, ground arith, e))
      ]
  draw_username-cases (suc draws) base username w =
      elim (Bool-cases (Users.username_exists env username w)) [
        | inr e ↦ inl (username, (w.drawn, ground arith, e))
        | inl e ↦
            elim (draw_username-cases draws base (numbered env base w.drawn)
              (record w { drawn = w.drawn + 1 })) [
                | inl (found, (n, f, g)) ↦ inl (found, (n, ground arith, g))
                | inr h ↦ inr (username_exists-IsTaken username w e, h)
              ]
      ]

  -- Where the names that are tried are pairwise distinct and the model follows as many draws as
  -- there are users, the loop of `generateUsername` ends with a username that nobody has.
  pub generate_username_ends :
      (email : String) (w : World)
      → AllDistinct (attempts env.patience (base_name env email) (base_name env email) w.drawn)
      → Users.count_all env w ≤ env.patience
      → Chosen (generate_username env email w) w
  unfolding generate_username Users.count_all
  generate_username_ends email w d h =
      elim (draw_username-cases env.patience (base_name env email) (base_name env email) w) [
        | inl c ↦ c
        | inr taken ↦ absurd (
            ground (
              arith,
              some_free (λ (u : User). u.username)
                  (attempts env.patience (base_name env email) (base_name env email) w.drawn)
                  (env.users.find_many (λ u. true) w.users) d taken,
              length-attempts env.patience (base_name env email) (base_name env email) w.drawn,
            ))
      ]
