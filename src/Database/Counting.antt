-- ===== src/Database/Counting.antt =====
-- Among more distinct names than a table has rows, one is free.

use home_gate.Common.{
  ◌+◌, ◌≤◌, String, ◌≡◌, refl, inl, inr, Bool, true, false, List, [], ◌∷◌, arith, eq_iff, ◌==◌,
  Bool-cases, length, any, keep, All, nat_eq, string_eq,
}

-- No name occurs twice.
abbrev pub AllDistinct : List String → Type 0
AllDistinct [] = Unit
AllDistinct (n ∷ names) = (any (λ m. n == m) names ≡ false) × AllDistinct names

module _ {Row : Type 0} (name : Row → String) where
  abbrev is_named : List String → Row → Bool
  is_named names r = any (λ n. name r == n) names

  length-keep : (p : Row → Bool) (rows : List Row) → length (keep p rows) ≤ length rows
  length-keep p [] = omega arith
  length-keep p (r ∷ rows) = ground (arith, length-keep p rows)

  same_name :
      (n : String) (names : List String) (r : Row)
      → any (λ m. n == m) names ≡ false
      → (name r == n) ≡ true
      → is_named names r ≡ false
  same_name n names r h e = rw ((eq_iff (name r) n).0 e) h

  -- Two tests that no row passes together.
  length-keep_cons :
      (n : String) (names : List String) (rows : List Row)
      → any (λ m. n == m) names ≡ false
      → length (keep (is_named (n ∷ names)) rows)
        ≡ length (keep (λ r. name r == n) rows) + length (keep (is_named names) rows)
  length-keep_cons n names [] h = refl
  length-keep_cons n names (r ∷ rows) h = elim (Bool-cases (name r == n)) [
    | inl e ↦ ground (arith, same_name n names r h e, length-keep_cons n names rows h)
    | inr e ↦ ground (arith, length-keep_cons n names rows h)
  ]

  -- Distinct names that all occur are no more than the rows.
  pub length-AllDistinct :
      (names : List String) (rows : List Row)
      → AllDistinct names
      → All (λ n. 1 ≤ length (keep (λ r. name r == n) rows)) names
      → length names ≤ length (keep (is_named names) rows)
  length-AllDistinct [] rows d h = omega arith
  length-AllDistinct (n ∷ names) rows (f, d) (k, h) =
      ground (arith, length-keep_cons n names rows f, length-AllDistinct names rows d h)

  pub some_free :
      (names : List String) (rows : List Row)
      → AllDistinct names
      → All (λ n. 1 ≤ length (keep (λ r. name r == n) rows)) names
      → length names ≤ length rows
  some_free names rows d h =
      ground (arith, length-AllDistinct names rows d h, length-keep (is_named names) rows)
