-- ===== src/Database/Keys.antt =====
-- What a second test may be added to: a read by a key that no two rows share.

use home_gate.Database.{Table}
use home_gate.Common.{
  ◌≤◌, ◌≡◌, refl, ap, ◌∙◌, inl, inr, Bool, true, false, not, ◌&&◌, none, some, List, arith,
  Bool-cases, Option-cases, is_some, length,
}
use mathlib.Core.Path.{fun_ext}

module _ {Row : Type 0} (table : Table Row) (q p : Row → Bool) (rows : List Row) where
  -- Two rows are counted where one passes the second test and one does not.
  two_rows :
      (r s : Row)
      → table.find (λ r. q r && p r) rows ≡ some r
      → table.find (λ r. q r && not (p r)) rows ≡ some s
      → 2 ≤ length (table.find_many q rows)
  two_rows r s e f = ground (
    arith,
    table.count-remove q p rows,
    table.find-remove q p rows,
    table.find-count (λ r. q r && p r) rows,
    table.find-count q (table.remove p rows),
  )

  -- The row that a key and a second test select is the one that the key selects.
  pub find_unique :
      (r : Row)
      → length (table.find_many q rows) ≤ 1
      → table.find (λ r. q r && p r) rows ≡ some r
      → table.find q rows ≡ some r
  find_unique r unique e = elim (Option-cases (table.find q rows)) [
    | inl f ↦ absurd (
        ground (
          arith,
          table.count-remove q p rows,
          table.find-count (λ r. q r && p r) rows,
          table.find-count q rows,
        ))
    | inr (s, f) ↦ elim (Bool-cases (p s)) [
      | inl g ↦ ground (arith, table.find-refine q p rows s f g)
      | inr g ↦ absurd (
          ground (arith, two_rows r s e, table.find-refine q (λ r. not (p r)) rows s f (rw g refl)))
    ]
  ]

-- No row is left that a removal has accepted.
pub find-remove_self :
    {Row : Type 0} (table : Table Row) (q : Row → Bool) (rows : List Row)
    → table.find q (table.remove q rows) ≡ none
find-remove_self table q rows = elim (Option-cases (table.find (λ r. q r && not (q r)) rows)) [
  | inl f ↦ table.find-remove q q rows ∙ f
  | inr (r, f) ↦ absurd (ground (arith, table.find-sound (λ r. q r && not (q r)) rows r f))
]

-- No row is left of those that a removal accepts among others.
pub find-remove_wider :
    {Row : Type 0} (table : Table Row) (q p : Row → Bool) (rows : List Row)
    → ((r : Row) → q r ≡ true → p r ≡ true)
    → table.find q (table.remove p rows) ≡ none
find-remove_wider table q p rows h = elim (Option-cases (table.find (λ r. q r && not (p r)) rows)) [
  | inl f ↦ table.find-remove q p rows ∙ f
  | inr (r, f) ↦ absurd (ground (arith, table.find-sound (λ r. q r && not (p r)) rows r f, h r))
]

-- A removal that does not accept the rows of a key leaves the read by this key alone.
pub find-remove_apart :
    {Row : Type 0} (table : Table Row) (q p : Row → Bool) (rows : List Row)
    → ((r : Row) → q r ≡ true → p r ≡ false)
    → table.find q (table.remove p rows) ≡ table.find q rows
find-remove_apart table q p rows h =
    table.find-remove q p rows
    ∙ ap (λ test. table.find test rows)
        (fun_ext
          λ r. elim (Bool-cases (q r)) [ inl e ↦ ground (arith, h r) | inr e ↦ ground arith ])

-- A row that is found by one test and passes another is there for a read by the other, too.
pub find-is_some :
    {Row : Type 0} (table : Table Row) (q p : Row → Bool) (rows : List Row) (r : Row)
    → table.find q rows ≡ some r
    → p r ≡ true
    → is_some (table.find p rows) ≡ true
find-is_some table q p rows r e f = elim (Option-cases (table.find p rows)) [
  | inr (s, g) ↦ ground arith
  | inl g ↦
      let swapped =
        ap (λ test. table.find test rows)
          (fun_ext {f = λ s. q s && p s} {g = λ s. p s && q s} λ s. ground arith) in
      absurd (
        ground (
          arith,
          table.find-refine q p rows r e f,
          table.find-count p rows,
          table.count-remove p q rows,
          table.find-count (λ s. p s && q s) rows,
        ))
]

-- An update that does not accept the rows of a key leaves the read by this key alone.
pub find-update_apart :
    {Row : Type 0} (table : Table Row) (q p : Row → Bool) (f : Row → Row) (rows : List Row)
    → ((r : Row) → q (f r) ≡ q r)
    → ((r : Row) → q r ≡ true → p r ≡ false)
    → table.find q (table.update p f rows) ≡ table.find q rows
find-update_apart table q p f rows h k = elim (Option-cases (table.find q rows)) [
  | inl e ↦ ground (arith, table.find-update q p f rows h)
  | inr (r, e) ↦ ground (arith, table.find-update q p f rows h, k r (table.find-sound q rows r e))
]
