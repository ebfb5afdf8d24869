-- ===== src/Database/Memory.antt =====
-- A table in memory: it meets the laws of `Table`, so what assumes them can hold.

use home_gate.Common.{
  ◌+◌, ◌≤◌, ◌≡◌, refl, ◌↔◌, inl, inr, Bool, true, false, not, ◌&&◌, none, some, List, [], ◌∷◌, map,
  arith, if◌then◌else◌, Bool-cases, length, keep, first, last, All,
}
use mathlib.Core.Option
use home_gate.Database.{Table}

module _ {Row : Type 0} where
  abbrev append_row : Row → List Row → List Row
  append_row r [] = r ∷ []
  append_row r (s ∷ rows) = s ∷ append_row r rows

  abbrev update_rows : (Row → Bool) → (Row → Row) → List Row → List Row
  update_rows p f = map (λ r. if p r then f r else r)

  abbrev remove_rows : (Row → Bool) → List Row → List Row
  remove_rows p = keep (λ r. not (p r))

  pub first_sound :
      (q : Row → Bool) (rows : List Row) (r : Row) → first q rows ≡ some r → q r ≡ true
  first_sound q [] r e = ground arith
  first_sound q (s ∷ rows) r e = ground (arith, first_sound q rows r)

  pub keep_sound : (p : Row → Bool) (rows : List Row) → All (λ r. p r ≡ true) (keep p rows)
  keep_sound p [] = tt
  keep_sound p (s ∷ rows) = elim (Bool-cases (p s)) [
    | inl e ↦ rw e (e, keep_sound p rows)
    | inr e ↦ rw e (keep_sound p rows)
  ]

  pub first-append_row_new :
      (q : Row → Bool) (r : Row) (rows : List Row)
      → first q rows ≡ none
      → q r ≡ true
      → first q (append_row r rows) ≡ some r
  first-append_row_new q r [] e h = rw h
  first-append_row_new q r (s ∷ rows) e h = ground (arith, first-append_row_new q r rows)

  pub first-append_row_other :
      (q : Row → Bool) (r : Row) (rows : List Row)
      → q r ≡ false
      → first q (append_row r rows) ≡ first q rows
  first-append_row_other q r [] h = rw h
  first-append_row_other q r (s ∷ rows) h = ground (arith, first-append_row_other q r rows)

  pub first-update_rows :
      (q p : Row → Bool) (f : Row → Row) (rows : List Row)
      → ((r : Row) → q (f r) ≡ q r)
      → first q (update_rows p f rows) ≡ Option.map (λ r. if p r then f r else r) (first q rows)
  first-update_rows q p f [] h = refl
  first-update_rows q p f (s ∷ rows) h = ground (arith, h s, first-update_rows q p f rows h)

  pub first-remove_rows :
      (q p : Row → Bool) (rows : List Row)
      → first q (remove_rows p rows) ≡ first (λ r. q r && not (p r)) rows
  first-remove_rows q p [] = refl
  first-remove_rows q p (s ∷ rows) = ground (arith, first-remove_rows q p rows)

  pub first-append_row_kept :
      (q : Row → Bool) (r s : Row) (rows : List Row)
      → first q rows ≡ some s
      → first q (append_row r rows) ≡ some s
  first-append_row_kept q r s [] e = ground arith
  first-append_row_kept q r s (t ∷ rows) e = ground (arith, first-append_row_kept q r s rows)

  last-keep-none :
      (p q : Row → Bool) (rows : List Row)
      → length (keep (λ r. p r && q r) rows) ≡ 0
      → last q (keep p rows) ≡ none
  last-keep-none p q [] h = refl
  last-keep-none p q (s ∷ rows) h = ground (arith, last-keep-none p q rows)

  pub last-keep :
      (p q : Row → Bool) (rows : List Row)
      → length (keep (λ r. p r && q r) rows) ≤ 1
      → last q (keep p rows) ≡ first (λ r. p r && q r) rows
  last-keep p q [] h = refl
  last-keep p q (s ∷ rows) h = ground (arith, last-keep-none p q rows, last-keep p q rows)

  pub length-keep-append_row :
      (p : Row → Bool) (r : Row) (rows : List Row)
      → length (keep p (append_row r rows)) ≡ length (keep p rows) + (if p r then 1 else 0)
  length-keep-append_row p r [] = ground arith
  length-keep-append_row p r (s ∷ rows) = ground (arith, length-keep-append_row p r rows)

  pub length-keep-update_rows :
      (q p : Row → Bool) (f : Row → Row) (rows : List Row)
      → ((r : Row) → q (f r) ≡ q r)
      → length (keep q (update_rows p f rows)) ≡ length (keep q rows)
  length-keep-update_rows q p f [] h = refl
  length-keep-update_rows q p f (s ∷ rows) h =
      ground (arith, h s, length-keep-update_rows q p f rows h)

  pub length-keep-remove_rows :
      (p q : Row → Bool) (rows : List Row)
      → length (keep p (remove_rows q rows)) + length (keep (λ r. p r && q r) rows)
        ≡ length (keep p rows)
  length-keep-remove_rows p q [] = omega arith
  length-keep-remove_rows p q (s ∷ rows) = ground (arith, length-keep-remove_rows p q rows)

  pub length-keep-keep :
      (p q : Row → Bool) (rows : List Row)
      → length (keep (λ r. p r && q r) rows) ≡ length (keep q (keep p rows))
  length-keep-keep p q [] = refl
  length-keep-keep p q (s ∷ rows) = ground (arith, length-keep-keep p q rows)

  pub first-length-keep :
      (q : Row → Bool) (rows : List Row) → (first q rows ≡ none) ↔ (length (keep q rows) ≡ 0)
  first-length-keep q [] = (λ e. refl, λ e. refl)
  first-length-keep q (s ∷ rows) = elim (Bool-cases (q s)) [
    | inl e ↦ rw e (λ h. cc, λ h. absurd (omega arith))
    | inr e ↦ rw e (first-length-keep q rows)
  ]

  pub first_refine :
      (q p : Row → Bool) (rows : List Row) (r : Row)
      → first q rows ≡ some r
      → p r ≡ true
      → first (λ r. q r && p r) rows ≡ some r
  first_refine q p [] r e h = ground arith
  first_refine q p (s ∷ rows) r e h = ground (arith, first_refine q p rows r)

  abbrev pub in_memory : Table Row
  in_memory = record {
    find = first;
    find_many = keep;
    insert = append_row;
    update = update_rows;
    remove = remove_rows;
    find-sound = first_sound;
    find_many-sound = keep_sound;
    find-insert_new = first-append_row_new;
    find-insert_other = first-append_row_other;
    find-update = first-update_rows;
    find-remove = first-remove_rows;
    find-insert_kept = first-append_row_kept;
    last-find_many = last-keep;
    count-insert = length-keep-append_row;
    count-update = length-keep-update_rows;
    count-remove = length-keep-remove_rows;
    count-refine = length-keep-keep;
    find-count = first-length-keep;
    find-refine = first_refine;
  }
