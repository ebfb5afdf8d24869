-- ===== src/Database.antt =====
-- One table as the Prisma client (server/src/infrastructure/prisma.provider.ts) serves it. The
-- client and PostgreSQL are not part of the repository, so their operations are parameters. A filter
-- is a Boolean test of a row; the laws state the documented behaviour, where `q` tests a unique key.
pub mod Memory
pub mod Keys
pub mod Counting
use home_gate.Common.{
  ◌+◌, ◌≤◌, ◌≡◌, ◌↔◌, Bool, true, false, not, ◌&&◌, Option, none, some, List, if◌then◌else◌, length,
  keep, last, All,
}
use mathlib.Core.Option

pub record Table (Row : Type 0) : Type 0 where
  pub find : (Row → Bool) → List Row → Option Row
  pub find_many : (Row → Bool) → List Row → List Row
  pub insert : Row → List Row → List Row
  pub update : (Row → Bool) → (Row → Row) → List Row → List Row
  pub remove : (Row → Bool) → List Row → List Row
  -- Only a row that the filter accepts is found.
  pub find-sound : (q : Row → Bool) (rows : List Row) (r : Row) → find q rows ≡ some r → q r ≡ true
  -- Every listed row is accepted by the filter.
  pub find_many-sound :
      (p : Row → Bool) (rows : List Row) → All (λ r. p r ≡ true) (find_many p rows)
  pub find-insert_new :
      (q : Row → Bool) (r : Row) (rows : List Row)
      → find q rows ≡ none
      → q r ≡ true
      → find q (insert r rows) ≡ some r
  pub find-insert_other :
      (q : Row → Bool) (r : Row) (rows : List Row)
      → q r ≡ false
      → find q (insert r rows) ≡ find q rows
  -- An update that leaves the key alone changes the row that has it, if the update's filter accepts.
  pub find-update :
      (q p : Row → Bool) (f : Row → Row) (rows : List Row)
      → ((r : Row) → q (f r) ≡ q r)
      → find q (update p f rows) ≡ Option.map (λ r. if p r then f r else r) (find q rows)
  pub find-remove :
      (q p : Row → Bool) (rows : List Row)
      → find q (remove p rows) ≡ find (λ r. q r && not (p r)) rows
  -- A row with a unique key is still found after an insert, which a clash would have refused.
  pub find-insert_kept :
      (q : Row → Bool) (r s : Row) (rows : List Row)
      → find q rows ≡ some s
      → find q (insert r rows) ≡ some s
  -- Of the rows that a filter lists, the last that a second test accepts is the one that both
  -- select, where at most one row is selected by both.
  pub last-find_many :
      (p q : Row → Bool) (rows : List Row)
      → length (find_many (λ r. p r && q r) rows) ≤ 1
      → last q (find_many p rows) ≡ find (λ r. p r && q r) rows
  pub count-insert :
      (p : Row → Bool) (r : Row) (rows : List Row)
      → length (find_many p (insert r rows)) ≡ length (find_many p rows) + (if p r then 1 else 0)
  pub count-update :
      (q p : Row → Bool) (f : Row → Row) (rows : List Row)
      → ((r : Row) → q (f r) ≡ q r)
      → length (find_many q (update p f rows)) ≡ length (find_many q rows)
  pub count-remove :
      (p q : Row → Bool) (rows : List Row)
      → length (find_many p (remove q rows)) + length (find_many (λ r. p r && q r) rows)
        ≡ length (find_many p rows)
  -- As many rows pass two tests as are listed by the first and pass the second.
  pub count-refine :
      (p q : Row → Bool) (rows : List Row)
      → length (find_many (λ r. p r && q r) rows) ≡ length (keep q (find_many p rows))
  pub find-count :
      (q : Row → Bool) (rows : List Row) → (find q rows ≡ none) ↔ (length (find_many q rows) ≡ 0)
  -- A found row that passes a second test is found by both tests.
  pub find-refine :
      (q p : Row → Bool) (rows : List Row) (r : Row)
      → find q rows ≡ some r
      → p r ≡ true
      → find (λ r. q r && p r) rows ≡ some r
