-- ===== src/SessionService/Selection.antt =====
-- Which sessions `enforceLimitForUser` selects.

use home_gate.Common.{
  ℕ, zero, suc, ◌+◌, ◌≤◌, ◌≡◌, refl, inl, inr, Bool, List, [], ◌∷◌, arith, leb, if◌then◌else◌,
  Bool-cases, length, keep, take, drop, All,
}
use home_gate.SessionService.{insert_by_creation, sort_by_creation}
use home_gate.Model.{Session}

length-keep-insert_by_creation :
    (q : Session → Bool) (s : Session) (l : List Session)
    → length (keep q (insert_by_creation s l)) ≡ (if q s then 1 else 0) + length (keep q l)
unfolding insert_by_creation
length-keep-insert_by_creation q s [] = ground arith
length-keep-insert_by_creation q s (t ∷ l) = ground (arith, length-keep-insert_by_creation q s l)

-- Sorting keeps how many sessions pass a test.
pub length-keep-sort_by_creation :
    (q : Session → Bool) (l : List Session)
    → length (keep q (sort_by_creation l)) ≡ length (keep q l)
unfolding sort_by_creation
length-keep-sort_by_creation q [] = refl
length-keep-sort_by_creation q (s ∷ l) = ground (
  arith,
  length-keep-insert_by_creation q s (sort_by_creation l),
  length-keep-sort_by_creation q l,
)

length-insert_by_creation :
    (s : Session) (l : List Session) → length (insert_by_creation s l) ≡ 1 + length l
unfolding insert_by_creation
length-insert_by_creation s [] = refl
length-insert_by_creation s (t ∷ l) = ground (arith, length-insert_by_creation s l)

pub length-sort_by_creation : (l : List Session) → length (sort_by_creation l) ≡ length l
unfolding sort_by_creation
length-sort_by_creation [] = refl
length-sort_by_creation (s ∷ l) =
    ground (arith, length-insert_by_creation s (sort_by_creation l), length-sort_by_creation l)

-- No session of the list was created before `t`.
abbrev pub IsSince : ℕ → List Session → Type 0
IsSince t = All (λ (s : Session). t ≤ s.created_at)

abbrev pub IsSorted : List Session → Type 0
IsSorted [] = Unit
IsSorted (s ∷ l) = IsSince s.created_at l × IsSorted l

IsSince-≤ : (t u : ℕ) (l : List Session) → t ≤ u → IsSince u l → IsSince t l
IsSince-≤ t u [] h k = tt
IsSince-≤ t u (s ∷ l) h (k, r) = (omega arith, IsSince-≤ t u l h r)

insert_by_creation-IsSince :
    (t : ℕ) (s : Session) (l : List Session)
    → t ≤ s.created_at
    → IsSince t l
    → IsSince t (insert_by_creation s l)
unfolding insert_by_creation
insert_by_creation-IsSince t s [] h k = (h, tt)
insert_by_creation-IsSince t s (u ∷ l) h (k, r) =
    elim (Bool-cases (leb s.created_at u.created_at)) [
      | inl e ↦ rw e (h, (k, r))
      | inr e ↦ rw e (k, insert_by_creation-IsSince t s l h r)
    ]

insert_by_creation-IsSorted :
    (s : Session) (l : List Session) → IsSorted l → IsSorted (insert_by_creation s l)
unfolding insert_by_creation
insert_by_creation-IsSorted s [] h = (tt, tt)
insert_by_creation-IsSorted s (u ∷ l) (k, h) = elim (Bool-cases (leb s.created_at u.created_at)) [
  | inl e ↦
      let before : s.created_at ≤ u.created_at = ground arith in
      rw e ((before, IsSince-≤ s.created_at u.created_at l before k), (k, h))
  | inr e ↦ rw e (
    insert_by_creation-IsSince u.created_at s l (ground arith) k,
    insert_by_creation-IsSorted s l h,
  )
]

pub sort_by_creation-IsSorted : (l : List Session) → IsSorted (sort_by_creation l)
unfolding sort_by_creation
sort_by_creation-IsSorted [] = tt
sort_by_creation-IsSorted (s ∷ l) =
    insert_by_creation-IsSorted s (sort_by_creation l) (sort_by_creation-IsSorted l)

drop-IsSince : (t n : ℕ) (l : List Session) → IsSince t l → IsSince t (drop n l)
drop-IsSince t zero l h = h
drop-IsSince t (suc n) [] h = tt
drop-IsSince t (suc n) (s ∷ l) (h, k) = drop-IsSince t n l k

-- In a sorted list, none of the first sessions was created after one of the rest.
pub take-drop :
    (n : ℕ) (l : List Session)
    → IsSorted l
    → All (λ (s : Session). IsSince s.created_at (drop n l)) (take n l)
take-drop zero l h = tt
take-drop (suc n) [] h = tt
take-drop (suc n) (s ∷ l) (h, k) = (drop-IsSince s.created_at n l h, take-drop n l k)
