-- ===== src/SessionService/Evicted.antt =====
-- What is found by its `sid` once sessions are evicted.

use home_gate.SessionService.{delete, evict}
use home_gate.Database.Keys.{find-remove_self, find-remove_apart, find-is_some}
use home_gate.Database.{Table}
use home_gate.Model.{Session}
use home_gate.Common.{
  String, ◌≡◌, refl, ◌∙◌, inl, inr, Bool, true, false, not, ◌&&◌, Option, none, List, [], ◌∷◌,
  arith, eq_iff, ◌==◌, Bool-cases, Option-cases, any, nat_eq, string_eq,
}

-- One of the sessions of the list has this `sid`.
abbrev pub names : List Session → String → Bool
names l sid = any (λ (x : Session). sid == x.sid) l

module _ (table : Table Session) where
  abbrev pub find_by_sid : String → List Session → Option Session
  find_by_sid sid rows = table.find (λ s. s.sid == sid) rows

  find_by_sid-delete_absent :
      (sid other_sid : String) (rows : List Session)
      → find_by_sid sid rows ≡ none
      → find_by_sid sid (delete table other_sid rows) ≡ none
  unfolding delete
  find_by_sid-delete_absent sid other_sid rows e =
      let q : Session → Bool = λ s. s.sid == sid in
      let kept : Session → Bool = λ s. q s && not (s.sid == other_sid) in
      elim (Option-cases (table.find kept rows)) [
        | inl f ↦ table.find-remove q (λ s. s.sid == other_sid) rows ∙ f
        | inr (r, f) ↦
            absurd
              (ground (arith, table.find-sound kept rows r f, find-is_some table kept q rows r f))
      ]

  find_by_sid-evict_absent :
      (sid : String) (l rows : List Session)
      → find_by_sid sid rows ≡ none
      → find_by_sid sid (evict table l rows) ≡ none
  unfolding evict
  find_by_sid-evict_absent sid [] rows e = e
  find_by_sid-evict_absent sid (x ∷ l) rows e =
      find_by_sid-evict_absent sid l (delete table x.sid rows)
        (find_by_sid-delete_absent sid x.sid rows e)

  -- A session that is evicted is found no more.
  pub find_by_sid-evict_gone :
      (sid : String) (l rows : List Session)
      → names l sid ≡ true
      → find_by_sid sid (evict table l rows) ≡ none
  unfolding evict delete
  find_by_sid-evict_gone sid [] rows h = absurd (ground arith)
  find_by_sid-evict_gone sid (x ∷ l) rows h = elim (Bool-cases (sid == x.sid)) [
    | inl e ↦
        find_by_sid-evict_absent sid l (delete table x.sid rows)
          (rw ((eq_iff sid x.sid).0 e) (find-remove_self table (λ s. s.sid == x.sid) rows))
    | inr e ↦ find_by_sid-evict_gone sid l (delete table x.sid rows) (ground arith)
  ]

  apart :
      (sid other_sid : String)
      → (sid == other_sid) ≡ false
      → (r : Session) → (r.sid == sid) ≡ true
      → (r.sid == other_sid) ≡ false
  apart sid other_sid h r e = rw ((eq_iff r.sid sid).0 e) h

  -- Every other session is found as it was.
  pub find_by_sid-evict_kept :
      (sid : String) (l rows : List Session)
      → names l sid ≡ false
      → find_by_sid sid (evict table l rows) ≡ find_by_sid sid rows
  unfolding evict delete
  find_by_sid-evict_kept sid [] rows h = refl
  find_by_sid-evict_kept sid (x ∷ l) rows h =
      find_by_sid-evict_kept sid l (delete table x.sid rows) (ground arith)
      ∙ find-remove_apart table (λ s. s.sid == sid) (λ s. s.sid == x.sid) rows
          (apart sid x.sid (ground arith))
