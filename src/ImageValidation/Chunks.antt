-- ===== src/ImageValidation/Chunks.antt =====
-- The chunks of a PNG image.

use home_gate.ImageValidation.{
  Walk, read_uint32_be, chunk_type, is_end, is_animation, walk, refused, ended,
}
use home_gate.Common.{
  ℕ, zero, suc, ◌+◌, ◌-◌, ◌≤◌, ◌<◌, ◌≡◌, sym, ◌∙◌, inl, inr, Bool, true, false, not, ◌&&◌, ◌||◌,
  some, List, arith, ltb, leb, ◌==◌, Bool-cases, length, nat_eq, string_eq,
}

-- From the offset on, chunks without animation follow one another up to the end of the buffer, and
-- the last, which alone is an IEND, is empty.
pub data Tiled (b : List ℕ) : ℕ → Type 0 where
  last_chunk :
      {offset : ℕ}
      → offset + 12 ≡ length b
      → read_uint32_be b offset ≡ 0
      → is_end (chunk_type b offset) ≡ true
      → is_animation (chunk_type b offset) ≡ false
      → Tiled b offset
  chunk :
      {offset : ℕ}
      → offset + (read_uint32_be b offset + 12) ≤ length b
      → is_end (chunk_type b offset) ≡ false
      → is_animation (chunk_type b offset) ≡ false
      → Tiled b (offset + (read_uint32_be b offset + 12))
      → Tiled b offset

abbrev next : List ℕ → ℕ → ℕ
next b offset = offset + (read_uint32_be b offset + 12)

-- The tests of one round.
abbrev is_over : List ℕ → ℕ → Bool
is_over b offset = not (leb (offset + 12) (length b))

abbrev is_bad : List ℕ → ℕ → Bool
is_bad b offset =
    ltb (length b - offset - 12) (read_uint32_be b offset) || is_animation (chunk_type b offset)

walk-over :
    (fuel : ℕ) (b : List ℕ) (offset : ℕ)
    → is_over b offset ≡ true
    → walk (suc fuel) b offset ≡ some (ended false)
unfolding walk
walk-over fuel b offset e = ground arith

walk-bad :
    (fuel : ℕ) (b : List ℕ) (offset : ℕ)
    → is_over b offset ≡ false
    → is_bad b offset ≡ true
    → walk (suc fuel) b offset ≡ some refused
unfolding walk
walk-bad fuel b offset e f = ground arith

walk-end :
    (fuel : ℕ) (b : List ℕ) (offset : ℕ)
    → is_over b offset ≡ false
    → is_bad b offset ≡ false
    → is_end (chunk_type b offset) ≡ true
    → walk (suc fuel) b offset
      ≡ some (ended ((read_uint32_be b offset == 0) && (next b offset == length b)))
unfolding walk
walk-end fuel b offset e f g = ground arith

walk-next :
    (fuel : ℕ) (b : List ℕ) (offset : ℕ)
    → is_over b offset ≡ false
    → is_bad b offset ≡ false
    → is_end (chunk_type b offset) ≡ false
    → walk (suc fuel) b offset ≡ walk fuel b (next b offset)
unfolding walk
walk-next fuel b offset e f g = ground arith

room : (b : List ℕ) (offset : ℕ) → is_over b offset ≡ false → offset + 12 ≤ length b
room b offset e = ground arith

fits :
    (b : List ℕ) (offset : ℕ)
    → is_over b offset ≡ false
    → is_bad b offset ≡ false
    → next b offset ≤ length b
fits b offset e f = ground arith

in_time :
    (fuel : ℕ) (b : List ℕ) (offset : ℕ)
    → is_over b offset ≡ false
    → length b < suc fuel + offset
    → (1 ≤ fuel) × (length b < fuel + next b offset)
in_time fuel b offset e h = (omega (arith, room b offset e), omega (arith, room b offset e))

not_over : (b : List ℕ) (offset : ℕ) → next b offset ≤ length b → is_over b offset ≡ false
not_over b offset h = ground arith

not_bad :
    (b : List ℕ) (offset : ℕ)
    → next b offset ≤ length b
    → is_animation (chunk_type b offset) ≡ false
    → is_bad b offset ≡ false
not_bad b offset h e = ground arith

exact :
    (b : List ℕ) (offset : ℕ)
    → offset + 12 ≡ length b
    → read_uint32_be b offset ≡ 0
    → next b offset ≤ length b
exact b offset p q = omega arith

-- A loop with a round for each byte that is left, and one more, comes to its end.
pub walk_ends :
    (fuel : ℕ) (b : List ℕ) (offset : ℕ)
    → 1 ≤ fuel
    → length b < fuel + offset
    → (r : Walk) × (walk fuel b offset ≡ some r)
walk_ends zero b offset one h = absurd (omega arith)
walk_ends (suc fuel) b offset one h = elim (Bool-cases (is_over b offset)) [
  | inl e ↦ (ended false, walk-over fuel b offset e)
  | inr e ↦ elim (Bool-cases (is_bad b offset)) [
    | inl f ↦ (refused, walk-bad fuel b offset e f)
    | inr f ↦ elim (Bool-cases (is_end (chunk_type b offset))) [
      | inl g ↦ (_, walk-end fuel b offset e f g)
      | inr g ↦
          let (r, k) =
            walk_ends fuel b (next b offset) (in_time fuel b offset e h).0
              (in_time fuel b offset e h).1 in
          (r, walk-next fuel b offset e f g ∙ k)
    ]
  ]
]

pub walk_sound :
    (fuel : ℕ) (b : List ℕ) (offset : ℕ) → walk fuel b offset ≡ some (ended true) → Tiled b offset
unfolding walk
walk_sound zero b offset e = absurd (ground arith)
walk_sound (suc fuel) b offset h = elim (Bool-cases (is_over b offset)) [
  | inl e ↦ absurd (ground (arith, walk-over fuel b offset e))
  | inr e ↦ elim (Bool-cases (is_bad b offset)) [
    | inl f ↦ absurd (ground (arith, walk-bad fuel b offset e f))
    | inr f ↦ elim (Bool-cases (is_end (chunk_type b offset))) [
      | inl g ↦
          last_chunk (ground (arith, walk-end fuel b offset e f g))
            (ground (arith, walk-end fuel b offset e f g)) g (ground arith)
      | inr g ↦
          chunk (fits b offset e f) g (ground arith)
            (walk_sound fuel b (next b offset) (sym (walk-next fuel b offset e f g) ∙ h))
    ]
  ]
]

pub walk_complete :
    (fuel : ℕ) (b : List ℕ) (offset : ℕ)
    → 1 ≤ fuel
    → length b < fuel + offset
    → Tiled b offset
    → walk fuel b offset ≡ some (ended true)
walk_complete zero b offset one h t = absurd (omega arith)
walk_complete (suc fuel) b offset one h (last_chunk p q r s) =
    walk-end fuel b offset (not_over b offset (exact b offset p q))
      (not_bad b offset (exact b offset p q) s) r
    ∙ ground arith
walk_complete (suc fuel) b offset one h (chunk p q r t) =
    walk-next fuel b offset (not_over b offset p) (not_bad b offset p r) q
    ∙ walk_complete fuel b (next b offset) (in_time fuel b offset (not_over b offset p) h).0
        (in_time fuel b offset (not_over b offset p) h).1 t
