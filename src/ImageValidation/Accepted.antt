-- ===== src/ImageValidation/Accepted.antt =====
-- Which PNG images are accepted.

use home_gate.ImageValidation.Chunks.{Tiled, walk_ends, walk_sound, walk_complete}
use home_gate.ImageValidation.{
  Walk, Decoded, ImageSettings, is_signature, walk, is_accepted, decode, check_walk, validate_png,
  refused, ended,
}
use home_gate.Effects.{gives}
use home_gate.Common.{
  ℕ, suc, ◌≤◌, String, ◌≡◌, refl, sym, ap, ◌∙◌, ◌↔◌, inl, inr, true, false, Option, some, List,
  arith, eq_iff, ltb, ◌==◌, Bool-cases, Option-cases, length, take, nat_eq, string_eq,
}

module _ (library : List ℕ → Option Decoded) (settings : ImageSettings) (b clean : List ℕ) where
  -- The image library decodes the buffer to a static image within the limits, and this is the
  -- image written again.
  abbrev pub IsDecoded : Type 0
  IsDecoded =
      (d : Decoded) × (library b ≡ some d)
      × (is_accepted settings d ≡ true)
      × (d.clean ≡ some clean)
      × (length clean ≤ settings.max_image_bytes)

  decode_sound : decode library settings b ≡ gives clean → IsDecoded
  unfolding decode
  decode_sound h = elim (Option-cases (library b)) [
    | inl e ↦ absurd (ground arith)
    | inr (d, e) ↦ elim (Bool-cases (is_accepted settings d)) [
      | inr f ↦ absurd (ground arith)
      | inl f ↦ elim (Option-cases d.clean) [
        | inl g ↦ absurd (ground arith)
        | inr (c, g) ↦ elim (Bool-cases (ltb settings.max_image_bytes (length c))) [
          | inl k ↦ absurd (ground arith)
          | inr k ↦ (d, e, f, ground arith, ground arith)
        ]
      ]
    ]
  ]

  decode_complete : IsDecoded → decode library settings b ≡ gives clean
  unfolding decode
  decode_complete (d, e, f, g, h) = ground arith

  -- What the answer is for, in the words of the format.
  abbrev pub IsAccepted : String → Type 0
  IsAccepted mime = (mime ≡ "image/png") × (is_signature (take 8 b) ≡ true) × Tiled b 8 × IsDecoded

  check_walk_sound :
      (r : Walk)
      → check_walk library settings b (some r) ≡ gives clean
      → (r ≡ ended true) × IsDecoded
  unfolding check_walk
  check_walk_sound refused h = absurd (ground arith)
  check_walk_sound (ended false) h = absurd (ground arith)
  check_walk_sound (ended true) h = (refl, decode_sound h)

  validate_png-walk :
      (mime : String)
      → (mime == "image/png") ≡ true
      → is_signature (take 8 b) ≡ true
      → validate_png library settings mime b
        ≡ check_walk library settings b (walk (suc (length b)) b 8)
  unfolding validate_png
  validate_png-walk mime e f = ground arith

  validate_png_sound :
      (mime : String) → validate_png library settings mime b ≡ gives clean → IsAccepted mime
  unfolding validate_png
  validate_png_sound mime h = elim (Bool-cases (mime == "image/png")) [
    | inr e ↦ absurd (ground arith)
    | inl e ↦ elim (Bool-cases (is_signature (take 8 b))) [
      | inr f ↦ absurd (ground arith)
      | inl f ↦
          let (r, k) = walk_ends (suc (length b)) b 8 (omega arith) (omega arith) in
          let (p, d) =
            check_walk_sound r (
              sym (ap (check_walk library settings b) k)
              ∙ (sym (validate_png-walk mime e f) ∙ h)) in
          ((eq_iff mime "image/png").0 e, f, walk_sound (suc (length b)) b 8 (k ∙ ap some p), d)
    ]
  ]

  validate_png_complete :
      (mime : String) → IsAccepted mime → validate_png library settings mime b ≡ gives clean
  unfolding validate_png check_walk
  validate_png_complete mime (e, f, t, d) = ground (
    arith,
    eq_iff mime "image/png",
    walk_complete (suc (length b)) b 8 (omega arith) (omega arith) t,
    decode_complete d,
  )

  -- A PNG is accepted, with the bytes that the image library writes, exactly if its type and
  -- signature are right, chunks without animation tile the rest of the buffer up to an empty IEND,
  -- the only one, and the library decodes it to a static image within the limits of the settings.
  pub validate_png_iff :
      (mime : String) → (validate_png library settings mime b ≡ gives clean) ↔ IsAccepted mime
  validate_png_iff mime = (validate_png_sound mime, validate_png_complete mime)
