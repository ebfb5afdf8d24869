-- ===== src/Tests/Images.antt =====
-- The validation of a PNG image, at a concrete input.

use home_gate.ImageValidation.Accepted.{IsAccepted, validate_png_iff}
use home_gate.ImageValidation.{
  Decoded, ImageSettings, read_uint32_be, walk, structure_error, decode, check_walk, validate_png,
}
use home_gate.Effects.{bad_request, http, gives, raises}
use home_gate.Common.{ℕ, ◌≡◌, refl, ◌↔◌, Option, none, some, List, [], ◌∷◌, ◌++◌}

-- The signature and an empty IEND.
abbrev small_png : List ℕ
small_png =
    137 ∷ 80 ∷ 78 ∷ 71 ∷ 13 ∷ 10 ∷ 26 ∷ 10 ∷ 0 ∷ 0 ∷ 0 ∷ 0 ∷ 73 ∷ 69 ∷ 78 ∷ 68 ∷ 174 ∷ 66 ∷ 96 ∷ 130
    ∷ []

abbrev library : List ℕ → Option Decoded
library b =
    some
      (record { format = "png"; width = some 16; height = some 16; pages = none; clean = some b })

abbrev settings : ImageSettings
settings = record { max_image_bytes = 1000; max_dimension = 64 }

accept_small : validate_png library settings "image/png" small_png ≡ gives small_png
unfolding validate_png walk read_uint32_be check_walk decode
accept_small = refl

validate_png_iff_example :
    (validate_png library settings "image/png" small_png ≡ gives small_png)
    ↔ IsAccepted library settings small_png small_png "image/png"
validate_png_iff_example = validate_png_iff library settings small_png small_png "image/png"

-- What follows the end is refused.
refuse_trailing :
    validate_png library settings "image/png" (small_png ++ 0 ∷ [])
    ≡ raises (http bad_request structure_error)
unfolding validate_png walk read_uint32_be check_walk decode
refuse_trailing = refl
