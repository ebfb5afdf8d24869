-- ===== src/ImageValidation.antt =====
-- The PNG images of server/src/lib/imageValidation.ts. A buffer is the list of its bytes. The image
-- library is a parameter, which answers nothing where it throws; filenames, the limit on the upload
-- and SVG are left out, and the text of a refusal is cut before the limits.
pub mod Chunks
pub mod Accepted
use home_gate.Effects.{Answer, bad_request, http, still_running, gives, raises}
use home_gate.Common.{
  ℕ, zero, suc, ◌+◌, ◌-◌, ◌*◌, ◌%◌, String, Bool, true, false, not, ◌&&◌, ◌||◌, Option, none, some,
  List, [], ◌∷◌, map, ltb, leb, ◌==◌, if◌then◌else◌, or_else, holds, length, head?, take, drop,
  nat_eq, string_eq,
}

pub data Walk : Type 0 where
  refused : Walk
  -- Whether the last chunk has ended the buffer.
  ended : Bool → Walk

-- What the library reads of an image: `metadata` and, written again, its bytes.
pub record Decoded : Type 0 where
  pub format : String
  pub width : Option ℕ
  pub height : Option ℕ
  pub pages : Option ℕ
  pub clean : Option (List ℕ)

pub record ImageSettings : Type 0 where
  pub max_image_bytes : ℕ
  pub max_dimension : ℕ

-- A byte past the end counts as nothing; it is never read.
abbrev pub byte_at : ℕ → List ℕ → ℕ
byte_at i b = or_else (head? (drop i b)) 0

-- `buffer.readUInt32BE(offset)`
unfoldable pub read_uint32_be : List ℕ → ℕ → ℕ
read_uint32_be b offset =
    ((byte_at offset b * 256 + byte_at (offset + 1) b) * 256 + byte_at (offset + 2) b) * 256
    + byte_at (offset + 3) b

abbrev pub same_bytes : List ℕ → List ℕ → Bool
same_bytes [] [] = true
same_bytes (x ∷ xs) (y ∷ ys) = (x == y) && same_bytes xs ys
same_bytes _ _ = false

-- `buffer.toString('ascii', offset + 4, offset + 8)`, which drops the highest bit of a byte.
abbrev pub chunk_type : List ℕ → ℕ → List ℕ
chunk_type b offset = map (λ x. x % 128) (take 4 (drop (offset + 4) b))

abbrev pub is_end : List ℕ → Bool
is_end type = same_bytes type (73 ∷ 69 ∷ 78 ∷ 68 ∷ [])

-- acTL, fcTL and fdAT
abbrev pub is_animation : List ℕ → Bool
is_animation type =
    same_bytes type (97 ∷ 99 ∷ 84 ∷ 76 ∷ [])
    || same_bytes type (102 ∷ 99 ∷ 84 ∷ 76 ∷ [])
    || same_bytes type (102 ∷ 100 ∷ 65 ∷ 84 ∷ [])

abbrev pub is_signature : List ℕ → Bool
is_signature = same_bytes (137 ∷ 80 ∷ 78 ∷ 71 ∷ 13 ∷ 10 ∷ 26 ∷ 10 ∷ [])

-- The loop over the chunks, as many rounds as the fuel says; none where that is too little.
unfoldable pub walk : ℕ → List ℕ → ℕ → Option Walk
walk zero b offset = none
walk (suc fuel) b offset =
    let size = read_uint32_be b offset in
    let type = chunk_type b offset in
    let next = offset + (size + 12) in
    let rest = walk fuel b next in
    if leb (offset + 12) (length b)
    then if ltb (length b - offset - 12) size || is_animation type
      then some refused
      else if is_end type
      then some (ended ((size == 0) && (next == length b)))
      else rest
    else some (ended false)

abbrev bad : String → Answer (List ℕ)
bad text = raises (http bad_request text)

abbrev pub structure_error : String
structure_error = "Invalid PNG structure or trailing content."

abbrev pub is_accepted : ImageSettings → Decoded → Bool
is_accepted settings d =
    (d.format == "png")
    && holds (λ n. not (n == 0) && leb n settings.max_dimension) d.width
    && holds (λ n. not (n == 0) && leb n settings.max_dimension) d.height
    && (or_else d.pages 1 == 1)

-- The last `try` of `validateImage`: every failure has the same answer.
unfoldable pub decode : (List ℕ → Option Decoded) → ImageSettings → List ℕ → Answer (List ℕ)
decode library settings b = elim (library b) [
  | none ↦ bad "Invalid PNG."
  | some d ↦
      if is_accepted settings d
      then elim d.clean [
        | none ↦ bad "Invalid PNG."
        | some clean ↦
            if ltb settings.max_image_bytes (length clean) then bad "Invalid PNG." else gives clean
      ]
      else bad "Invalid PNG."
]

unfoldable pub check_walk :
    (List ℕ → Option Decoded) → ImageSettings → List ℕ → Option Walk → Answer (List ℕ)
check_walk library settings b none = raises still_running
check_walk library settings b (some refused) = bad "Invalid or animated PNG."
check_walk library settings b (some (ended false)) = bad structure_error
check_walk library settings b (some (ended true)) = decode library settings b

-- The fuel is one round for each byte, and one more.
unfoldable pub validate_png :
    (List ℕ → Option Decoded) → ImageSettings → String → List ℕ → Answer (List ℕ)
validate_png library settings mime b =
    if not (mime == "image/png") || not (is_signature (take 8 b))
    then bad "The file is not a PNG image."
    else check_walk library settings b (walk (suc (length b)) b 8)
