-- ===== src/ServiceManagement/Slugs.antt =====
-- The pattern of a slug, `/^[a-z0-9]+(-[a-z0-9]+)*$/`.

use home_gate.Common.{
  String, ◌≡◌, refl, ap, ◌∙◌, Bool, true, false, not, ◌&&◌, ◌||◌, arith, leb, ◌==◌, if◌then◌else◌,
  nat_eq, string_eq,
}
use Prim.Native.Char.{code, Char}

-- `[a-z0-9]`
abbrev pub is_alphanumeric : Char → Bool
is_alphanumeric c = (leb 97 (code c) && leb (code c) 122) || (leb 48 (code c) && leb (code c) 57)

abbrev pub is_hyphen : Char → Bool
is_hyphen c = code c == 45

-- The rest of a match, at the start of a word or within one.
unfoldable pub matches_from : Bool → String → Bool
matches_from in_word String.[] = in_word
matches_from in_word (String.◌∷◌ c text) =
    let within = matches_from true text in
    let after = matches_from false text in
    if is_alphanumeric c then within else if is_hyphen c && in_word then after else false

-- `SLUG_PATTERN.test(slug)`
unfoldable pub is_slug : String → Bool
unfolding matches_from
is_slug slug = matches_from false slug

-- The pattern in words. There are letters, digits and hyphens only.
abbrev pub allowed : String → Bool
allowed String.[] = true
allowed (String.◌∷◌ c text) = (is_alphanumeric c || is_hyphen c) && allowed text

-- No hyphen follows another, nor comes first where the flag says so.
abbrev pub singly : Bool → String → Bool
singly after_hyphen String.[] = true
singly after_hyphen (String.◌∷◌ c text) =
    not (after_hyphen && is_hyphen c) && singly (is_hyphen c) text

-- The last character is a letter or digit; the flag answers for the empty text.
abbrev pub ends_well : Bool → String → Bool
ends_well ends String.[] = ends
ends_well ends (String.◌∷◌ c text) = ends_well (is_alphanumeric c) text

letter_step :
    (a h within after al single double ends bad : Bool)
    → (a ≡ true → h ≡ false)
    → within ≡ (al && single && ends)
    → after ≡ (al && double && bad)
    → (b : Bool)
    → (if a then within else if h && b then after else false)
      ≡ ((a || h) && al)
        && (not (not b && h) && (if h then double else single))
        && (if a then ends else bad)
letter_step a h within after al single double ends bad e f g b = ground arith

by_flag : (f : Bool → Bool) (b : Bool) → (if b then f true else f false) ≡ f b
by_flag f true = refl
by_flag f false = refl

hyphen_is_other : (c : Char) → is_alphanumeric c ≡ true → is_hyphen c ≡ false
hyphen_is_other c e = ground arith

matches_from_words :
    (text : String) (b : Bool)
    → matches_from b text ≡ (allowed text && singly (not b) text && ends_well b text)
unfolding matches_from
matches_from_words String.[] b = ground arith
matches_from_words (String.◌∷◌ c text) b =
    letter_step (is_alphanumeric c) (is_hyphen c) (matches_from true text) (matches_from false text)
      (allowed text) (singly false text) (singly true text) (ends_well true text)
      (ends_well false text) (hyphen_is_other c) (matches_from_words text true)
      (matches_from_words text false) b
    ∙ (ap
          (λ x.
            ((is_alphanumeric c || is_hyphen c) && allowed text)
            && (not (not b && is_hyphen c) && x)
            && (if is_alphanumeric c then ends_well true text else ends_well false text))
          (by_flag (λ x. singly x text) (is_hyphen c))
        ∙ ap
            (λ x.
              ((is_alphanumeric c || is_hyphen c) && allowed text)
              && (not (not b && is_hyphen c) && singly (is_hyphen c) text)
              && x)
            (by_flag (λ x. ends_well x text) (is_alphanumeric c)))

-- A slug is accepted exactly if it has letters, digits and hyphens only, ends with a letter or
-- digit, and no hyphen comes first or follows another one; the empty text is refused.
pub is_slug-words :
    (slug : String) → is_slug slug ≡ (allowed slug && singly true slug && ends_well false slug)
unfolding is_slug
is_slug-words slug = matches_from_words slug false
