-- ===== src/Effects.antt =====
-- Asynchronous methods that change the state and may throw. What was written before a throw stays
-- written, so the state comes back beside the error too.
use home_gate.Model.{World}
use home_gate.Common.{
  String, ◌≡◌, refl, ap, Bool, true, false, Option, none, some, List, [], ◌∷◌, arith, if◌then◌else◌,
}

-- The HTTP exceptions of NestJS that the server throws.
pub data HttpStatus : Type 0 where
  bad_request forbidden not_found conflict unprocessable_entity : HttpStatus
  internal_server_error service_unavailable : HttpStatus

-- `plain` is an `Error` that is no HTTP exception, `other` a thrown value that is no `Error`.
-- `still_running` is no thrown value: a loop of the source goes on where the model stops.
pub data Error : Type 0 where
  http : HttpStatus → String → Error
  plain : String → Error
  other : Error
  still_running : Error

-- What an integration answers to a call: a value, or an exception.
pub data Answer (A : Type 0) : Type 0 where
  gives : A → Answer A
  raises : Error → Answer A

pub data Outcome (A : Type 0) : Type 0 where
  returned : A → World → Outcome A
  threw : Error → World → Outcome A

abbrev pub M : Type 0 → Type 0
M A = World → Outcome A

infixl 5 ◌>>=◌ ◌>>◌
abbrev pub ◌>>=◌ : {A B : Type 0} → M A → (A → M B) → M B
◌>>=◌ m f w = elim (m w) [ returned a w' ↦ f a w' | threw e w' ↦ threw e w' ]

abbrev pub ◌>>◌ : {A B : Type 0} → M A → M B → M B
◌>>◌ m n w = elim (m w) [ returned a w' ↦ n w' | threw e w' ↦ threw e w' ]

abbrev pub pure : {A : Type 0} → A → M A
pure a w = returned a w

abbrev pub throw : {A : Type 0} → Error → M A
throw e w = threw e w

-- A read of the state.
abbrev pub gets : {A : Type 0} → (World → A) → M A
gets f w = returned (f w) w

-- `if (test) throw error`
abbrev pub throw_if : Bool → Error → M (Unit {0})
throw_if true e w = threw e w
throw_if false e w = returned tt w

-- `if (!value) throw error`, after which the value is there.
abbrev pub expect : {A : Type 0} → Option A → Error → M A
expect none e w = threw e w
expect (some a) e w = returned a w

abbrev pub try_catch : {A : Type 0} → M A → (Error → M A) → M A
try_catch m handler w = elim (m w) [ returned a w' ↦ returned a w' | threw e w' ↦ handler e w' ]

-- A `for … of` loop without an early exit. The state in which a round throws ends the loop.
unfoldable pub for_each : {A : Type 0} → (A → M (Unit {0})) → List A → M (Unit {0})
for_each body [] w = returned tt w
for_each body (a ∷ rest) w = elim (body a w) [
  | returned _ w' ↦ for_each body rest w'
  | threw e w' ↦ threw e w'
]

-- A loop goes on where a round returns.
pub for_each_returned :
    {A : Type 0} (body : A → M (Unit {0})) (a : A) (l : List A) (w v : World) (u : Unit {0})
    → body a w ≡ returned u v
    → for_each body (a ∷ l) w ≡ for_each body l v
unfolding for_each
for_each_returned body a l w v u e =
    ap (λ o. elim o [ returned _ w' ↦ for_each body l w' | threw e w' ↦ threw e w' ]) e

-- The state that a computation ends in, and whether it returned.
abbrev pub final : {A : Type 0} → Outcome A → World
final (returned a w) = w
final (threw e w) = w

abbrev pub succeeds : {A : Type 0} → Outcome A → Bool
succeeds (returned a w) = true
succeeds (threw e w) = false

module _ {A : Type 0} (P : World → Type 0) (body : A → M (Unit {0})) where
  step_keeps :
      (l : List A) (o : Outcome (Unit {0}))
      → P (final o)
      → ((w : World) → P w → P (final (for_each body l w)))
      → P (final (elim o [ returned _ w ↦ for_each body l w | threw e w ↦ threw e w ]))
  step_keeps l (returned u w) h k = k w h
  step_keeps l (threw e w) h k = h

  -- What every round keeps, whether it returns or throws, the loop keeps.
  pub for_each-keeps :
      ((a : A) (w : World) → P w → P (final (body a w)))
      → (l : List A) (w : World) → P w
      → P (final (for_each body l w))
  unfolding for_each
  for_each-keeps h [] w p = p
  for_each-keeps h (a ∷ l) w p = step_keeps l (body a w) (h a w p) (for_each-keeps h l)

-- A sequence goes on with what its first part returns.
pub bind_returned :
    {A B : Type 0} (m : M A) (f : A → M B) (w w' : World) (a : A)
    → m w ≡ returned a w'
    → (m >>= f) w ≡ f a w'
bind_returned m f w w' a e = ap (λ o. elim o [ returned b v ↦ f b v | threw e v ↦ threw e v ]) e

pub then_returned :
    {A B : Type 0} (m : M A) (n : M B) (w w' : World) (a : A)
    → m w ≡ returned a w'
    → (m >> n) w ≡ n w'
then_returned m n w w' a e = ap (λ o. elim o [ returned b v ↦ n v | threw e v ↦ threw e v ]) e

-- A sequence that returns has parts that return.
pub bind_inverse :
    {A B : Type 0} (m : M A) (f : A → M B) (w w' : World) (b : B)
    → (m >>= f) w ≡ returned b w'
    → (a : A) × (v : World) × (m w ≡ returned a v) × (f a v ≡ returned b w')
bind_inverse {A} {B} m f w w' b e = go (m w) refl e
  where
    go :
        (o : Outcome A)
        → m w ≡ o
        → elim o [ returned a v ↦ f a v | threw x v ↦ threw x v ] ≡ returned b w'
        → (a : A) × (v : World) × (m w ≡ returned a v) × (f a v ≡ returned b w')
    go (returned a v) p q = (a, v, p, q)
    go (threw x v) p q = absurd (ground arith)

pub throw_if_inverse :
    (b : Bool) (e : Error) (w w' : World) (u : Unit {0})
    → throw_if b e w ≡ returned u w'
    → b ≡ false
throw_if_inverse true e w w' u h = absurd (ground arith)
throw_if_inverse false e w w' u h = refl

pub expect_inverse :
    {A : Type 0} (o : Option A) (e : Error) (w w' : World) (a : A)
    → expect o e w ≡ returned a w'
    → (o ≡ some a) × (w' ≡ w)
expect_inverse none e w w' a h = absurd (ground arith)
expect_inverse (some b) e w w' a h = (ground arith, ground arith)

pub pure_inverse :
    {A : Type 0} (a b : A) (w w' : World) → pure a w ≡ returned b w' → (b ≡ a) × (w' ≡ w)
pure_inverse a b w w' h = (ground arith, ground arith)

-- What holds before a computation holds after it, whether it returns or throws.
module _ (P : World → Type 0) where
  abbrev pub Keeps : {A : Type 0} → M A → Type 0
  Keeps m = (w : World) → P w → P (final (m w))

  -- What holds after the first part and is kept by the rest holds in the end.
  pub bind-final :
      {A B : Type 0} (m : M A) (f : A → M B) (w : World)
      → P (final (m w))
      → ((a : A) → Keeps (f a))
      → P (final ((m >>= f) w))
  bind-final {A} {B} m f w p k = go (m w) p
    where
      go :
          (o : Outcome A)
          → P (final o)
          → P (final (elim o [ returned a v ↦ f a v | threw e v ↦ threw e v ]))
      go (returned a v) q = k a v q
      go (threw e v) q = q

  pub bind-Keeps :
      {A B : Type 0} (m : M A) (f : A → M B) → Keeps m → ((a : A) → Keeps (f a)) → Keeps (m >>= f)
  bind-Keeps m f h k w p = bind-final m f w (h w p) k

  pub then-Keeps : {A B : Type 0} (m : M A) (n : M B) → Keeps m → Keeps n → Keeps (m >> n)
  then-Keeps m n h k = bind-Keeps m (λ a. n) h (λ a. k)

  pub throw_if-Keeps : (b : Bool) (e : Error) → Keeps (throw_if b e)
  throw_if-Keeps true e w p = p
  throw_if-Keeps false e w p = p

  pub expect-Keeps : {A : Type 0} (o : Option A) (e : Error) → Keeps (expect o e)
  expect-Keeps none e w p = p
  expect-Keeps (some a) e w p = p

  pub if-Keeps :
      {A : Type 0} (b : Bool) (m n : M A) → Keeps m → Keeps n → Keeps (if b then m else n)
  if-Keeps true m n h k = h
  if-Keeps false m n h k = k
