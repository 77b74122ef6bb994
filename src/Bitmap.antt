-- ===== src/Bitmap.antt =====
-- source/bitmap.c: the run-length decoders. Those for pixels of one, two and three octets are the same
-- code up to the size of a pixel, which is its list of octets here.
pub mod Run
pub mod Bounds
pub mod Loops
pub mod Lines
pub mod Within
pub mod Unroll
pub mod Rle
pub mod Plane
pub mod Decompress
mod Tests
use rdesktopce_rdp.Prelude.{
  ℕ, zero, suc, ◌+◌, ◌-◌, ◌*◌, ◌/◌, ◌%◌, Bool, true, false, Option, none, some, List, [], ◌∷◌, ltb,
  ◌==◌, if◌then◌else◌, set, get_elem?, length, bit_xor, replicate,
}

-- How a decoder ends: with a value, by `return False`, or by a fault: a read behind the octets of the
-- input, or an access outside the output. `exhausted` is the model's, and never happens.
pub data Outcome (A : Type 0) : Type 0 where
  ok : A → Outcome A
  refused : Outcome A
  overread : Outcome A
  outside : Outcome A
  exhausted : Outcome A

abbrev pub Pixel : Type 0
Pixel = List ℕ

-- The variables of a decoder. `input` is what is in memory from `input` on, `used` how far that is from
-- the start; `line` and `prevline` are places in `output`, and NULL is `none`.
pub record Decoder : Type 0 where
  pub input : List ℕ
  pub used : ℕ
  pub output : List Pixel
  pub x : ℕ
  pub height : ℕ
  pub line : Option ℕ
  pub prevline : Option ℕ
  pub count : ℕ
  pub lastopcode : Option ℕ
  pub insertmix : Bool
  pub bicolour : Bool
  pub colour1 : Pixel
  pub colour2 : Pixel
  pub mix : Pixel
  pub mixmask : ℕ
  pub mask : ℕ
  pub fom_mask : ℕ

-- Actions on the variables of a decoder, of whichever kind.
abbrev pub Act : Type 0 → Type 0 → Type 0
Act V A = V → Outcome (A × V)

module _ {V : Type 0} where
  abbrev pub pure : {A : Type 0} → A → Act V A
  pure a d = ok (a, d)

  abbrev pub bind : {A B : Type 0} → Outcome (A × V) → (A → Act V B) → Outcome (B × V)
  bind (ok (a, d)) f = f a d
  bind refused f = refused
  bind overread f = overread
  bind outside f = outside
  bind exhausted f = exhausted

  abbrev pub gets : {A : Type 0} → (V → A) → Act V A
  gets f d = ok (f d, d)

  abbrev pub modify : (V → V) → Act V (Unit {0})
  modify f d = ok (tt, f d)

infixl 5 ◌>>=◌ ◌>>◌
abbrev pub ◌>>=◌ : {V A B : Type 0} → Act V A → (A → Act V B) → Act V B
m >>= f = λ d. bind (m d) f

abbrev pub ◌>>◌ : {V B : Type 0} → Act V (Unit {0}) → Act V B → Act V B
m >> k = m >>= λ _. k

abbrev pub D : Type 0 → Type 0
D A = Act Decoder A

-- `CVAL(input)`
unfoldable pub cval : D ℕ
cval d = elim d.input [
  | [] ↦ overread
  | b ∷ bs ↦ ok (b, record d { input = bs; used = d.used + 1 })
]

-- A pixel of `bpp` octets; with two it is CVAL2.
unfoldable pub in_pixel : ℕ → D Pixel
unfolding cval
in_pixel zero = pure []
in_pixel (suc n) = do b ← cval; p ← in_pixel n; pure (b ∷ p)

abbrev pub xor_pixel : Pixel → Pixel → Pixel
xor_pixel [] q = []
xor_pixel (a ∷ p) [] = []
xor_pixel (a ∷ p) (b ∷ q) = bit_xor a b ∷ xor_pixel p q

-- `line[x] = pixel`
unfoldable pub put_pixel : Pixel → D (Unit {0})
put_pixel pixel d = elim d.line [
  | none ↦ outside
  | some at ↦
      if ltb (at + d.x) (length d.output)
      then ok (tt, record d { output = set d.output (at + d.x) pixel })
      else outside
]

-- `prevline[x]`, where there is a line before.
unfoldable pub above : D (Option Pixel)
above d = elim d.prevline [
  | none ↦ ok (none, d)
  | some at ↦ elim (get_elem? d.output (at + d.x)) [
    | none ↦ outside
    | some pixel ↦ ok (some pixel, d)
  ]
]
