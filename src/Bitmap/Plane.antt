-- ===== src/Bitmap/Plane.antt =====
-- source/bitmap.c: the decoder for pixels of four octets, whose planes are coded one after the other.
use rdesktopce_rdp.Prelude.{
  ℕ, zero, suc, ◌+◌, ◌-◌, ◌*◌, ◌/◌, ◌%◌, true, false, ◌&&◌, Option, none, some, List, [], ◌∷◌, ltb,
  leb, ◌==◌, if◌then◌else◌, set, get_elem?, length,
}
use rdesktopce_rdp.Bitmap.{
  Outcome, ok, refused, overread, outside, exhausted, Act, pure, ◌>>=◌, ◌>>◌, gets, modify,
}

-- The variables of process_plane; `output` has all planes, `out` and `last_line` are places in it, and
-- `color` is what is repeated, which on the first line is an octet and else an int modulo 256.
pub record Plane : Type 0 where
  pub input : List ℕ
  pub used : ℕ
  pub output : List ℕ
  pub out : ℕ
  pub indexw : ℕ
  pub color : ℕ
  pub last_line : Option ℕ

abbrev pub P : Type 0 → Type 0
P A = Act Plane A

unfoldable pub in_code : P ℕ
in_code d = elim d.input [
  | [] ↦ overread
  | b ∷ bs ↦ ok (b, record d { input = bs; used = d.used + 1 })
]

-- `*out = v; out += 4; indexw++;`
unfoldable pub put_octet : ℕ → P (Unit {0})
put_octet v d =
    if ltb d.out (length d.output)
    then ok (
      tt,
      record d { output = set d.output d.out (v % 256); out = d.out + 4; indexw = d.indexw + 1 },
    )
    else outside

-- What the line before adds: `last_line[indexw * 4]`, if there is one.
unfoldable pub last_octet : P ℕ
last_octet d = elim d.last_line [
  | none ↦ ok (0, d)
  | some at ↦ elim (get_elem? d.output (at + d.indexw * 4)) [ none ↦ outside | some b ↦ ok (b, d) ]
]

-- An octet as a signed difference, its sign in the lowest bit.
abbrev pub difference : ℕ → ℕ
difference x = if x % 2 == 1 then 256 - (x / 2 + 1) else x / 2

-- `while (collen > 0)`
unfoldable pub colours : ℕ → P (Unit {0})
unfolding in_code put_octet last_octet
colours zero = pure tt
colours (suc collen) = do
  x ← in_code
  first ← gets (λ d. elim d.last_line [ none ↦ true | some at ↦ false ])
  modify (λ d. record d { color = if first then x else difference x })
  color ← gets (λ d. d.color)
  last ← last_octet
  put_octet (last + color)
  colours collen

-- `while (replen > 0)`
unfoldable pub repeats : ℕ → P (Unit {0})
unfolding put_octet last_octet
repeats zero = pure tt
repeats (suc replen) = do
  color ← gets (λ d. d.color)
  last ← last_octet
  put_octet (last + color)
  repeats replen

-- `collen` and `replen` of a code.
abbrev pub lengths : ℕ → ℕ × ℕ
lengths code =
    let revcode = code % 16 * 16 + code / 16 % 16 in
    if leb revcode 47 && leb 16 revcode then (0, revcode) else (code / 16 % 16, code % 16)

-- `while (indexw < width)`. A code may be for no octet at all, so that only the input bounds the rounds.
unfoldable pub codes : ℕ → ℕ → P (Unit {0})
unfolding in_code colours repeats
codes zero width d = exhausted
codes (suc fuel) width d =
    let round =
      (in_code >>= λ code. do
        colours (lengths code).0
        repeats (lengths code).1
        codes fuel width) in
    if ltb d.indexw width then round d else ok (tt, d)

-- `while (indexh < height)`, with `n` lines left. `base` is the place of the plane.
unfoldable pub lines : ℕ → ℕ → ℕ → ℕ → P (Unit {0})
unfolding codes
lines zero base width height = pure tt
lines (suc n) base width height =
    let this_line = base + width * height * 4 - (height - n) * width * 4 in
    do
      modify (λ d. record d { out = this_line; indexw = 0; color = 0 })
      (λ d. codes (length d.input + 1) width d)
      modify (λ d. record d { last_line = some this_line })
      lines n base width height

-- The output, and what is left of the input; `size` is not used.
unfoldable pub process_plane : List ℕ → ℕ → ℕ → ℕ → List ℕ → Outcome (ℕ × Plane)
unfolding lines
process_plane input width height base output =
    (do lines height base width height; gets (λ d. d.used))
      (record {
        input = input;
        used = 0;
        output = output;
        out = 0;
        indexw = 0;
        color = 0;
        last_line = none;
      })

abbrev pub next_plane : ℕ → ℕ → ℕ → Outcome (ℕ × List ℕ × List ℕ) → Outcome (ℕ × List ℕ × List ℕ)
next_plane width height base (ok (total, input, output)) =
    elim (process_plane input width height base output) [
      | ok (bytes_pro, d) ↦ ok (total + bytes_pro, d.input, d.output)
      | refused ↦ refused
      | overread ↦ overread
      | outside ↦ outside
      | exhausted ↦ exhausted
    ]
next_plane width height base refused = refused
next_plane width height base overread = overread
next_plane width height base outside = outside
next_plane width height base exhausted = exhausted

abbrev pub judged : ℕ → Outcome (ℕ × List ℕ × List ℕ) → Outcome (List ℕ)
judged size (ok (total, input, output)) = if size == total then ok output else refused
judged size refused = refused
judged size overread = overread
judged size outside = outside
judged size exhausted = exhausted

unfoldable pub bitmap_decompress4 : List ℕ → ℕ → ℕ → List ℕ → ℕ → Outcome (List ℕ)
unfolding process_plane
bitmap_decompress4 output width height [] size = overread
bitmap_decompress4 output width height (code ∷ input) size =
    if code == 0x10
    then judged size (
        next_plane width height 0 (
          next_plane width height 1
            (next_plane width height 2 (next_plane width height 3 (ok (1, input, output))))))
    else refused
