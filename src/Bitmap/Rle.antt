-- ===== src/Bitmap/Rle.antt =====
-- source/bitmap.c: the decoders for pixels of one, two and three octets.
use rdesktopce_rdp.Prelude.{
  ℕ, zero, suc, ◌+◌, ◌-◌, ◌*◌, ◌/◌, ◌%◌, Bool, true, false, not, ◌&&◌, ◌||◌, none, some, List, ltb,
  ◌==◌, if◌then◌else◌, replicate,
}
use rdesktopce_rdp.Bitmap.{
  Outcome, ok, refused, overread, outside, exhausted, Pixel, Decoder, D, pure, ◌>>=◌, ◌>>◌, modify,
  cval, in_pixel,
}
use rdesktopce_rdp.Bitmap.Run.{output_run}

-- The opcode, the count and the offset of the first switch.
unfoldable pub in_opcode : ℕ → D (ℕ × ℕ × ℕ)
unfolding cval
in_opcode code =
    if code / 16 == 0xf
    then (if ltb (code % 16) 9
        then (do low ← cval; high ← cval; pure (code % 16, low + high * 256, 0))
        else pure (code % 16, (if ltb (code % 16) 0xb then 8 else 1), 0))
    else if ltb (code / 16) 0xc
    then pure (code / 16 / 2, code % 32, 32)
    else pure (code / 16 - 6, code % 16, 16)

abbrev pub is_fill_or_mix : ℕ → Bool
is_fill_or_mix opcode = (opcode == 2) || (opcode == 7)

-- "Handle strange cases for counts"
unfoldable pub in_count : ℕ → ℕ → ℕ → D ℕ
unfolding cval
in_count opcode count offset =
    if offset == 0
    then pure count
    else if count == 0
    then (do n ← cval; pure (n + (if is_fill_or_mix opcode then 1 else offset)))
    else pure (if is_fill_or_mix opcode then count * 8 else count)

-- An opcode is the one before, and not at the start of the first line.
abbrev pub is_second_fill : ℕ → ℕ → Decoder → Bool
is_second_fill width opcode d =
    elim d.lastopcode [ none ↦ false | some last ↦ last == opcode ]
    && not ((d.x == width) && elim d.prevline [ none ↦ true | some at ↦ false ])

abbrev pub fill_or_mix : ℕ → D ℕ
fill_or_mix m = do modify (λ d. record d { mask = m; fom_mask = m }); pure 2

-- "Read preliminary data": the opcode afterwards.
unfoldable pub in_preliminary : ℕ → ℕ → ℕ → D ℕ
unfolding in_pixel
in_preliminary bpp width opcode =
    if opcode == 0
    then (do
      modify (λ d. record d { insertmix = d.insertmix || is_second_fill width opcode d })
      pure opcode)
    else if opcode == 8
    then (do
      colour1 ← in_pixel bpp
      colour2 ← in_pixel bpp
      modify (λ d. record d { colour1 = colour1; colour2 = colour2 })
      pure opcode)
    else if opcode == 3
    then (do colour2 ← in_pixel bpp; modify (λ d. record d { colour2 = colour2 }); pure opcode)
    else if (opcode == 6) || (opcode == 7)
    then (do mix ← in_pixel bpp; modify (λ d. record d { mix = mix }); pure (opcode - 5))
    else if opcode == 9
    then fill_or_mix 0x03
    else if opcode == 0x0a
    then fill_or_mix 0x05
    else pure opcode

-- One round of the outer loop; `rows` is the height of the bitmap.
unfoldable pub order : ℕ → ℕ → ℕ → D (Unit {0})
unfolding cval in_opcode in_count in_preliminary output_run
order bpp width rows = do
  modify (λ d. record d { fom_mask = 0 })
  code ← cval
  form ← in_opcode code
  count ← in_count form.0 form.1 form.2
  opcode ← in_preliminary bpp width form.0
  modify (λ d. record d { lastopcode = some opcode; mixmask = 0; count = count })
  output_run (rows + 2) bpp width opcode

-- `while (input < end)`: each round takes an octet at least.
unfoldable pub orders : ℕ → ℕ → ℕ → ℕ → ℕ → D (Unit {0})
unfolding order
orders zero bpp width rows size d = exhausted
orders (suc fuel) bpp width rows size d =
    let round = order bpp width rows >> orders fuel bpp width rows size in
    if ltb d.used size then round d else ok (tt, d)

abbrev pub start : ℕ → ℕ → ℕ → List Pixel → List ℕ → Decoder
start bpp width height output input = record {
  input = input;
  used = 0;
  output = output;
  x = width;
  height = height;
  line = none;
  prevline = none;
  count = 0;
  lastopcode = none;
  insertmix = false;
  bicolour = false;
  colour1 = replicate bpp 0;
  colour2 = replicate bpp 0;
  mix = replicate bpp 0xff;
  mixmask = 0;
  mask = 0;
  fom_mask = 0;
}

abbrev pub output_of : Outcome (Unit {0} × Decoder) → Outcome (List Pixel)
output_of (ok (_, d)) = ok d.output
output_of refused = refused
output_of overread = overread
output_of outside = outside
output_of exhausted = exhausted

unfoldable pub decompress : ℕ → List Pixel → ℕ → ℕ → List ℕ → ℕ → Outcome (List Pixel)
unfolding orders
decompress bpp output width height input size =
    output_of (orders (size + 1) bpp width height size (start bpp width height output input))

unfoldable pub bitmap_decompress1 : List Pixel → ℕ → ℕ → List ℕ → ℕ → Outcome (List Pixel)
unfolding decompress
bitmap_decompress1 = decompress 1

unfoldable pub bitmap_decompress2 : List Pixel → ℕ → ℕ → List ℕ → ℕ → Outcome (List Pixel)
unfolding decompress
bitmap_decompress2 = decompress 2

unfoldable pub bitmap_decompress3 : List Pixel → ℕ → ℕ → List ℕ → ℕ → Outcome (List Pixel)
unfolding decompress
bitmap_decompress3 = decompress 3
