-- ===== src/Bitmap/Run.antt =====
-- source/bitmap.c: one run of pixels, the body of the decoders.
use rdesktopce_rdp.Prelude.{
  on, ℕ, zero, suc, ◌+◌, ◌-◌, ◌*◌, ◌%◌, true, false, ◌&&◌, Option, none, some, ltb, leb, ◌==◌,
  if◌then◌else◌, replicate,
}
use rdesktopce_rdp.Bitmap.{
  ok, refused, exhausted, D, pure, ◌>>=◌, ◌>>◌, gets, modify, cval, in_pixel, xor_pixel, put_pixel,
  above,
}

-- MASK_UPDATE
unfoldable pub mask_update : D (Unit {0})
unfolding cval
mask_update = do
  modify (λ d. record d { mixmask = d.mixmask * 2 % 256 })
  over ← gets (λ d. d.mixmask == 0)
  (if over
      then (do
        fom ← gets (λ d. d.fom_mask)
        mask ← (if fom == 0 then cval else pure fom)
        modify (λ d. record d { mask = mask; mixmask = 1 }))
      else pure tt)

-- The pixel `mix` over the line before, and the line before itself.
unfoldable pub put_mixed : D (Unit {0})
unfolding put_pixel above
put_mixed = do
  mix ← gets (λ d. d.mix)
  up ← above
  put_pixel (elim up [ none ↦ mix | some p ↦ xor_pixel p mix ])

unfoldable pub put_above : ℕ → D (Unit {0})
unfolding put_pixel above
put_above bpp = do up ← above; put_pixel (elim up [ none ↦ replicate bpp 0 | some p ↦ p ])

unfoldable pub put_masked : ℕ → D (Unit {0})
unfolding mask_update put_mixed put_above
put_masked bpp = do
  mask_update
  set ← gets (λ d. on d.mask d.mixmask)
  (if set then put_mixed else put_above bpp)

unfoldable pub put_bicolour : D (Unit {0})
unfolding put_pixel
put_bicolour = do
  second ← gets (λ d. d.bicolour)
  (if second
      then (do
        colour2 ← gets (λ d. d.colour2)
        put_pixel colour2
        modify (λ d. record d { bicolour = false }))
      else do
        colour1 ← gets (λ d. d.colour1)
        put_pixel colour1
        modify (λ d. record d { bicolour = true; count = d.count + 1 }))

unfoldable pub put_copied : ℕ → D (Unit {0})
unfolding in_pixel put_pixel
put_copied bpp = do pixel ← in_pixel bpp; put_pixel pixel

unfoldable pub put_colour : D (Unit {0})
unfolding put_pixel
put_colour = do colour2 ← gets (λ d. d.colour2); put_pixel colour2

-- The statement that an opcode repeats, if it has one.
unfoldable pub statement : ℕ → ℕ → Option (D (Unit {0}))
unfolding put_above put_mixed put_masked put_colour put_copied put_bicolour put_pixel
statement bpp opcode =
    if opcode == 0
    then some (put_above bpp)
    else if opcode == 1
    then some put_mixed
    else if opcode == 2
    then some (put_masked bpp)
    else if opcode == 3
    then some put_colour
    else if opcode == 4
    then some (put_copied bpp)
    else if opcode == 8
    then some put_bicolour
    else if opcode == 0xd
    then some (put_pixel (replicate bpp 0xff))
    else if opcode == 0xe
    then some (put_pixel (replicate bpp 0))
    else none

-- `statement; count--; x++;`
unfoldable pub once : D (Unit {0}) → D (Unit {0})
once st = do st; modify (λ d. record d { count = d.count - 1; x = d.x + 1 })

-- UNROLL8
unfoldable pub times : ℕ → D (Unit {0}) → D (Unit {0})
unfolding once
times zero st = pure tt
times (suc n) st = do once st; times n st

-- The loops of REPEAT. Each round moves `x`, so `width` rounds are enough.
unfoldable pub by_eight : ℕ → ℕ → D (Unit {0}) → D (Unit {0})
unfolding times
by_eight zero width st d = exhausted
by_eight (suc fuel) width st d =
    let round = times 8 st >> by_eight fuel width st in
    if leb 8 d.count && ltb (d.x + 8) width then round d else ok (tt, d)

unfoldable pub by_one : ℕ → ℕ → D (Unit {0}) → D (Unit {0})
unfolding once
by_one zero width st d = exhausted
by_one (suc fuel) width st d =
    let round = once st >> by_one fuel width st in
    if ltb 0 d.count && ltb d.x width then round d else ok (tt, d)

unfoldable pub repeat : ℕ → D (Unit {0}) → D (Unit {0})
unfolding by_eight by_one
repeat width st = do by_eight (width + 1) width st; by_one (width + 1) width st

-- `if (x >= width) ...`: the next line, if there is one left.
unfoldable pub next_line : ℕ → D (Unit {0})
next_line width d =
    if ltb d.x width
    then ok (tt, d)
    else if d.height == 0
    then refused
    else ok (
      tt,
      record d {
        x = 0;
        height = d.height - 1;
        prevline = d.line;
        line = some ((d.height - 1) * width);
      },
    )

-- The pixel between two runs of opcode 0.
unfoldable pub insert_mix : ℕ → D (Unit {0})
unfolding put_mixed once
insert_mix opcode = do
  insert ← gets (λ d. (opcode == 0) && d.insertmix)
  (if insert then (do once put_mixed; modify (λ d. record d { insertmix = false })) else pure tt)

-- The switch over the opcode, on the statement that it repeats.
unfoldable pub draw : ℕ → ℕ → Option (D (Unit {0})) → D (Unit {0})
unfolding insert_mix repeat
draw width opcode none = λ d. refused
draw width opcode (some st) = do insert_mix opcode; repeat width st

unfoldable pub segment : ℕ → ℕ → ℕ → D (Unit {0})
unfolding next_line draw statement
segment bpp width opcode = do next_line width; draw width opcode (statement bpp opcode)

-- `while (count > 0)`: each round but the first takes a line.
unfoldable pub output_run : ℕ → ℕ → ℕ → ℕ → D (Unit {0})
unfolding segment
output_run zero bpp width opcode d = exhausted
output_run (suc fuel) bpp width opcode d =
    let round = segment bpp width opcode >> output_run fuel bpp width opcode in
    if ltb 0 d.count then round d else ok (tt, d)
