-- ===== src/Bitmap/Tests.antt =====
-- The theorems on source/bitmap.c at small bitmaps, and runs.
use rdesktopce_rdp.Prelude.{ℕ, ◌*◌, ◌≡◌, refl, some, inl, List, [], ◌∷◌, replicate, arith}
use rdesktopce_rdp.Bitmap.{ok, outside, Pixel, Decoder}
use rdesktopce_rdp.Bitmap.Run.{statement, put_colour, by_one, repeat}
use rdesktopce_rdp.Bitmap.Rle.{start, decompress}
use rdesktopce_rdp.Bitmap.Plane.{bitmap_decompress4}
use rdesktopce_rdp.Bitmap.Decompress.{bitmap_decompress}
use rdesktopce_rdp.Bitmap.Loops.{Open}
use rdesktopce_rdp.Bitmap.Within.{Within, decompress-Within}
use rdesktopce_rdp.Bitmap.Unroll.{repeat-by_one}

abbrev blank : List Pixel
blank = replicate 6 (0 ∷ [])

-- Two pixels of a colour, one of the mix, and three copied.
abbrev coded : List ℕ
coded = 0x62 ∷ 7 ∷ 0x21 ∷ 0x83 ∷ 1 ∷ 2 ∷ 3 ∷ []

decoded : bitmap_decompress 3 2 coded 7 1 ≡ ok (1 ∷ 2 ∷ 3 ∷ 7 ∷ 7 ∷ 255 ∷ [])
unfolding bitmap_decompress
decoded = refl

decompress-Within_example : Within (2 * 3) (decompress 1 blank 3 2 coded 7)
decompress-Within_example = decompress-Within 1 3 2 7 blank coded (omega arith) refl

abbrev on_line : Decoder
on_line = record (start 1 30 1 (replicate 30 (0 ∷ [])) []) {
  x = 2;
  height = 0;
  line = some 0;
  count = 20;
  colour2 = 9 ∷ [];
}

repeat-by_one_example : repeat 30 put_colour on_line ≡ by_one 31 30 put_colour on_line
unfolding statement
repeat-by_one_example = repeat-by_one 30 1 1 3 put_colour on_line refl on_line_Open
  where
    on_line_Open : Open 30 1 0 on_line
    on_line_Open = record {
      at = refl;
      inside = omega arith;
      room = omega arith;
      before = inl refl;
      size = refl;
    }

-- A run of the first line that is longer than the line writes behind the output.
plane_overrun : bitmap_decompress4 (replicate 4 0) 1 1 (0x10 ∷ 0x03 ∷ []) 2 ≡ outside
unfolding bitmap_decompress4
plane_overrun = refl
