-- ===== src/Bitmap/Decompress.antt =====
-- source/bitmap.c: the main decoder, on a buffer that the caller has just allocated, whose octets are 0.
use rdesktopce_rdp.Prelude.{ℕ, ◌*◌, List, [], ◌∷◌, ◌++◌, ◌==◌, if◌then◌else◌, replicate}
use rdesktopce_rdp.Bitmap.{Outcome, ok, refused, overread, outside, exhausted, Pixel}
use rdesktopce_rdp.Bitmap.Rle.{bitmap_decompress1, bitmap_decompress2, bitmap_decompress3}
use rdesktopce_rdp.Bitmap.Plane.{bitmap_decompress4}

-- The octets of the pixels, in memory order.
abbrev pub octets_of : List Pixel → List ℕ
octets_of [] = []
octets_of (p ∷ ps) = p ++ octets_of ps

abbrev pub flat : Outcome (List Pixel) → Outcome (List ℕ)
flat (ok ps) = ok (octets_of ps)
flat refused = refused
flat overread = overread
flat outside = outside
flat exhausted = exhausted

unfoldable pub bitmap_decompress : ℕ → ℕ → List ℕ → ℕ → ℕ → Outcome (List ℕ)
unfolding bitmap_decompress1 bitmap_decompress2 bitmap_decompress3 bitmap_decompress4
bitmap_decompress width height input size Bpp =
    let fresh = replicate (width * height) (replicate Bpp 0) in
    if Bpp == 1
    then flat (bitmap_decompress1 fresh width height input size)
    else if Bpp == 2
    then flat (bitmap_decompress2 fresh width height input size)
    else if Bpp == 3
    then flat (bitmap_decompress3 fresh width height input size)
    else if Bpp == 4
    then bitmap_decompress4 (octets_of fresh) width height input size
    else refused
