-- ===== src/Orders/Caches.antt =====
-- source/orders.c: the secondary orders for colour maps, fonts and brushes.
use rdesktopce_rdp.Prelude.{
  ℕ, zero, suc, ◌+◌, ◌-◌, ◌*◌, ◌/◌, ◌%◌, ◌&&◌, Option, none, some, List, [], ◌∷◌, ◌++◌, leb, ◌==◌,
  if◌then◌else◌, length, take, drop, get_elem?, replicate,
}
use mathlib.Core.List.{reverse}
use rdesktopce_rdp.Stream.{in_uint8, in_uint8p, in_uint8a, in_uint8s, in_uint16_le}
use rdesktopce_rdp.Orders.Store.{put_font, put_brush_data}
use rdesktopce_rdp.Orders.Bmpcache.{copied}
use rdesktopce_rdp.Orders.Screen.{
  Platform, ui_create_colourmap, ui_set_colourmap, ui_create_glyph, S, pure, ◌>>=◌, ◌>>◌, on_stream,
  gets, call,
}

-- The entries, as red, green and blue.
unfoldable pub in_colours : ℕ → S (List (ℕ × ℕ × ℕ))
in_colours zero = pure []
in_colours (suc n) = do
  blue ← on_stream in_uint8
  green ← on_stream in_uint8
  red ← on_stream in_uint8
  on_stream (in_uint8s 1)
  entries ← in_colours n
  pure ((red, green, blue) ∷ entries)

unfoldable pub process_colcache : Platform → S (Unit {0})
unfolding in_colours
process_colcache ui = do
  cache_id ← on_stream in_uint8
  ncolours ← on_stream in_uint16_le
  colours ← in_colours ncolours
  call (ui_create_colourmap colours)
  hmap ← gets (λ w. ui.handle w.calls)
  (if cache_id == 0 then pure tt else call (ui_set_colourmap hmap))

-- `(height * ((width + 7) / 8) + 3) & ~3`
abbrev pub glyph_size : ℕ → ℕ → ℕ
glyph_size width height = (height * ((width + 7) / 8) + 3) / 4 * 4

unfoldable pub in_glyphs : Platform → ℕ → ℕ → S (Unit {0})
unfolding in_uint8p
in_glyphs ui font zero = pure tt
in_glyphs ui font (suc n) = do
  character ← on_stream in_uint16_le
  offset ← on_stream in_uint16_le
  baseline ← on_stream in_uint16_le
  width ← on_stream in_uint16_le
  height ← on_stream in_uint16_le
  octets ← on_stream (in_uint8p (glyph_size width height))
  call (ui_create_glyph width height (take (glyph_size width height) octets))
  bitmap ← gets (λ w. ui.handle w.calls)
  put_font font character (record {
    offset = offset;
    baseline = baseline;
    width = width;
    height = height;
    pixmap = bitmap;
  })
  in_glyphs ui font n

unfoldable pub process_fontcache : Platform → S (Unit {0})
unfolding in_glyphs
process_fontcache ui = do
  font ← on_stream in_uint8
  nglyphs ← on_stream in_uint8
  in_glyphs ui font nglyphs

-- `pal[pal_index * Bpp + i]` for each `i`.
abbrev pub palette_entry : ℕ → List ℕ → ℕ → Option (List ℕ)
palette_entry Bpp pal i =
    if leb (i * Bpp + Bpp) (length pal) then some (take Bpp (drop (i * Bpp) pal)) else none

abbrev pub joined : Option (List ℕ) → Option (List ℕ) → Option (List ℕ)
joined none b = none
joined (some a) none = none
joined (some a) (some b) = some (a ++ b)

-- "4 pixels per byte", from the upper bits on.
unfoldable pub four_pixels : ℕ → List ℕ → Option ℕ → Option (List ℕ)
four_pixels Bpp pal none = none
four_pixels Bpp pal (some b) = joined (palette_entry Bpp pal (b / 64 % 4)) (
    joined (palette_entry Bpp pal (b / 16 % 4))
      (joined (palette_entry Bpp pal (b / 4 % 4)) (palette_entry Bpp pal (b % 4))))

-- Bottom up: a row stands before those that were done earlier.
unfoldable pub brush_rows : ℕ → ℕ → ℕ → List ℕ → List ℕ → Option (List ℕ)
unfolding four_pixels
brush_rows zero in_index Bpp octets out = some out
brush_rows (suc y) in_index Bpp octets out =
    let pal = drop 16 octets in
    elim (joined (four_pixels Bpp pal (get_elem? octets in_index))
      (four_pixels Bpp pal (get_elem? octets (in_index + 1)))) [
        | none ↦ none
        | some row ↦ brush_rows y (in_index + 2) Bpp octets (row ++ out)
      ]

unfoldable pub process_compressed_8x8_brush_data : List ℕ → ℕ → Option (List ℕ)
unfolding brush_rows
process_compressed_8x8_brush_data octets Bpp = brush_rows 8 0 Bpp octets []

abbrev pub put_brush : ℕ → ℕ → ℕ → List ℕ → S (Unit {0})
put_brush code idx size octets =
    put_brush_data code idx
      (record { colour_code = code; data_size = size; pattern_octets = some octets })

-- The data of a brush of one bit for a pixel, which is not read if its size is wrong.
unfoldable pub in_mono : ℕ → S (List ℕ)
in_mono size =
    if size == 8
    then (do octets ← on_stream (in_uint8a 8); pure (reverse octets))
    else pure (replicate 8 0)

unfoldable pub in_brush : ℕ → ℕ → S (List ℕ)
unfolding in_uint8p process_compressed_8x8_brush_data
in_brush size Bpp =
    if size == 16 + 4 * Bpp
    then (do
      comp_brush ← on_stream (in_uint8p (16 + 4 * Bpp))
      copied (process_compressed_8x8_brush_data comp_brush Bpp))
    else on_stream (in_uint8a (8 * 8 * Bpp))

unfoldable pub process_brushcache : S (Unit {0})
unfolding in_mono in_brush
process_brushcache = do
  cache_idx ← on_stream in_uint8
  colour_code ← on_stream in_uint8
  width ← on_stream in_uint8
  height ← on_stream in_uint8
  type ← on_stream in_uint8
  size ← on_stream in_uint8
  (if (width == 8) && (height == 8)
      then (if colour_code == 1
          then (do octets ← in_mono size; put_brush 1 cache_idx 8 octets)
          else if leb 3 colour_code && leb colour_code 6
          then (do
            octets ← in_brush size (colour_code - 2)
            put_brush colour_code cache_idx (8 * 8 * (colour_code - 2)) octets)
          else pure tt)
      else pure tt)
