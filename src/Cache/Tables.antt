-- ===== src/Cache/Tables.antt =====
-- source/cache.c: the caches of glyphs, text, cursors and brushes, which are tables by index.
use rdesktopce_rdp.Prelude.{
  ℕ, ◌≡◌, ◌<◌, Bool, true, false, Option, none, some, List, take, ltb, ◌==◌, ◌&&◌, if◌then◌else◌,
  arith,
}

-- FONTGLYPH
pub record Glyph : Type 0 where
  pub offset : ℕ
  pub baseline : ℕ
  pub width : ℕ
  pub height : ℕ
  pub pixmap : Option ℕ

abbrev pub Fonts : Type 0
Fonts = ℕ → ℕ → Glyph

abbrev pub in_font_cache : ℕ → ℕ → Bool
in_font_cache font character = ltb font 12 && ltb character 256

abbrev pub has_pixmap : Glyph → Bool
has_pixmap g = elim g.pixmap [ none ↦ false | some h ↦ true ]

unfoldable pub cache_get_font : ℕ → ℕ → Fonts → Option Glyph
cache_get_font font character fonts =
    if in_font_cache font character
    then (if has_pixmap (fonts font character) then some (fonts font character) else none)
    else none

-- The cache, and the pixmap that is destroyed.
unfoldable pub cache_put_font : ℕ → ℕ → Glyph → Fonts → Fonts × Option ℕ
cache_put_font font character glyph fonts =
    if in_font_cache font character
    then (
      (λ f c. if (f == font) && (c == character) then glyph else fonts f c),
      (fonts font character).pixmap,
    )
    else (fonts, none)

abbrev pub Cursors : Type 0
Cursors = ℕ → Option ℕ

unfoldable pub cache_get_cursor : ℕ → Cursors → Option ℕ
cache_get_cursor idx cursors = if ltb idx 0x20 then cursors idx else none

-- The cache, and the cursor that is destroyed.
unfoldable pub cache_put_cursor : ℕ → Option ℕ → Cursors → Cursors × Option ℕ
cache_put_cursor idx cursor cursors =
    if ltb idx 0x20
    then ((λ i. if i == idx then cursor else cursors i), cursors idx)
    else (cursors, none)

-- BRUSHDATA: its `data` is taken over with it.
pub record BrushData : Type 0 where
  pub colour_code : ℕ
  pub data_size : ℕ
  pub pattern_octets : Option (List ℕ)

abbrev pub Brushes : Type 0
Brushes = ℕ → ℕ → BrushData

abbrev pub brush_table : ℕ → ℕ
brush_table colour_code = if colour_code == 1 then 0 else 1

unfoldable pub cache_get_brush_data : ℕ → ℕ → Brushes → Option BrushData
cache_get_brush_data colour_code idx brushes =
    if ltb idx 64 then some (brushes (brush_table colour_code) idx) else none

unfoldable pub cache_put_brush_data : ℕ → ℕ → BrushData → Brushes → Brushes
cache_put_brush_data colour_code idx brush brushes =
    if ltb idx 64
    then (λ t i. if (t == brush_table colour_code) && (i == idx) then brush else brushes t i)
    else brushes

-- The text cache, of 256 blobs by a uint8; an empty one is NULL of size 0.
abbrev pub Texts : Type 0
Texts = ℕ → List ℕ

unfoldable pub cache_get_text : ℕ → Texts → List ℕ
cache_get_text cache_id texts = texts cache_id

unfoldable pub cache_put_text : ℕ → List ℕ → ℕ → Texts → Texts
cache_put_text cache_id octets len texts = λ i. if i == cache_id then take len octets else texts i

-- Of two glyphs with a pixmap that were put one after the other, the first is got where it was
-- put, or the later one where the places are the same.
pub cache_get_font-cache_put_font :
    (font character font' character' : ℕ) (g g' : Glyph) (fonts : Fonts)
    → font < 12
    → character < 256
    → font' < 12
    → character' < 256
    → has_pixmap g ≡ true
    → has_pixmap g' ≡ true
    → cache_get_font font character
        (cache_put_font font' character' g' (cache_put_font font character g fonts).0).0
      ≡ (if (font == font') && (character == character') then some g' else some g)
unfolding cache_get_font cache_put_font
cache_get_font-cache_put_font font character font' character' g g' fonts a b c d e f =
    ground (arith, e, f)

-- A cursor that was put is got, another is not touched, and the cursor that it replaces is destroyed; outside the cache
-- nothing is put, destroyed or got.
pub cache_get_cursor-cache_put_cursor :
    (idx i : ℕ) (cursor : Option ℕ) (cursors : Cursors)
    → let put = cache_put_cursor idx cursor cursors in
      (cache_get_cursor i put.0
        ≡ (if (i == idx) && ltb i 0x20 then cursor else cache_get_cursor i cursors))
      × (put.1 ≡ cache_get_cursor idx cursors)
unfolding cache_get_cursor cache_put_cursor
cache_get_cursor-cache_put_cursor idx i cursor cursors = (ground arith, ground arith)

-- A brush is got back from the table of its colour code, and no other place of either table changes.
pub cache_get_brush_data-cache_put_brush_data :
    (code idx code' i : ℕ) (brush : BrushData) (brushes : Brushes)
    → cache_get_brush_data code' i (cache_put_brush_data code idx brush brushes) ≡ (
        if ltb idx 64 && ((brush_table code' == brush_table code) && (i == idx))
        then some brush
        else cache_get_brush_data code' i brushes)
unfolding cache_get_brush_data cache_put_brush_data
cache_get_brush_data-cache_put_brush_data code idx code' i brush brushes = ground arith
