-- ===== src/Cache/Tests.antt =====
-- Runs of the caches.
use rdesktopce_rdp.Prelude.{
  ℕ, ◌≡◌, ◌≤◌, ◌<◌, ◌⊎◌, ◌+◌, ◌*◌, refl, arith, List, [], ◌∷◌, true, none, some, Option,
  if◌then◌else◌, ◌==◌,
}
use rdesktopce_rdp.Cache.Bitmap.{Bank, cache_put_bitmap, stamps}
use rdesktopce_rdp.Cache.Put.{Cached, recent}
use rdesktopce_rdp.Cache.Refine.{AfterPut, cache_put_bitmap-AfterPut}
use rdesktopce_rdp.Cache.Desktop.{
  desk_size, cache_get_desktop, cache_put_desktop, cache_get_desktop-cache_put_desktop,
  cache_put_desktop_full,
}
use rdesktopce_rdp.Cache.Tables.{
  Glyph, Fonts, Cursors, BrushData, cache_get_font, cache_put_font, cache_get_font-cache_put_font,
  cache_get_cursor, cache_put_cursor, cache_get_cursor-cache_put_cursor, cache_get_brush_data,
  cache_put_brush_data, cache_get_brush_data-cache_put_brush_data,
}

abbrev empty : Bank
empty = record {
  persistent = true;
  cells = λ _. record { bitmap = none; previous = none; next = none };
  lru = none;
  mru = none;
  count = 0;
  volatile = none;
}

-- The list after bitmaps were put at 3, 1 and 2, and 3 again, from the least recently used on.
order : Option (Bank × Option ℕ × Option ℕ) → List (ℕ × ℕ)
order none = []
order (some (b, _, _)) = stamps 10 b.cells b.lru 0

put_all : List ℕ → Bank → Option (Bank × Option ℕ × Option ℕ)
put_all [] b = some (b, none, none)
put_all (i ∷ is) b = elim (cache_put_bitmap i (some (100 + i)) b) [
  | none ↦ none
  | some (b', _, _) ↦ put_all is b'
]

recency : order (put_all (3 ∷ 1 ∷ 2 ∷ 3 ∷ []) empty) ≡ (1, 1) ∷ (2, 2) ∷ (3, 3) ∷ []
unfolding order put_all cache_put_bitmap stamps
recency = refl

cache_get_desktop-cache_put_desktop_example :
    (place : ℕ) × (cache_get_desktop 100 2 3 2 ≡ some place)
    × ((row i : ℕ)
        → row < 3
        → i < 2 * 2
        → cache_put_desktop 100 2 3 10 2 (λ j. j) (λ _. 0) (place + row * (2 * 2) + i)
          ≡ row * 10 + i)
    × ((j : ℕ)
        → (j < place) ⊎ (place + 3 * (2 * 2) ≤ j)
        → cache_put_desktop 100 2 3 10 2 (λ j. j) (λ _. 0) j ≡ 0)
cache_get_desktop-cache_put_desktop_example =
    cache_get_desktop-cache_put_desktop 100 2 3 10 2 (λ j. j) (λ _. 0) (omega arith)

cache_put_desktop_full_example :
    (cache_put_desktop desk_size 2 3 10 2 (λ j. j) (λ _. 0) ≡ (λ _. 0))
    × (cache_get_desktop desk_size 2 3 2 ≡ none)
cache_put_desktop_full_example =
    cache_put_desktop_full desk_size 2 3 10 2 (λ j. j) (λ _. 0) (omega arith)

abbrev glyph : ℕ → Glyph
glyph h = record { offset = 0; baseline = 1; width = 8; height = 8; pixmap = some h }

abbrev no_fonts : Fonts
no_fonts font character = record { offset = 0; baseline = 0; width = 0; height = 0; pixmap = none }

cache_get_font-cache_put_font_example :
    cache_get_font 1 65 (cache_put_font 1 66 (glyph 8) (cache_put_font 1 65 (glyph 7) no_fonts).0).0
    ≡ some (glyph 7)
cache_get_font-cache_put_font_example =
    cache_get_font-cache_put_font 1 65 1 66 (glyph 7) (glyph 8) no_fonts (omega arith) (omega arith)
      (omega arith) (omega arith) refl refl

abbrev cursors : Cursors
cursors i = if i == 2 then some 9 else none

cache_get_cursor-cache_put_cursor_example :
    (cache_get_cursor 2 (cache_put_cursor 2 (some 5) cursors).0 ≡ some 5)
    × ((cache_put_cursor 2 (some 5) cursors).1 ≡ cache_get_cursor 2 cursors)
cache_get_cursor-cache_put_cursor_example = cache_get_cursor-cache_put_cursor 2 2 (some 5) cursors

abbrev brush : ℕ → BrushData
brush n = record { colour_code = n; data_size = 1; pattern_octets = some (n ∷ []) }

cache_get_brush_data-cache_put_brush_data_example :
    cache_get_brush_data 1 3 (cache_put_brush_data 1 3 (brush 1) (λ _ _. brush 0)) ≡ some (brush 1)
cache_get_brush_data-cache_put_brush_data_example =
    cache_get_brush_data-cache_put_brush_data 1 3 1 3 (brush 1) (λ _ _. brush 0)

empty-Cached : Cached empty []
empty-Cached = record {
  persistent = refl;
  linked = record { chain = tt; oldest = refl; newest = refl; counted = refl; unique = tt };
  filled = tt;
  others = λ j a. refl;
}

cache_put_bitmap-AfterPut_example : AfterPut 3 7 empty (recent 3 [])
cache_put_bitmap-AfterPut_example =
    cache_put_bitmap-AfterPut 3 7 empty [] (omega arith) (omega arith) empty-Cached
