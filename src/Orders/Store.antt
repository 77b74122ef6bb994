-- ===== src/Orders/Store.antt =====
-- source/cache.c as the orders use it: the caches inside the state of the screen.
use rdesktopce_rdp.Prelude.{
  on, ℕ, Option, none, some, List, [], ◌∷◌, ◌++◌, ltb, ◌==◌, if◌then◌else◌, bit_and,
}
use rdesktopce_rdp.Cache.Bitmap
use rdesktopce_rdp.Cache.Bitmap.{Bank}
use rdesktopce_rdp.Cache.Tables
use rdesktopce_rdp.Cache.Tables.{Glyph, BrushData}
use rdesktopce_rdp.Orders.{Brush}
use rdesktopce_rdp.Orders.Fields.{first_octet}
use rdesktopce_rdp.Orders.Screen.{Platform, Call, ui_destroy_bitmap, ui_destroy_glyph, S}

abbrev pub set_bank : ℕ → Bank → (ℕ → Bank) → ℕ → Bank
set_bank id b banks i = if id == i then b else banks i

-- `ui_destroy_bitmap` of a bitmap that may be NULL.
abbrev pub destroyed : Option ℕ → List Call
destroyed none = []
destroyed (some bmp) = ui_destroy_bitmap bmp ∷ []

-- `NUM_ELEMENTS(g_bmpcache)` and `NUM_ELEMENTS(g_volatile_bc)` are 3.
unfoldable pub get_bitmap : Platform → ℕ → ℕ → S (Option ℕ)
get_bitmap ui id idx w =
    if ltb id 3
    then elim (Bitmap.cache_get_bitmap idx (ui.stored w.calls id idx) (w.banks id)) [
      | none ↦ none
      | some (b, bitmap) ↦ some (bitmap, record w { banks = set_bank id b w.banks })
    ]
    else some (none, w)

unfoldable pub put_bitmap : ℕ → ℕ → Option ℕ → S (Unit {0})
put_bitmap id idx bitmap w =
    if ltb id 3
    then elim (Bitmap.cache_put_bitmap idx bitmap (w.banks id)) [
      | none ↦ none
      | some (b, old, evicted) ↦ some (
        tt,
        record w {
          banks = set_bank id b w.banks;
          calls = w.calls ++ (destroyed old ++ destroyed evicted);
        },
      )
    ]
    else some (tt, w)

abbrev pub destroyed_glyph : Option ℕ → List Call
destroyed_glyph none = []
destroyed_glyph (some glyph) = ui_destroy_glyph glyph ∷ []

unfoldable pub put_font : ℕ → ℕ → Glyph → S (Unit {0})
put_font font character glyph w =
    let (fonts, old) = Tables.cache_put_font font character glyph w.fonts in
    some (tt, record w { fonts = fonts; calls = w.calls ++ destroyed_glyph old })

unfoldable pub put_brush_data : ℕ → ℕ → BrushData → S (Unit {0})
put_brush_data code idx brush w =
    some (tt, record w { brushes = Tables.cache_put_brush_data code idx brush w.brushes })

-- The data of a brush that is in the cache, if it has any.
abbrev pub usable : Option BrushData → Option BrushData
usable none = none
usable (some d) = elim d.pattern_octets [ none ↦ none | some octets ↦ some d ]

abbrev pub cached_brush : Option BrushData → Brush → Brush
cached_brush none b = record b {
  bd = none;
  pattern = 0 ∷ 0 ∷ 0 ∷ 0 ∷ 0 ∷ 0 ∷ 0 ∷ 0 ∷ [];
  style = 3;
}
cached_brush (some d) b = record b { bd = some d; style = 3 }

unfoldable pub setup_brush : Brush → S Brush
setup_brush b w = some (
  (if on b.style 0x80
      then cached_brush
          (usable
            (Tables.cache_get_brush_data (bit_and b.style 0x0f) (first_octet b.pattern) w.brushes))
          b
      else b),
  w,
)
