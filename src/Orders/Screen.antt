-- ===== src/Orders/Screen.antt =====
-- source/orders.c: what the handlers of the orders work on, and their calls of the user interface
-- (source/proto.h) in the order they are made. An int is the pattern of its 32 bits.
use rdesktopce_rdp.Prelude.{
  ℕ, ◌+◌, ◌-◌, ◌%◌, ◌^◌, Option, none, some, List, [], ◌∷◌, ◌++◌, ltb, if◌then◌else◌,
}
use rdesktopce_rdp.Stream
use rdesktopce_rdp.Stream.{Stream}
use rdesktopce_rdp.Cache.Bitmap.{Bank}
use rdesktopce_rdp.Cache.Tables.{Fonts, Brushes}
use rdesktopce_rdp.Orders.{Pen, Brush, OrderState}

-- RD_POINT
pub record Point : Type 0 where
  pub x : ℕ
  pub y : ℕ

-- A handle is a number; a brush is NULL where it is `none`.
pub data Call : Type 0 where
  ui_set_clip : (x y cx cy : ℕ) → Call
  ui_reset_clip : Call
  ui_destblt : (opcode x y cx cy : ℕ) → Call
  ui_patblt : (opcode x y cx cy : ℕ) (brush : Brush) (bgcolour fgcolour : ℕ) → Call
  ui_screenblt : (opcode x y cx cy srcx srcy : ℕ) → Call
  ui_memblt : (opcode x y cx cy : ℕ) (src srcx srcy : ℕ) → Call
  ui_triblt :
      (opcode x y cx cy : ℕ) (src srcx srcy : ℕ) (brush : Brush) (bgcolour fgcolour : ℕ) → Call
  ui_line : (opcode startx starty endx endy : ℕ) (pen : Pen) → Call
  ui_rect : (x y cx cy colour : ℕ) → Call
  ui_polygon :
      (opcode fillmode : ℕ) (points : List Point) (npoints : ℕ) (brush : Option Brush)
      (bgcolour fgcolour : ℕ)
      → Call
  ui_polyline : (opcode : ℕ) (points : List Point) (npoints : ℕ) (pen : Pen) → Call
  ui_ellipse : (opcode fillmode x y cx cy : ℕ) (brush : Option Brush) (bgcolour fgcolour : ℕ) → Call
  ui_draw_text :
      (font flags opcode mixmode x y clipx clipy clipcx clipcy boxx boxy boxcx boxcy : ℕ)
      (brush : Brush) (bgcolour fgcolour : ℕ) (text : List ℕ) (len : ℕ)
      → Call
  ui_desktop_save : (offset x y cx cy : ℕ) → Call
  ui_desktop_restore : (offset x y cx cy : ℕ) → Call
  ui_create_bitmap : (width height : ℕ) (octets : List ℕ) → Call
  ui_destroy_bitmap : (bmp : ℕ) → Call
  ui_create_glyph : (width height : ℕ) (octets : List ℕ) → Call
  ui_destroy_glyph : (glyph : ℕ) → Call
  ui_create_colourmap : (colours : List (ℕ × ℕ × ℕ)) → Call
  ui_set_colourmap : (map : Option ℕ) → Call
  pstcache_save_bitmap :
      (cache_id cache_idx : ℕ) (key : List ℕ) (width height len : ℕ) (octets : List ℕ) → Call

-- `version` is `g_rdp_version`; `banks` are the three banks of `g_bmpcache`.
pub record Screen : Type 0 where
  pub stream : Stream
  pub orders : OrderState
  pub version : ℕ
  pub banks : ℕ → Bank
  pub fonts : Fonts
  pub brushes : Brushes
  pub calls : List Call

-- What the user interface returns and the persistent cache loads, after the calls made before.
pub record Platform : Type 0 where
  pub handle : List Call → Option ℕ
  pub stored : List Call → ℕ → ℕ → Option (Option ℕ)

abbrev pub S : Type 0 → Type 0
S A = Screen → Option (A × Screen)

abbrev pub pure : {A : Type 0} → A → S A
pure a w = some (a, w)

abbrev pub bind : {A B : Type 0} → Option (A × Screen) → (A → S B) → Option (B × Screen)
bind none f = none
bind (some (a, w)) f = f a w

infixl 5 ◌>>=◌ ◌>>◌
abbrev pub ◌>>=◌ : {A B : Type 0} → S A → (A → S B) → S B
m >>= f = λ w. bind (m w) f

abbrev pub ◌>>◌ : {B : Type 0} → S (Unit {0}) → S B → S B
m >> k = m >>= λ _. k

abbrev pub with_stream : {A : Type 0} → Screen → Option (A × Stream) → Option (A × Screen)
with_stream w none = none
with_stream w (some (a, s)) = some (a, record w { stream = s })

-- The macros on the stream of the orders.
unfoldable pub on_stream : {A : Type 0} → Stream.M A → S A
on_stream m w = with_stream w (m w.stream)

unfoldable pub gets : {A : Type 0} → (Screen → A) → S A
gets f w = some (f w, w)

unfoldable pub set_orders : (OrderState → OrderState) → S (Unit {0})
set_orders f w = some (tt, record w { orders = f w.orders })

unfoldable pub call : Call → S (Unit {0})
call c w = some (tt, record w { calls = w.calls ++ (c ∷ []) })

-- A sint16 as an int, and a difference of ints.
abbrev pub int16 : ℕ → ℕ
int16 v = if ltb v (2 ^ 15) then v else v + (2 ^ 32 - 2 ^ 16)

abbrev pub sub32 : ℕ → ℕ → ℕ
sub32 a b = (a + 2 ^ 32 - b) % 2 ^ 32

-- `to - from`, and `to - from + 1`, of two coordinates.
abbrev pub distance : ℕ → ℕ → ℕ
distance from to = sub32 (int16 to) (int16 from)

abbrev pub extent : ℕ → ℕ → ℕ
extent from to = (distance from to + 1) % 2 ^ 32
