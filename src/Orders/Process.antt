-- ===== src/Orders/Process.antt =====
-- source/orders.c: the loop over the orders of a PDU.
use rdesktopce_rdp.Prelude.{
  on, ℕ, zero, suc, ◌+◌, ◌-◌, ◌^◌, Bool, true, false, ◌||◌, Option, none, some, ltb, leb, ◌==◌,
  if◌then◌else◌,
}
use rdesktopce_rdp.Stream.{in_uint8, in_uint16_le}
use rdesktopce_rdp.Orders.Fields.{rdp_in_present, rdp_parse_bounds}
use rdesktopce_rdp.Orders.Screen.{
  Platform, ui_set_clip, ui_reset_clip, S, pure, ◌>>=◌, ◌>>◌, on_stream, gets, set_orders, call,
  int16, extent,
}
use rdesktopce_rdp.Orders.Draw.{
  process_destblt, process_patblt, process_screenblt, process_line, process_rect, process_desksave,
  process_memblt, process_triblt,
}
use rdesktopce_rdp.Orders.Shape.{
  process_polygon, process_polygon2, process_polyline, process_ellipse, process_ellipse2,
  process_text2,
}
use rdesktopce_rdp.Orders.Bmpcache.{process_raw_bmpcache, process_bmpcache, process_bmpcache2}
use rdesktopce_rdp.Orders.Caches.{process_colcache, process_fontcache, process_brushcache}

unfoldable pub dispatch_secondary : Platform → ℕ → ℕ → S (Unit {0})
dispatch_secondary ui flags type =
    if type == 0
    then process_raw_bmpcache ui
    else if type == 1
    then process_colcache ui
    else if type == 2
    then process_bmpcache ui
    else if type == 3
    then process_fontcache ui
    else if type == 4
    then process_bmpcache2 ui flags false
    else if type == 5
    then process_bmpcache2 ui flags true
    else if type == 7
    then process_brushcache
    else pure tt

-- `s->p + (sint16) length + 7`; a place before the buffer is a fault.
abbrev pub next_order : ℕ → ℕ → Option ℕ
next_order p len =
    if ltb len (2 ^ 15)
    then some (p + len + 7)
    else if leb (2 ^ 16) (p + len + 7)
    then some (p + len + 7 - 2 ^ 16)
    else none

abbrev pub seek : Option ℕ → S (Unit {0})
seek none w = none
seek (some p) w = some (tt, record w { stream = record w.stream { p = p } })

unfoldable pub process_secondary_order : Platform → S (Unit {0})
unfolding dispatch_secondary
process_secondary_order ui = do
  len ← on_stream in_uint16_le
  flags ← on_stream in_uint16_le
  type ← on_stream in_uint8
  p ← gets (λ w. w.stream.p)
  dispatch_secondary ui flags type
  seek (next_order p len)

-- How many octets say which fields an order has.
abbrev pub field_octets : ℕ → ℕ
field_octets type =
    if (type == 14) || (type == 27)
    then 3
    else if (type == 1) || ((type == 13) || ((type == 9) || ((type == 21) || (type == 26))))
    then 2
    else 1

-- The handler of an order type, if it has one.
unfoldable pub handler : Platform → ℕ → Option (ℕ → Bool → S (Unit {0}))
handler ui type =
    if type == 0
    then some process_destblt
    else if type == 1
    then some process_patblt
    else if type == 2
    then some process_screenblt
    else if type == 9
    then some process_line
    else if type == 10
    then some process_rect
    else if type == 11
    then some process_desksave
    else if type == 13
    then some (process_memblt ui)
    else if type == 14
    then some (process_triblt ui)
    else if type == 20
    then some process_polygon
    else if type == 21
    then some process_polygon2
    else if type == 22
    then some process_polyline
    else if type == 25
    then some process_ellipse
    else if type == 26
    then some process_ellipse2
    else if type == 27
    then some process_text2
    else none

unfoldable pub set_clip : ℕ → S (Unit {0})
unfolding rdp_parse_bounds
set_clip flags =
    if on flags 0x04
    then (do
      old ← gets (λ w. w.orders.bounds)
      b ← (if on flags 0x20 then pure old else on_stream (rdp_parse_bounds old))
      set_orders (λ o. record o { bounds = b })
      call (
          ui_set_clip (int16 b.left) (int16 b.top) (extent b.left b.right) (extent b.top b.bottom)))
    else pure tt

-- The second switch over the type; false where an unknown type makes `process_orders` return.
unfoldable pub run_order : Option (ℕ → Bool → S (Unit {0})) → ℕ → ℕ → S Bool
run_order none flags present = pure false
run_order (some process) flags present = do
  process present (on flags 0x10)
  (if on flags 0x04 then call ui_reset_clip else pure tt)
  pure true

unfoldable pub process_primary_order : Platform → ℕ → S Bool
unfolding handler set_clip rdp_in_present run_order
process_primary_order ui flags = do
  old ← gets (λ w. w.orders.order_type)
  type ← (if on flags 0x08 then on_stream in_uint8 else pure old)
  set_orders (λ o. record o { order_type = type })
  present ← on_stream (rdp_in_present flags (field_octets type))
  set_clip flags
  run_order (handler ui type) flags present

-- One round: whether the loop goes on.
unfoldable pub process_order : Platform → S Bool
unfolding process_primary_order process_secondary_order
process_order ui = do
  flags ← on_stream in_uint8
  (if on flags 0x01
      then (if on flags 0x02
          then (do process_secondary_order ui; pure true)
          else process_primary_order ui flags)
      else pure false)

-- With `n` orders left.
unfoldable pub process_orders : Platform → ℕ → S (Unit {0})
unfolding process_order
process_orders ui zero = pure tt
process_orders ui (suc n) = do
  more ← process_order ui
  (if more then process_orders ui n else pure tt)
