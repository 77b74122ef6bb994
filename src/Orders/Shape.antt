-- ===== src/Orders/Shape.antt =====
-- source/orders.c: the process functions of the primary orders for figures and text.
use rdesktopce_rdp.Prelude.{ℕ, ◌+◌, ◌-◌, ◌%◌, Bool, Option, none, some, ◌∷◌, if◌then◌else◌}
use rdesktopce_rdp.Orders.Figures.{
  in_polygon, in_polygon2, in_polyline, in_ellipse, in_ellipse2, in_text2,
}
use rdesktopce_rdp.Orders.Points.{delta_points}
use rdesktopce_rdp.Orders.Draw.{bad_rop2}
use rdesktopce_rdp.Orders.Store.{setup_brush}
use rdesktopce_rdp.Orders.Screen.{
  ui_polygon, ui_polyline, ui_ellipse, ui_draw_text, S, pure, ◌>>=◌, ◌>>◌, on_stream, gets,
  set_orders, call, int16, distance,
}

-- A value that is not there is a fault.
unfoldable pub lift : {A : Type 0} → Option A → S A
lift none w = none
lift (some a) w = some (a, w)

-- `opcode - 1` as a uint8.
abbrev pub rop2_less : ℕ → ℕ
rop2_less opcode = (opcode + 255) % 256

unfoldable pub process_polygon : ℕ → Bool → S (Unit {0})
process_polygon present delta = do
  old ← gets (λ w. w.orders.polygon)
  os ← on_stream (in_polygon present delta old)
  set_orders (λ o. record o { polygon = os })
  (if bad_rop2 os.opcode then pure tt else do
    points ← lift (delta_points 255 os.npoints os.octets os.datasize)
    elim points [
      | none ↦ pure tt
      | some ps ↦ call (
          ui_polygon (os.opcode - 1) os.fillmode (record { x = os.x; y = os.y } ∷ ps)
            (os.npoints + 1) none 0 os.fgcolour)
    ])

unfoldable pub process_polygon2 : ℕ → Bool → S (Unit {0})
process_polygon2 present delta = do
  old ← gets (λ w. w.orders.polygon2)
  os ← on_stream (in_polygon2 present delta old)
  set_orders (λ o. record o { polygon2 = os })
  (if bad_rop2 os.opcode then pure tt else do
    brush ← setup_brush os.brush
    points ← lift (delta_points 255 os.npoints os.octets os.datasize)
    elim points [
      | none ↦ pure tt
      | some ps ↦ call (
          ui_polygon (os.opcode - 1) os.fillmode (record { x = os.x; y = os.y } ∷ ps)
            (os.npoints + 1) (some brush) os.bgcolour os.fgcolour)
    ])

unfoldable pub process_polyline : ℕ → Bool → S (Unit {0})
process_polyline present delta = do
  old ← gets (λ w. w.orders.polyline)
  os ← on_stream (in_polyline present delta old)
  set_orders (λ o. record o { polyline = os })
  (if bad_rop2 os.opcode then pure tt else do
    points ← lift (delta_points os.lines os.lines os.octets os.datasize)
    elim points [
      | none ↦ pure tt
      | some ps ↦ call (
          ui_polyline (os.opcode - 1) (record { x = os.x; y = os.y } ∷ ps) (os.lines + 1)
            (record { style = 0; width = 0; colour = os.fgcolour }))
    ])

unfoldable pub process_ellipse : ℕ → Bool → S (Unit {0})
process_ellipse present delta = do
  old ← gets (λ w. w.orders.ellipse)
  os ← on_stream (in_ellipse present delta old)
  set_orders (λ o. record o { ellipse = os })
  call (
      ui_ellipse (rop2_less os.opcode) os.fillmode (int16 os.left) (int16 os.top)
        (distance os.left os.right) (distance os.top os.bottom) none 0 os.fgcolour)

unfoldable pub process_ellipse2 : ℕ → Bool → S (Unit {0})
process_ellipse2 present delta = do
  old ← gets (λ w. w.orders.ellipse2)
  os ← on_stream (in_ellipse2 present delta old)
  set_orders (λ o. record o { ellipse2 = os })
  brush ← setup_brush os.brush
  call (
      ui_ellipse (rop2_less os.opcode) os.fillmode (int16 os.left) (int16 os.top)
        (distance os.left os.right) (distance os.top os.bottom) (some brush) os.bgcolour
        os.fgcolour)

unfoldable pub process_text2 : ℕ → Bool → S (Unit {0})
process_text2 present delta = do
  old ← gets (λ w. w.orders.text2)
  os ← on_stream (in_text2 present delta old)
  set_orders (λ o. record o { text2 = os })
  brush ← setup_brush os.brush
  call (
      ui_draw_text os.font os.flags (rop2_less os.opcode) os.mixmode (int16 os.x) (int16 os.y)
        (int16 os.clipleft) (int16 os.cliptop) (distance os.clipleft os.clipright)
        (distance os.cliptop os.clipbottom) (int16 os.boxleft) (int16 os.boxtop)
        (distance os.boxleft os.boxright) (distance os.boxtop os.boxbottom) brush os.bgcolour
        os.fgcolour os.text os.len)
