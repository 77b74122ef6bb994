-- ===== src/Orders/Session/Shapes.antt =====
-- The codings of the orders for ellipses and text, which process_orders reads and draws.
use rdesktopce_rdp.Prelude.{refl, none, some, [], ◌∷◌}
use rdesktopce_rdp.Orders.{EllipseOrder, Ellipse2Order, Text2Order}
use rdesktopce_rdp.Orders.Screen.{Platform, ui_draw_text, ui_ellipse, ◌>>=◌, call, int16, distance}
use rdesktopce_rdp.Orders.Store.{setup_brush}
use rdesktopce_rdp.Orders.Shape.{rop2_less, process_ellipse, process_ellipse2, process_text2}
use rdesktopce_rdp.Orders.Figures.{in_ellipse, in_ellipse2, in_text2}
use rdesktopce_rdp.Orders.Coding.Figures.{
  ellipse_octets, EllipseAgrees, in_ellipse-Takes, ellipse2_octets, Ellipse2Agrees,
  in_ellipse2-Takes, text2_octets, Text2Agrees, in_text2-Takes,
}
use rdesktopce_rdp.Orders.Process.{handler}
use rdesktopce_rdp.Orders.Session.{Coded}
use rdesktopce_rdp.Orders.Session.Drawn.{drawing, brush_of, called, brushed}

module _ (ui : Platform) where
  unfoldable pub ellipse_coded : Coded ui
  unfolding handler process_ellipse
  ellipse_coded = record {
    Order = EllipseOrder;
    type = 25;
    process = process_ellipse;
    handled = refl;
    get = λ o. o.ellipse;
    put = λ os o. record o { ellipse = os };
    octets = ellipse_octets;
    Agrees = EllipseAgrees;
    drawn = λ brushes os.
        ui_ellipse (rop2_less os.opcode) os.fillmode (int16 os.left) (int16 os.top)
          (distance os.left os.right) (distance os.top os.bottom) none 0 os.fgcolour
        ∷ [];
    law = λ present delta new w a h.
        drawing (λ o. o.ellipse) (λ os o. record o { ellipse = os }) (in_ellipse present delta)
          (λ os. call (
            ui_ellipse (rop2_less os.opcode) os.fillmode (int16 os.left) (int16 os.top)
              (distance os.left os.right) (distance os.top os.bottom) none 0 os.fgcolour))
          (λ brushes os.
            ui_ellipse (rop2_less os.opcode) os.fillmode (int16 os.left) (int16 os.top)
              (distance os.left os.right) (distance os.top os.bottom) none 0 os.fgcolour
            ∷ [])
          (λ os w. called _ w) (ellipse_octets present delta w.orders.ellipse new) new w
          (in_ellipse-Takes present delta w.orders.ellipse new a) h;
  }

  unfoldable pub ellipse2_coded : Coded ui
  unfolding handler process_ellipse2
  ellipse2_coded = record {
    Order = Ellipse2Order;
    type = 26;
    process = process_ellipse2;
    handled = refl;
    get = λ o. o.ellipse2;
    put = λ os o. record o { ellipse2 = os };
    octets = ellipse2_octets;
    Agrees = Ellipse2Agrees;
    drawn = λ brushes os.
        ui_ellipse (rop2_less os.opcode) os.fillmode (int16 os.left) (int16 os.top)
          (distance os.left os.right) (distance os.top os.bottom) (some (brush_of brushes os.brush))
          os.bgcolour os.fgcolour
        ∷ [];
    law = λ present delta new w a h.
        drawing (λ o. o.ellipse2) (λ os o. record o { ellipse2 = os }) (in_ellipse2 present delta)
          (λ os. setup_brush os.brush >>= λ brush. call (
            ui_ellipse (rop2_less os.opcode) os.fillmode (int16 os.left) (int16 os.top)
              (distance os.left os.right) (distance os.top os.bottom) (some brush) os.bgcolour
              os.fgcolour))
          (λ brushes os.
            ui_ellipse (rop2_less os.opcode) os.fillmode (int16 os.left) (int16 os.top)
              (distance os.left os.right) (distance os.top os.bottom)
              (some (brush_of brushes os.brush)) os.bgcolour os.fgcolour
            ∷ [])
          (λ os w.
            brushed os.brush
              (λ brush.
                ui_ellipse (rop2_less os.opcode) os.fillmode (int16 os.left) (int16 os.top)
                  (distance os.left os.right) (distance os.top os.bottom) (some brush) os.bgcolour
                  os.fgcolour)
              w)
          (ellipse2_octets present delta w.orders.ellipse2 new) new w
          (in_ellipse2-Takes present delta w.orders.ellipse2 new a) h;
  }

  unfoldable pub text2_coded : Coded ui
  unfolding handler process_text2
  text2_coded = record {
    Order = Text2Order;
    type = 27;
    process = process_text2;
    handled = refl;
    get = λ o. o.text2;
    put = λ os o. record o { text2 = os };
    octets = text2_octets;
    Agrees = Text2Agrees;
    drawn = λ brushes os.
        ui_draw_text os.font os.flags (rop2_less os.opcode) os.mixmode (int16 os.x) (int16 os.y)
          (int16 os.clipleft) (int16 os.cliptop) (distance os.clipleft os.clipright)
          (distance os.cliptop os.clipbottom) (int16 os.boxleft) (int16 os.boxtop)
          (distance os.boxleft os.boxright) (distance os.boxtop os.boxbottom)
          (brush_of brushes os.brush) os.bgcolour os.fgcolour os.text os.len
        ∷ [];
    law = λ present delta new w a h.
        drawing (λ o. o.text2) (λ os o. record o { text2 = os }) (in_text2 present delta)
          (λ os. setup_brush os.brush >>= λ brush. call (
            ui_draw_text os.font os.flags (rop2_less os.opcode) os.mixmode (int16 os.x) (int16 os.y)
              (int16 os.clipleft) (int16 os.cliptop) (distance os.clipleft os.clipright)
              (distance os.cliptop os.clipbottom) (int16 os.boxleft) (int16 os.boxtop)
              (distance os.boxleft os.boxright) (distance os.boxtop os.boxbottom) brush os.bgcolour
              os.fgcolour os.text os.len))
          (λ brushes os.
            ui_draw_text os.font os.flags (rop2_less os.opcode) os.mixmode (int16 os.x) (int16 os.y)
              (int16 os.clipleft) (int16 os.cliptop) (distance os.clipleft os.clipright)
              (distance os.cliptop os.clipbottom) (int16 os.boxleft) (int16 os.boxtop)
              (distance os.boxleft os.boxright) (distance os.boxtop os.boxbottom)
              (brush_of brushes os.brush) os.bgcolour os.fgcolour os.text os.len
            ∷ [])
          (λ os w.
            brushed os.brush
              (λ brush.
                ui_draw_text os.font os.flags (rop2_less os.opcode) os.mixmode (int16 os.x)
                  (int16 os.y) (int16 os.clipleft) (int16 os.cliptop)
                  (distance os.clipleft os.clipright) (distance os.cliptop os.clipbottom)
                  (int16 os.boxleft) (int16 os.boxtop) (distance os.boxleft os.boxright)
                  (distance os.boxtop os.boxbottom) brush os.bgcolour os.fgcolour os.text os.len)
              w)
          (text2_octets present delta w.orders.text2 new) new w
          (in_text2-Takes present delta w.orders.text2 new a) h;
  }
