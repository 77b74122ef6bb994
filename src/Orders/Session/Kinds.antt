-- ===== src/Orders/Session/Kinds.antt =====
-- The types of orders of source/orders.c that a session can have.
use rdesktopce_rdp.Prelude.{◌-◌, refl, [], ◌∷◌, ◌==◌, if◌then◌else◌}
use rdesktopce_rdp.Orders.{DestbltOrder, PatbltOrder, ScreenbltOrder, LineOrder, DesksaveOrder}
use rdesktopce_rdp.Orders.Screen.{
  Platform, ui_desktop_restore, ui_desktop_save, ui_destblt, ui_line, ui_patblt, ui_screenblt, pure,
  ◌>>=◌, call, int16, extent,
}
use rdesktopce_rdp.Orders.Store.{setup_brush}
use rdesktopce_rdp.Orders.Draw.{
  rop2_s, rop2_p, bad_rop2, process_destblt, process_patblt, process_screenblt, process_line,
  process_desksave,
}
use rdesktopce_rdp.Orders.Blt.{in_destblt, in_patblt, in_screenblt, in_line, in_desksave}
use rdesktopce_rdp.Orders.Coding.Blt.{
  destblt_octets, DestbltAgrees, in_destblt-Takes, patblt_octets, PatbltAgrees, in_patblt-Takes,
  screenblt_octets, ScreenbltAgrees, in_screenblt-Takes, line_octets, LineAgrees, in_line-Takes,
  desksave_octets, DesksaveAgrees, in_desksave-Takes,
}
use rdesktopce_rdp.Orders.Process.{handler}
use rdesktopce_rdp.Orders.Session.{Coded}
use rdesktopce_rdp.Orders.Session.Drawn.{drawing, brush_of, called, brushed, checked}

module _ (ui : Platform) where
  unfoldable pub destblt_coded : Coded ui
  unfolding handler process_destblt
  destblt_coded = record {
    Order = DestbltOrder;
    type = 0;
    process = process_destblt;
    handled = refl;
    get = λ o. o.destblt;
    put = λ os o. record o { destblt = os };
    octets = destblt_octets;
    Agrees = DestbltAgrees;
    drawn = λ brushes os.
        ui_destblt (rop2_s os.opcode) (int16 os.x) (int16 os.y) (int16 os.cx) (int16 os.cy) ∷ [];
    law = λ present delta new w a h.
        drawing (λ o. o.destblt) (λ os o. record o { destblt = os }) (in_destblt present delta)
          (λ os.
            call
              (ui_destblt (rop2_s os.opcode) (int16 os.x) (int16 os.y) (int16 os.cx) (int16 os.cy)))
          (λ brushes os.
            ui_destblt (rop2_s os.opcode) (int16 os.x) (int16 os.y) (int16 os.cx) (int16 os.cy)
            ∷ [])
          (λ os w. called _ w) (destblt_octets present delta w.orders.destblt new) new w
          (in_destblt-Takes present delta w.orders.destblt new a) h;
  }

  unfoldable pub patblt_coded : Coded ui
  unfolding handler process_patblt
  patblt_coded = record {
    Order = PatbltOrder;
    type = 1;
    process = process_patblt;
    handled = refl;
    get = λ o. o.patblt;
    put = λ os o. record o { patblt = os };
    octets = patblt_octets;
    Agrees = PatbltAgrees;
    drawn = λ brushes os.
        ui_patblt (rop2_p os.opcode) (int16 os.x) (int16 os.y) (int16 os.cx) (int16 os.cy)
          (brush_of brushes os.brush) os.bgcolour os.fgcolour
        ∷ [];
    law = λ present delta new w a h.
        drawing (λ o. o.patblt) (λ os o. record o { patblt = os }) (in_patblt present delta)
          (λ os. setup_brush os.brush >>= λ brush. call (
            ui_patblt (rop2_p os.opcode) (int16 os.x) (int16 os.y) (int16 os.cx) (int16 os.cy) brush
              os.bgcolour os.fgcolour))
          (λ brushes os.
            ui_patblt (rop2_p os.opcode) (int16 os.x) (int16 os.y) (int16 os.cx) (int16 os.cy)
              (brush_of brushes os.brush) os.bgcolour os.fgcolour
            ∷ [])
          (λ os w.
            brushed os.brush
              (λ brush.
                ui_patblt (rop2_p os.opcode) (int16 os.x) (int16 os.y) (int16 os.cx) (int16 os.cy)
                  brush os.bgcolour os.fgcolour)
              w)
          (patblt_octets present delta w.orders.patblt new) new w
          (in_patblt-Takes present delta w.orders.patblt new a) h;
  }

  unfoldable pub screenblt_coded : Coded ui
  unfolding handler process_screenblt
  screenblt_coded = record {
    Order = ScreenbltOrder;
    type = 2;
    process = process_screenblt;
    handled = refl;
    get = λ o. o.screenblt;
    put = λ os o. record o { screenblt = os };
    octets = screenblt_octets;
    Agrees = ScreenbltAgrees;
    drawn = λ brushes os.
        ui_screenblt (rop2_s os.opcode) (int16 os.x) (int16 os.y) (int16 os.cx) (int16 os.cy)
          (int16 os.srcx) (int16 os.srcy)
        ∷ [];
    law = λ present delta new w a h.
        drawing (λ o. o.screenblt) (λ os o. record o { screenblt = os })
          (in_screenblt present delta)
          (λ os. call (
            ui_screenblt (rop2_s os.opcode) (int16 os.x) (int16 os.y) (int16 os.cx) (int16 os.cy)
              (int16 os.srcx) (int16 os.srcy)))
          (λ brushes os.
            ui_screenblt (rop2_s os.opcode) (int16 os.x) (int16 os.y) (int16 os.cx) (int16 os.cy)
              (int16 os.srcx) (int16 os.srcy)
            ∷ [])
          (λ os w. called _ w) (screenblt_octets present delta w.orders.screenblt new) new w
          (in_screenblt-Takes present delta w.orders.screenblt new a) h;
  }

  unfoldable pub line_coded : Coded ui
  unfolding handler process_line
  line_coded = record {
    Order = LineOrder;
    type = 9;
    process = process_line;
    handled = refl;
    get = λ o. o.line;
    put = λ os o. record o { line = os };
    octets = line_octets;
    Agrees = LineAgrees;
    drawn = λ brushes os.
        if bad_rop2 os.opcode
        then []
        else ui_line (os.opcode - 1) (int16 os.startx) (int16 os.starty) (int16 os.endx)
            (int16 os.endy) os.pen
          ∷ [];
    law = λ present delta new w a h.
        drawing (λ o. o.line) (λ os o. record o { line = os }) (in_line present delta)
          (λ os.
            if bad_rop2 os.opcode
            then pure tt
            else call (
                ui_line (os.opcode - 1) (int16 os.startx) (int16 os.starty) (int16 os.endx)
                  (int16 os.endy) os.pen))
          (λ brushes os.
            if bad_rop2 os.opcode
            then []
            else ui_line (os.opcode - 1) (int16 os.startx) (int16 os.starty) (int16 os.endx)
                (int16 os.endy) os.pen
              ∷ [])
          (λ os w.
            checked os.opcode
              (ui_line (os.opcode - 1) (int16 os.startx) (int16 os.starty) (int16 os.endx)
                (int16 os.endy) os.pen)
              w)
          (line_octets present delta w.orders.line new) new w
          (in_line-Takes present delta w.orders.line new a) h;
  }

  unfoldable pub desksave_coded : Coded ui
  unfolding handler process_desksave
  desksave_coded = record {
    Order = DesksaveOrder;
    type = 11;
    process = process_desksave;
    handled = refl;
    get = λ o. o.desksave;
    put = λ os o. record o { desksave = os };
    octets = desksave_octets;
    Agrees = DesksaveAgrees;
    drawn = λ brushes os.
        (if os.action == 0 then ui_desktop_save else ui_desktop_restore) os.offset (int16 os.left)
          (int16 os.top) (extent os.left os.right) (extent os.top os.bottom)
        ∷ [];
    law = λ present delta new w a h.
        drawing (λ o. o.desksave) (λ os o. record o { desksave = os }) (in_desksave present delta)
          (λ os. call (
            (if os.action == 0 then ui_desktop_save else ui_desktop_restore) os.offset
              (int16 os.left) (int16 os.top) (extent os.left os.right) (extent os.top os.bottom)))
          (λ brushes os.
            (if os.action == 0 then ui_desktop_save else ui_desktop_restore) os.offset
              (int16 os.left) (int16 os.top) (extent os.left os.right) (extent os.top os.bottom)
            ∷ [])
          (λ os w. called _ w) (desksave_octets present delta w.orders.desksave new) new w
          (in_desksave-Takes present delta w.orders.desksave new a) h;
  }
