-- ===== src/Orders/Draw.antt =====
-- source/orders.c: the process functions of the primary orders that copy and fill.
use rdesktopce_rdp.Prelude.{
  ℕ, ◌+◌, ◌-◌, ◌*◌, ◌/◌, ◌%◌, Bool, ◌||◌, none, some, ltb, ◌==◌, if◌then◌else◌,
}
use rdesktopce_rdp.Orders.Blt.{
  in_destblt, in_patblt, in_screenblt, in_line, in_rect, in_desksave, in_memblt, in_triblt,
}
use rdesktopce_rdp.Orders.Store.{get_bitmap, setup_brush}
use rdesktopce_rdp.Orders.Screen.{
  Platform, ui_destblt, ui_patblt, ui_screenblt, ui_memblt, ui_triblt, ui_line, ui_rect,
  ui_desktop_save, ui_desktop_restore, S, pure, ◌>>=◌, ◌>>◌, on_stream, gets, set_orders, call,
  int16, extent,
}

abbrev pub rop2_s : ℕ → ℕ
rop2_s rop3 = rop3 % 16

-- ROP2_P: `(rop3 & 0x3) | ((rop3 & 0x30) >> 2)`
abbrev pub rop2_p : ℕ → ℕ
rop2_p rop3 = rop3 % 4 + rop3 / 16 % 4 * 4

-- `opcode < 0x01 || opcode > 0x10`
abbrev pub bad_rop2 : ℕ → Bool
bad_rop2 opcode = ltb opcode 0x01 || ltb 0x10 opcode

unfoldable pub process_destblt : ℕ → Bool → S (Unit {0})
process_destblt present delta = do
  old ← gets (λ w. w.orders.destblt)
  os ← on_stream (in_destblt present delta old)
  set_orders (λ o. record o { destblt = os })
  call (ui_destblt (rop2_s os.opcode) (int16 os.x) (int16 os.y) (int16 os.cx) (int16 os.cy))

unfoldable pub process_patblt : ℕ → Bool → S (Unit {0})
process_patblt present delta = do
  old ← gets (λ w. w.orders.patblt)
  os ← on_stream (in_patblt present delta old)
  set_orders (λ o. record o { patblt = os })
  brush ← setup_brush os.brush
  call (
      ui_patblt (rop2_p os.opcode) (int16 os.x) (int16 os.y) (int16 os.cx) (int16 os.cy) brush
        os.bgcolour os.fgcolour)

unfoldable pub process_screenblt : ℕ → Bool → S (Unit {0})
process_screenblt present delta = do
  old ← gets (λ w. w.orders.screenblt)
  os ← on_stream (in_screenblt present delta old)
  set_orders (λ o. record o { screenblt = os })
  call (
      ui_screenblt (rop2_s os.opcode) (int16 os.x) (int16 os.y) (int16 os.cx) (int16 os.cy)
        (int16 os.srcx) (int16 os.srcy))

unfoldable pub process_line : ℕ → Bool → S (Unit {0})
process_line present delta = do
  old ← gets (λ w. w.orders.line)
  os ← on_stream (in_line present delta old)
  set_orders (λ o. record o { line = os })
  (if bad_rop2 os.opcode
      then pure tt
      else call (
          ui_line (os.opcode - 1) (int16 os.startx) (int16 os.starty) (int16 os.endx)
            (int16 os.endy) os.pen))

unfoldable pub process_rect : ℕ → Bool → S (Unit {0})
process_rect present delta = do
  old ← gets (λ w. w.orders.rect)
  os ← on_stream (in_rect present delta old)
  set_orders (λ o. record o { rect = os })
  call (ui_rect (int16 os.x) (int16 os.y) (int16 os.cx) (int16 os.cy) os.colour)

unfoldable pub process_desksave : ℕ → Bool → S (Unit {0})
process_desksave present delta = do
  old ← gets (λ w. w.orders.desksave)
  os ← on_stream (in_desksave present delta old)
  set_orders (λ o. record o { desksave = os })
  call (
      (if os.action == 0 then ui_desktop_save else ui_desktop_restore) os.offset (int16 os.left)
        (int16 os.top) (extent os.left os.right) (extent os.top os.bottom))

unfoldable pub process_memblt : Platform → ℕ → Bool → S (Unit {0})
process_memblt ui present delta = do
  old ← gets (λ w. w.orders.memblt)
  os ← on_stream (in_memblt present delta old)
  set_orders (λ o. record o { memblt = os })
  bitmap ← get_bitmap ui os.cache_id os.cache_idx
  elim bitmap [
    | none ↦ pure tt
    | some src ↦ call (
        ui_memblt (rop2_s os.opcode) (int16 os.x) (int16 os.y) (int16 os.cx) (int16 os.cy) src
          (int16 os.srcx) (int16 os.srcy))
  ]

unfoldable pub process_triblt : Platform → ℕ → Bool → S (Unit {0})
process_triblt ui present delta = do
  old ← gets (λ w. w.orders.triblt)
  os ← on_stream (in_triblt present delta old)
  set_orders (λ o. record o { triblt = os })
  bitmap ← get_bitmap ui os.cache_id os.cache_idx
  elim bitmap [
    | none ↦ pure tt
    | some src ↦ do
      brush ← setup_brush os.brush
      call (
          ui_triblt os.opcode (int16 os.x) (int16 os.y) (int16 os.cx) (int16 os.cy) src
            (int16 os.srcx) (int16 os.srcy) brush os.bgcolour os.fgcolour)
  ]
