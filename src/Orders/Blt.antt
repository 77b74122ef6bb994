-- ===== src/Orders/Blt.antt =====
-- source/orders.c: the fields of the orders that copy and fill, as their process functions read them.
use rdesktopce_rdp.Prelude.{on, ℕ, ◌+◌, ◌*◌, ◌/◌, ◌%◌, ◌^◌, Bool}
use rdesktopce_rdp.Stream.{M, pure, ◌>>=◌, in_uint8, in_uint16_le, in_uint32_le}
use rdesktopce_rdp.Orders.{
  DestbltOrder, PatbltOrder, ScreenbltOrder, LineOrder, DesksaveOrder, MembltOrder, TribltOrder,
  RectOrder,
}
use rdesktopce_rdp.Orders.Fields.{
  field, rdp_in_coord, rdp_in_colour, rdp_parse_pen, rdp_parse_brush,
}

unfoldable pub in_destblt : ℕ → Bool → DestbltOrder → M DestbltOrder
in_destblt present delta os = do
  x ← field (on present 0x1) (rdp_in_coord delta os.x) os.x
  y ← field (on present 0x2) (rdp_in_coord delta os.y) os.y
  cx ← field (on present 0x4) (rdp_in_coord delta os.cx) os.cx
  cy ← field (on present 0x8) (rdp_in_coord delta os.cy) os.cy
  opcode ← field (on present 0x10) in_uint8 os.opcode
  pure (record { x = x; y = y; cx = cx; cy = cy; opcode = opcode })

unfoldable pub in_patblt : ℕ → Bool → PatbltOrder → M PatbltOrder
in_patblt present delta os = do
  x ← field (on present 0x1) (rdp_in_coord delta os.x) os.x
  y ← field (on present 0x2) (rdp_in_coord delta os.y) os.y
  cx ← field (on present 0x4) (rdp_in_coord delta os.cx) os.cx
  cy ← field (on present 0x8) (rdp_in_coord delta os.cy) os.cy
  opcode ← field (on present 0x10) in_uint8 os.opcode
  bgcolour ← field (on present 0x20) rdp_in_colour os.bgcolour
  fgcolour ← field (on present 0x40) rdp_in_colour os.fgcolour
  brush ← rdp_parse_brush (present / 2 ^ 7) os.brush
  pure (record {
    x = x;
    y = y;
    cx = cx;
    cy = cy;
    opcode = opcode;
    bgcolour = bgcolour;
    fgcolour = fgcolour;
    brush = brush;
  })

unfoldable pub in_screenblt : ℕ → Bool → ScreenbltOrder → M ScreenbltOrder
in_screenblt present delta os = do
  x ← field (on present 0x1) (rdp_in_coord delta os.x) os.x
  y ← field (on present 0x2) (rdp_in_coord delta os.y) os.y
  cx ← field (on present 0x4) (rdp_in_coord delta os.cx) os.cx
  cy ← field (on present 0x8) (rdp_in_coord delta os.cy) os.cy
  opcode ← field (on present 0x10) in_uint8 os.opcode
  srcx ← field (on present 0x20) (rdp_in_coord delta os.srcx) os.srcx
  srcy ← field (on present 0x40) (rdp_in_coord delta os.srcy) os.srcy
  pure (record { x = x; y = y; cx = cx; cy = cy; opcode = opcode; srcx = srcx; srcy = srcy })

unfoldable pub in_line : ℕ → Bool → LineOrder → M LineOrder
in_line present delta os = do
  mixmode ← field (on present 0x01) in_uint16_le os.mixmode
  startx ← field (on present 0x2) (rdp_in_coord delta os.startx) os.startx
  starty ← field (on present 0x4) (rdp_in_coord delta os.starty) os.starty
  endx ← field (on present 0x8) (rdp_in_coord delta os.endx) os.endx
  endy ← field (on present 0x10) (rdp_in_coord delta os.endy) os.endy
  bgcolour ← field (on present 0x20) rdp_in_colour os.bgcolour
  opcode ← field (on present 0x40) in_uint8 os.opcode
  pen ← rdp_parse_pen (present / 2 ^ 7) os.pen
  pure (record {
    mixmode = mixmode;
    startx = startx;
    starty = starty;
    endx = endx;
    endy = endy;
    bgcolour = bgcolour;
    opcode = opcode;
    pen = pen;
  })

unfoldable pub in_desksave : ℕ → Bool → DesksaveOrder → M DesksaveOrder
in_desksave present delta os = do
  offset ← field (on present 0x01) in_uint32_le os.offset
  left ← field (on present 0x2) (rdp_in_coord delta os.left) os.left
  top ← field (on present 0x4) (rdp_in_coord delta os.top) os.top
  right ← field (on present 0x8) (rdp_in_coord delta os.right) os.right
  bottom ← field (on present 0x10) (rdp_in_coord delta os.bottom) os.bottom
  action ← field (on present 0x20) in_uint8 os.action
  pure (record {
    offset = offset;
    left = left;
    top = top;
    right = right;
    bottom = bottom;
    action = action;
  })

unfoldable pub in_memblt : ℕ → Bool → MembltOrder → M MembltOrder
in_memblt present delta os = do
  cache_id ← field (on present 0x01) in_uint8 os.cache_id
  colour_table ← field (on present 0x01) in_uint8 os.colour_table
  x ← field (on present 0x2) (rdp_in_coord delta os.x) os.x
  y ← field (on present 0x4) (rdp_in_coord delta os.y) os.y
  cx ← field (on present 0x8) (rdp_in_coord delta os.cx) os.cx
  cy ← field (on present 0x10) (rdp_in_coord delta os.cy) os.cy
  opcode ← field (on present 0x20) in_uint8 os.opcode
  srcx ← field (on present 0x40) (rdp_in_coord delta os.srcx) os.srcx
  srcy ← field (on present 0x80) (rdp_in_coord delta os.srcy) os.srcy
  cache_idx ← field (on present 0x100) in_uint16_le os.cache_idx
  pure (record {
    cache_id = cache_id;
    colour_table = colour_table;
    x = x;
    y = y;
    cx = cx;
    cy = cy;
    opcode = opcode;
    srcx = srcx;
    srcy = srcy;
    cache_idx = cache_idx;
  })

unfoldable pub in_triblt : ℕ → Bool → TribltOrder → M TribltOrder
in_triblt present delta os = do
  cache_id ← field (on present 0x01) in_uint8 os.cache_id
  colour_table ← field (on present 0x01) in_uint8 os.colour_table
  x ← field (on present 0x2) (rdp_in_coord delta os.x) os.x
  y ← field (on present 0x4) (rdp_in_coord delta os.y) os.y
  cx ← field (on present 0x8) (rdp_in_coord delta os.cx) os.cx
  cy ← field (on present 0x10) (rdp_in_coord delta os.cy) os.cy
  opcode ← field (on present 0x20) in_uint8 os.opcode
  srcx ← field (on present 0x40) (rdp_in_coord delta os.srcx) os.srcx
  srcy ← field (on present 0x80) (rdp_in_coord delta os.srcy) os.srcy
  bgcolour ← field (on present 0x100) rdp_in_colour os.bgcolour
  fgcolour ← field (on present 0x200) rdp_in_colour os.fgcolour
  brush ← rdp_parse_brush (present / 2 ^ 10) os.brush
  cache_idx ← field (on present 0x8000) in_uint16_le os.cache_idx
  unknown ← field (on present 0x10000) in_uint16_le os.unknown
  pure (record {
    cache_id = cache_id;
    colour_table = colour_table;
    x = x;
    y = y;
    cx = cx;
    cy = cy;
    opcode = opcode;
    srcx = srcx;
    srcy = srcy;
    bgcolour = bgcolour;
    fgcolour = fgcolour;
    brush = brush;
    cache_idx = cache_idx;
    unknown = unknown;
  })

-- `os->colour = (os->colour & ~0xff << shift) | i << shift`, where `weight` is `2 ^ shift`.
abbrev pub set_octet : ℕ → ℕ → ℕ → ℕ
set_octet weight i colour = colour / (weight * 256) * (weight * 256) + i * weight + colour % weight

unfoldable pub in_rect : ℕ → Bool → RectOrder → M RectOrder
in_rect present delta os = do
  x ← field (on present 0x01) (rdp_in_coord delta os.x) os.x
  y ← field (on present 0x02) (rdp_in_coord delta os.y) os.y
  cx ← field (on present 0x04) (rdp_in_coord delta os.cx) os.cx
  cy ← field (on present 0x08) (rdp_in_coord delta os.cy) os.cy
  low ← field (on present 0x10) (do i ← in_uint8; pure (set_octet 1 i os.colour)) os.colour
  mid ← field (on present 0x20) (do i ← in_uint8; pure (set_octet (2 ^ 8) i low)) low
  high ← field (on present 0x40) (do i ← in_uint8; pure (set_octet (2 ^ 16) i mid)) mid
  pure (record { x = x; y = y; cx = cx; cy = cy; colour = high })
