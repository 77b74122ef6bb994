-- ===== src/Orders/Figures.antt =====
-- source/orders.c: the fields of the orders for figures and text, as their process functions read them.
use rdesktopce_rdp.Prelude.{on, ℕ, ◌/◌, ◌^◌, Bool}
use rdesktopce_rdp.Stream.{M, pure, ◌>>=◌, in_uint8, in_uint16_le}
use rdesktopce_rdp.Orders.{
  PolygonOrder, Polygon2Order, PolylineOrder, EllipseOrder, Ellipse2Order, Text2Order,
}
use rdesktopce_rdp.Orders.Fields.{field, rdp_in_coord, rdp_in_colour, rdp_parse_brush, in_sized}

unfoldable pub in_polygon : ℕ → Bool → PolygonOrder → M PolygonOrder
in_polygon present delta os = do
  x ← field (on present 0x1) (rdp_in_coord delta os.x) os.x
  y ← field (on present 0x2) (rdp_in_coord delta os.y) os.y
  opcode ← field (on present 0x04) in_uint8 os.opcode
  fillmode ← field (on present 0x08) in_uint8 os.fillmode
  fgcolour ← field (on present 0x10) rdp_in_colour os.fgcolour
  npoints ← field (on present 0x20) in_uint8 os.npoints
  sized ← field (on present 0x40) (in_sized os.octets) (os.datasize, os.octets)
  pure (record {
    x = x;
    y = y;
    opcode = opcode;
    fillmode = fillmode;
    fgcolour = fgcolour;
    npoints = npoints;
    datasize = sized.0;
    octets = sized.1;
  })

unfoldable pub in_polygon2 : ℕ → Bool → Polygon2Order → M Polygon2Order
in_polygon2 present delta os = do
  x ← field (on present 0x1) (rdp_in_coord delta os.x) os.x
  y ← field (on present 0x2) (rdp_in_coord delta os.y) os.y
  opcode ← field (on present 0x04) in_uint8 os.opcode
  fillmode ← field (on present 0x08) in_uint8 os.fillmode
  bgcolour ← field (on present 0x10) rdp_in_colour os.bgcolour
  fgcolour ← field (on present 0x20) rdp_in_colour os.fgcolour
  brush ← rdp_parse_brush (present / 2 ^ 6) os.brush
  npoints ← field (on present 0x800) in_uint8 os.npoints
  sized ← field (on present 0x1000) (in_sized os.octets) (os.datasize, os.octets)
  pure (record {
    x = x;
    y = y;
    opcode = opcode;
    fillmode = fillmode;
    bgcolour = bgcolour;
    fgcolour = fgcolour;
    brush = brush;
    npoints = npoints;
    datasize = sized.0;
    octets = sized.1;
  })

unfoldable pub in_polyline : ℕ → Bool → PolylineOrder → M PolylineOrder
in_polyline present delta os = do
  x ← field (on present 0x1) (rdp_in_coord delta os.x) os.x
  y ← field (on present 0x2) (rdp_in_coord delta os.y) os.y
  opcode ← field (on present 0x04) in_uint8 os.opcode
  fgcolour ← field (on present 0x10) rdp_in_colour os.fgcolour
  lines ← field (on present 0x20) in_uint8 os.lines
  sized ← field (on present 0x40) (in_sized os.octets) (os.datasize, os.octets)
  pure (record {
    x = x;
    y = y;
    opcode = opcode;
    fgcolour = fgcolour;
    lines = lines;
    datasize = sized.0;
    octets = sized.1;
  })

unfoldable pub in_ellipse : ℕ → Bool → EllipseOrder → M EllipseOrder
in_ellipse present delta os = do
  left ← field (on present 0x1) (rdp_in_coord delta os.left) os.left
  top ← field (on present 0x2) (rdp_in_coord delta os.top) os.top
  right ← field (on present 0x4) (rdp_in_coord delta os.right) os.right
  bottom ← field (on present 0x8) (rdp_in_coord delta os.bottom) os.bottom
  opcode ← field (on present 0x10) in_uint8 os.opcode
  fillmode ← field (on present 0x20) in_uint8 os.fillmode
  fgcolour ← field (on present 0x40) rdp_in_colour os.fgcolour
  pure (record {
    left = left;
    top = top;
    right = right;
    bottom = bottom;
    opcode = opcode;
    fillmode = fillmode;
    fgcolour = fgcolour;
  })

unfoldable pub in_ellipse2 : ℕ → Bool → Ellipse2Order → M Ellipse2Order
in_ellipse2 present delta os = do
  left ← field (on present 0x1) (rdp_in_coord delta os.left) os.left
  top ← field (on present 0x2) (rdp_in_coord delta os.top) os.top
  right ← field (on present 0x4) (rdp_in_coord delta os.right) os.right
  bottom ← field (on present 0x8) (rdp_in_coord delta os.bottom) os.bottom
  opcode ← field (on present 0x10) in_uint8 os.opcode
  fillmode ← field (on present 0x20) in_uint8 os.fillmode
  bgcolour ← field (on present 0x40) rdp_in_colour os.bgcolour
  fgcolour ← field (on present 0x80) rdp_in_colour os.fgcolour
  brush ← rdp_parse_brush (present / 2 ^ 8) os.brush
  pure (record {
    left = left;
    top = top;
    right = right;
    bottom = bottom;
    opcode = opcode;
    fillmode = fillmode;
    bgcolour = bgcolour;
    fgcolour = fgcolour;
    brush = brush;
  })

unfoldable pub in_text2 : ℕ → Bool → Text2Order → M Text2Order
in_text2 present delta os = do
  font ← field (on present 0x01) in_uint8 os.font
  flags ← field (on present 0x02) in_uint8 os.flags
  opcode ← field (on present 0x04) in_uint8 os.opcode
  mixmode ← field (on present 0x08) in_uint8 os.mixmode
  fgcolour ← field (on present 0x10) rdp_in_colour os.fgcolour
  bgcolour ← field (on present 0x20) rdp_in_colour os.bgcolour
  clipleft ← field (on present 0x40) in_uint16_le os.clipleft
  cliptop ← field (on present 0x80) in_uint16_le os.cliptop
  clipright ← field (on present 0x100) in_uint16_le os.clipright
  clipbottom ← field (on present 0x200) in_uint16_le os.clipbottom
  boxleft ← field (on present 0x400) in_uint16_le os.boxleft
  boxtop ← field (on present 0x800) in_uint16_le os.boxtop
  boxright ← field (on present 0x1000) in_uint16_le os.boxright
  boxbottom ← field (on present 0x2000) in_uint16_le os.boxbottom
  brush ← rdp_parse_brush (present / 2 ^ 14) os.brush
  x ← field (on present 0x80000) in_uint16_le os.x
  y ← field (on present 0x100000) in_uint16_le os.y
  sized ← field (on present 0x200000) (in_sized os.text) (os.len, os.text)
  pure (record {
    font = font;
    flags = flags;
    opcode = opcode;
    mixmode = mixmode;
    fgcolour = fgcolour;
    bgcolour = bgcolour;
    clipleft = clipleft;
    cliptop = cliptop;
    clipright = clipright;
    clipbottom = clipbottom;
    boxleft = boxleft;
    boxtop = boxtop;
    boxright = boxright;
    boxbottom = boxbottom;
    brush = brush;
    x = x;
    y = y;
    len = sized.0;
    text = sized.1;
  })
