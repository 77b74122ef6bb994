-- ===== src/Orders/Start.antt =====
-- source/orders.c: the state of the orders at the start of a session.
use rdesktopce_rdp.Prelude.{none, replicate}
use rdesktopce_rdp.Orders.{Bounds, Pen, Brush, OrderState}
use rdesktopce_rdp.Orders.Screen.{S, set_orders}

abbrev no_bounds : Bounds
no_bounds = record { left = 0; top = 0; right = 0; bottom = 0 }

abbrev no_pen : Pen
no_pen = record { style = 0; width = 0; colour = 0 }

abbrev no_brush : Brush
no_brush = record { xorigin = 0; yorigin = 0; style = 0; pattern = replicate 8 0; bd = none }

-- `memset(&g_order_state, 0, ...)`, and RDP_ORDER_PATBLT.
abbrev pub fresh_state : OrderState
fresh_state = record {
  order_type = 1;
  bounds = no_bounds;
  destblt = record { x = 0; y = 0; cx = 0; cy = 0; opcode = 0 };
  patblt = record {
    x = 0;
    y = 0;
    cx = 0;
    cy = 0;
    opcode = 0;
    bgcolour = 0;
    fgcolour = 0;
    brush = no_brush;
  };
  screenblt = record { x = 0; y = 0; cx = 0; cy = 0; opcode = 0; srcx = 0; srcy = 0 };
  line = record {
    mixmode = 0;
    startx = 0;
    starty = 0;
    endx = 0;
    endy = 0;
    bgcolour = 0;
    opcode = 0;
    pen = no_pen;
  };
  rect = record { x = 0; y = 0; cx = 0; cy = 0; colour = 0 };
  desksave = record { offset = 0; left = 0; top = 0; right = 0; bottom = 0; action = 0 };
  memblt = record {
    colour_table = 0;
    cache_id = 0;
    x = 0;
    y = 0;
    cx = 0;
    cy = 0;
    opcode = 0;
    srcx = 0;
    srcy = 0;
    cache_idx = 0;
  };
  triblt = record {
    colour_table = 0;
    cache_id = 0;
    x = 0;
    y = 0;
    cx = 0;
    cy = 0;
    opcode = 0;
    srcx = 0;
    srcy = 0;
    bgcolour = 0;
    fgcolour = 0;
    brush = no_brush;
    cache_idx = 0;
    unknown = 0;
  };
  polygon = record {
    x = 0;
    y = 0;
    opcode = 0;
    fillmode = 0;
    fgcolour = 0;
    npoints = 0;
    datasize = 0;
    octets = replicate 256 0;
  };
  polygon2 = record {
    x = 0;
    y = 0;
    opcode = 0;
    fillmode = 0;
    bgcolour = 0;
    fgcolour = 0;
    brush = no_brush;
    npoints = 0;
    datasize = 0;
    octets = replicate 256 0;
  };
  polyline = record {
    x = 0;
    y = 0;
    opcode = 0;
    fgcolour = 0;
    lines = 0;
    datasize = 0;
    octets = replicate 256 0;
  };
  ellipse = record {
    left = 0;
    top = 0;
    right = 0;
    bottom = 0;
    opcode = 0;
    fillmode = 0;
    fgcolour = 0;
  };
  ellipse2 = record {
    left = 0;
    top = 0;
    right = 0;
    bottom = 0;
    opcode = 0;
    fillmode = 0;
    brush = no_brush;
    bgcolour = 0;
    fgcolour = 0;
  };
  text2 = record {
    font = 0;
    flags = 0;
    opcode = 0;
    mixmode = 0;
    bgcolour = 0;
    fgcolour = 0;
    clipleft = 0;
    cliptop = 0;
    clipright = 0;
    clipbottom = 0;
    boxleft = 0;
    boxtop = 0;
    boxright = 0;
    boxbottom = 0;
    brush = no_brush;
    x = 0;
    y = 0;
    len = 0;
    text = replicate 256 0;
  };
}

unfoldable pub reset_order_state : S (Unit {0})
reset_order_state = set_orders (λ _. fresh_state)
