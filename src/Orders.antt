-- ===== src/Orders.antt =====
-- source/orders.h: what a primary order carries, and the state that the next one builds on. A signed
-- field is kept as the pattern of its bits.
pub mod Fields
pub mod Blt
pub mod Figures
pub mod Screen
pub mod Store
pub mod Points
pub mod Draw
pub mod Shape
pub mod Bmpcache
pub mod Caches
pub mod Process
pub mod Start
pub mod Keeps
pub mod Clip
pub mod Kept
pub mod Clipping
pub mod Rounds
pub mod Balance
pub mod Coding
pub mod Session
mod Tests
use rdesktopce_rdp.Prelude.{ℕ, Option, none, List, [], replicate}
use rdesktopce_rdp.Cache.Tables.{BrushData}

-- BOUNDS
pub record Bounds : Type 0 where
  pub left : ℕ
  pub top : ℕ
  pub right : ℕ
  pub bottom : ℕ

-- PEN
pub record Pen : Type 0 where
  pub style : ℕ
  pub width : ℕ
  pub colour : ℕ

-- BRUSH, with the eight octets of its pattern.
pub record Brush : Type 0 where
  pub xorigin : ℕ
  pub yorigin : ℕ
  pub style : ℕ
  pub pattern : List ℕ
  pub bd : Option BrushData

pub record DestbltOrder : Type 0 where
  pub x : ℕ
  pub y : ℕ
  pub cx : ℕ
  pub cy : ℕ
  pub opcode : ℕ

pub record PatbltOrder : Type 0 where
  pub x : ℕ
  pub y : ℕ
  pub cx : ℕ
  pub cy : ℕ
  pub opcode : ℕ
  pub bgcolour : ℕ
  pub fgcolour : ℕ
  pub brush : Brush

pub record ScreenbltOrder : Type 0 where
  pub x : ℕ
  pub y : ℕ
  pub cx : ℕ
  pub cy : ℕ
  pub opcode : ℕ
  pub srcx : ℕ
  pub srcy : ℕ

pub record LineOrder : Type 0 where
  pub mixmode : ℕ
  pub startx : ℕ
  pub starty : ℕ
  pub endx : ℕ
  pub endy : ℕ
  pub bgcolour : ℕ
  pub opcode : ℕ
  pub pen : Pen

pub record RectOrder : Type 0 where
  pub x : ℕ
  pub y : ℕ
  pub cx : ℕ
  pub cy : ℕ
  pub colour : ℕ

pub record DesksaveOrder : Type 0 where
  pub offset : ℕ
  pub left : ℕ
  pub top : ℕ
  pub right : ℕ
  pub bottom : ℕ
  pub action : ℕ

pub record MembltOrder : Type 0 where
  pub colour_table : ℕ
  pub cache_id : ℕ
  pub x : ℕ
  pub y : ℕ
  pub cx : ℕ
  pub cy : ℕ
  pub opcode : ℕ
  pub srcx : ℕ
  pub srcy : ℕ
  pub cache_idx : ℕ

pub record TribltOrder : Type 0 where
  pub colour_table : ℕ
  pub cache_id : ℕ
  pub x : ℕ
  pub y : ℕ
  pub cx : ℕ
  pub cy : ℕ
  pub opcode : ℕ
  pub srcx : ℕ
  pub srcy : ℕ
  pub bgcolour : ℕ
  pub fgcolour : ℕ
  pub brush : Brush
  pub cache_idx : ℕ
  pub unknown : ℕ

-- `octets` is the array `data`, of MAX_DATA octets, here and in the two orders below.
pub record PolygonOrder : Type 0 where
  pub x : ℕ
  pub y : ℕ
  pub opcode : ℕ
  pub fillmode : ℕ
  pub fgcolour : ℕ
  pub npoints : ℕ
  pub datasize : ℕ
  pub octets : List ℕ

pub record Polygon2Order : Type 0 where
  pub x : ℕ
  pub y : ℕ
  pub opcode : ℕ
  pub fillmode : ℕ
  pub bgcolour : ℕ
  pub fgcolour : ℕ
  pub brush : Brush
  pub npoints : ℕ
  pub datasize : ℕ
  pub octets : List ℕ

pub record PolylineOrder : Type 0 where
  pub x : ℕ
  pub y : ℕ
  pub opcode : ℕ
  pub fgcolour : ℕ
  pub lines : ℕ
  pub datasize : ℕ
  pub octets : List ℕ

pub record EllipseOrder : Type 0 where
  pub left : ℕ
  pub top : ℕ
  pub right : ℕ
  pub bottom : ℕ
  pub opcode : ℕ
  pub fillmode : ℕ
  pub fgcolour : ℕ

pub record Ellipse2Order : Type 0 where
  pub left : ℕ
  pub top : ℕ
  pub right : ℕ
  pub bottom : ℕ
  pub opcode : ℕ
  pub fillmode : ℕ
  pub brush : Brush
  pub bgcolour : ℕ
  pub fgcolour : ℕ

-- `text` has MAX_TEXT octets.
pub record Text2Order : Type 0 where
  pub font : ℕ
  pub flags : ℕ
  pub opcode : ℕ
  pub mixmode : ℕ
  pub bgcolour : ℕ
  pub fgcolour : ℕ
  pub clipleft : ℕ
  pub cliptop : ℕ
  pub clipright : ℕ
  pub clipbottom : ℕ
  pub boxleft : ℕ
  pub boxtop : ℕ
  pub boxright : ℕ
  pub boxbottom : ℕ
  pub brush : Brush
  pub x : ℕ
  pub y : ℕ
  pub len : ℕ
  pub text : List ℕ

-- RDP_ORDER_STATE
pub record OrderState : Type 0 where
  pub order_type : ℕ
  pub bounds : Bounds
  pub destblt : DestbltOrder
  pub patblt : PatbltOrder
  pub screenblt : ScreenbltOrder
  pub line : LineOrder
  pub rect : RectOrder
  pub desksave : DesksaveOrder
  pub memblt : MembltOrder
  pub triblt : TribltOrder
  pub polygon : PolygonOrder
  pub polygon2 : Polygon2Order
  pub polyline : PolylineOrder
  pub ellipse : EllipseOrder
  pub ellipse2 : Ellipse2Order
  pub text2 : Text2Order
