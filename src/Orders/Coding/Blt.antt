-- ===== src/Orders/Coding/Blt.antt =====
-- The octets of the orders of source/orders.c that copy and fill, as a server writes them.
use rdesktopce_rdp.Prelude.{on, ℕ, ◌/◌, ◌^◌, Bool, List, [], ◌∷◌, ◌++◌}
use rdesktopce_rdp.Orders.{DestbltOrder, PatbltOrder, ScreenbltOrder, LineOrder, DesksaveOrder}
use rdesktopce_rdp.Orders.Blt.{in_destblt, in_patblt, in_screenblt, in_line, in_desksave}
use rdesktopce_rdp.Orders.Coding.{
  Takes, no_more, followed, octet, word, word_octets, dword, dword_octets, colour, colour_octets,
  coord, coord_octets, Near, shown, Shown, optional,
}
use rdesktopce_rdp.Orders.Coding.Parts.{
  PenAgrees, pen_octets, rdp_parse_pen-Takes, BrushAgrees, brush_octets, rdp_parse_brush-Takes,
}

abbrev pub destblt_octets : ℕ → Bool → DestbltOrder → DestbltOrder → List ℕ
destblt_octets present delta old new =
    shown (on present 0x1) (coord_octets delta old.x new.x)
    ++ (shown (on present 0x2) (coord_octets delta old.y new.y)
        ++ (shown (on present 0x4) (coord_octets delta old.cx new.cx)
            ++ (shown (on present 0x8) (coord_octets delta old.cy new.cy)
                ++ (shown (on present 0x10) (new.opcode ∷ []) ++ []))))

abbrev pub DestbltAgrees : ℕ → Bool → DestbltOrder → DestbltOrder → Type 0
DestbltAgrees present delta old new =
    (Shown (on present 0x1) (Near delta old.x new.x) old.x new.x)
    × (Shown (on present 0x2) (Near delta old.y new.y) old.y new.y)
    × (Shown (on present 0x4) (Near delta old.cx new.cx) old.cx new.cx)
    × (Shown (on present 0x8) (Near delta old.cy new.cy) old.cy new.cy)
    × (Shown (on present 0x10) (Unit {0}) old.opcode new.opcode)

pub in_destblt-Takes :
    (present : ℕ) (delta : Bool) (old new : DestbltOrder)
    → DestbltAgrees present delta old new
    → Takes (in_destblt present delta old) (destblt_octets present delta old new) new
unfolding in_destblt
in_destblt-Takes present delta old new (h0, h1, h2, h3, h4) =
    followed _
      (optional (on present 0x1) (Near delta old.x new.x) old.x new.x (coord delta old.x new.x) h0)
      (followed _
        (optional (on present 0x2) (Near delta old.y new.y) old.y new.y (coord delta old.y new.y)
          h1)
        (followed _
          (optional (on present 0x4) (Near delta old.cx new.cx) old.cx new.cx
            (coord delta old.cx new.cx) h2)
          (followed _
            (optional (on present 0x8) (Near delta old.cy new.cy) old.cy new.cy
              (coord delta old.cy new.cy) h3)
            (followed _
              (optional (on present 0x10) (Unit {0}) old.opcode new.opcode (λ _. octet new.opcode)
                h4)
              (no_more new)))))

abbrev pub patblt_octets : ℕ → Bool → PatbltOrder → PatbltOrder → List ℕ
patblt_octets present delta old new =
    shown (on present 0x1) (coord_octets delta old.x new.x)
    ++ (shown (on present 0x2) (coord_octets delta old.y new.y)
        ++ (shown (on present 0x4) (coord_octets delta old.cx new.cx)
            ++ (shown (on present 0x8) (coord_octets delta old.cy new.cy)
                ++ (shown (on present 0x10) (new.opcode ∷ [])
                    ++ (shown (on present 0x20) (colour_octets new.bgcolour)
                        ++ (shown (on present 0x40) (colour_octets new.fgcolour)
                            ++ (brush_octets (present / 2 ^ 7) new.brush ++ [])))))))

abbrev pub PatbltAgrees : ℕ → Bool → PatbltOrder → PatbltOrder → Type 0
PatbltAgrees present delta old new =
    (Shown (on present 0x1) (Near delta old.x new.x) old.x new.x)
    × (Shown (on present 0x2) (Near delta old.y new.y) old.y new.y)
    × (Shown (on present 0x4) (Near delta old.cx new.cx) old.cx new.cx)
    × (Shown (on present 0x8) (Near delta old.cy new.cy) old.cy new.cy)
    × (Shown (on present 0x10) (Unit {0}) old.opcode new.opcode)
    × (Shown (on present 0x20) (Unit {0}) old.bgcolour new.bgcolour)
    × (Shown (on present 0x40) (Unit {0}) old.fgcolour new.fgcolour)
    × (BrushAgrees (present / 2 ^ 7) old.brush new.brush)

pub in_patblt-Takes :
    (present : ℕ) (delta : Bool) (old new : PatbltOrder)
    → PatbltAgrees present delta old new
    → Takes (in_patblt present delta old) (patblt_octets present delta old new) new
unfolding in_patblt
in_patblt-Takes present delta old new (h0, h1, h2, h3, h4, h5, h6, h7) =
    followed _
      (optional (on present 0x1) (Near delta old.x new.x) old.x new.x (coord delta old.x new.x) h0)
      (followed _
        (optional (on present 0x2) (Near delta old.y new.y) old.y new.y (coord delta old.y new.y)
          h1)
        (followed _
          (optional (on present 0x4) (Near delta old.cx new.cx) old.cx new.cx
            (coord delta old.cx new.cx) h2)
          (followed _
            (optional (on present 0x8) (Near delta old.cy new.cy) old.cy new.cy
              (coord delta old.cy new.cy) h3)
            (followed _
              (optional (on present 0x10) (Unit {0}) old.opcode new.opcode (λ _. octet new.opcode)
                h4)
              (followed _
                (optional (on present 0x20) (Unit {0}) old.bgcolour new.bgcolour
                  (λ _. colour new.bgcolour) h5)
                (followed _
                  (optional (on present 0x40) (Unit {0}) old.fgcolour new.fgcolour
                    (λ _. colour new.fgcolour) h6)
                  (followed _ (rdp_parse_brush-Takes (present / 2 ^ 7) old.brush new.brush h7)
                    (no_more new))))))))

abbrev pub screenblt_octets : ℕ → Bool → ScreenbltOrder → ScreenbltOrder → List ℕ
screenblt_octets present delta old new =
    shown (on present 0x1) (coord_octets delta old.x new.x)
    ++ (shown (on present 0x2) (coord_octets delta old.y new.y)
        ++ (shown (on present 0x4) (coord_octets delta old.cx new.cx)
            ++ (shown (on present 0x8) (coord_octets delta old.cy new.cy)
                ++ (shown (on present 0x10) (new.opcode ∷ [])
                    ++ (shown (on present 0x20) (coord_octets delta old.srcx new.srcx)
                        ++ (shown (on present 0x40) (coord_octets delta old.srcy new.srcy)
                            ++ []))))))

abbrev pub ScreenbltAgrees : ℕ → Bool → ScreenbltOrder → ScreenbltOrder → Type 0
ScreenbltAgrees present delta old new =
    (Shown (on present 0x1) (Near delta old.x new.x) old.x new.x)
    × (Shown (on present 0x2) (Near delta old.y new.y) old.y new.y)
    × (Shown (on present 0x4) (Near delta old.cx new.cx) old.cx new.cx)
    × (Shown (on present 0x8) (Near delta old.cy new.cy) old.cy new.cy)
    × (Shown (on present 0x10) (Unit {0}) old.opcode new.opcode)
    × (Shown (on present 0x20) (Near delta old.srcx new.srcx) old.srcx new.srcx)
    × (Shown (on present 0x40) (Near delta old.srcy new.srcy) old.srcy new.srcy)

pub in_screenblt-Takes :
    (present : ℕ) (delta : Bool) (old new : ScreenbltOrder)
    → ScreenbltAgrees present delta old new
    → Takes (in_screenblt present delta old) (screenblt_octets present delta old new) new
unfolding in_screenblt
in_screenblt-Takes present delta old new (h0, h1, h2, h3, h4, h5, h6) =
    followed _
      (optional (on present 0x1) (Near delta old.x new.x) old.x new.x (coord delta old.x new.x) h0)
      (followed _
        (optional (on present 0x2) (Near delta old.y new.y) old.y new.y (coord delta old.y new.y)
          h1)
        (followed _
          (optional (on present 0x4) (Near delta old.cx new.cx) old.cx new.cx
            (coord delta old.cx new.cx) h2)
          (followed _
            (optional (on present 0x8) (Near delta old.cy new.cy) old.cy new.cy
              (coord delta old.cy new.cy) h3)
            (followed _
              (optional (on present 0x10) (Unit {0}) old.opcode new.opcode (λ _. octet new.opcode)
                h4)
              (followed _
                (optional (on present 0x20) (Near delta old.srcx new.srcx) old.srcx new.srcx
                  (coord delta old.srcx new.srcx) h5)
                (followed _
                  (optional (on present 0x40) (Near delta old.srcy new.srcy) old.srcy new.srcy
                    (coord delta old.srcy new.srcy) h6)
                  (no_more new)))))))

abbrev pub line_octets : ℕ → Bool → LineOrder → LineOrder → List ℕ
line_octets present delta old new =
    shown (on present 0x01) (word_octets new.mixmode)
    ++ (shown (on present 0x2) (coord_octets delta old.startx new.startx)
        ++ (shown (on present 0x4) (coord_octets delta old.starty new.starty)
            ++ (shown (on present 0x8) (coord_octets delta old.endx new.endx)
                ++ (shown (on present 0x10) (coord_octets delta old.endy new.endy)
                    ++ (shown (on present 0x20) (colour_octets new.bgcolour)
                        ++ (shown (on present 0x40) (new.opcode ∷ [])
                            ++ (pen_octets (present / 2 ^ 7) new.pen ++ [])))))))

abbrev pub LineAgrees : ℕ → Bool → LineOrder → LineOrder → Type 0
LineAgrees present delta old new =
    (Shown (on present 0x01) (Unit {0}) old.mixmode new.mixmode)
    × (Shown (on present 0x2) (Near delta old.startx new.startx) old.startx new.startx)
    × (Shown (on present 0x4) (Near delta old.starty new.starty) old.starty new.starty)
    × (Shown (on present 0x8) (Near delta old.endx new.endx) old.endx new.endx)
    × (Shown (on present 0x10) (Near delta old.endy new.endy) old.endy new.endy)
    × (Shown (on present 0x20) (Unit {0}) old.bgcolour new.bgcolour)
    × (Shown (on present 0x40) (Unit {0}) old.opcode new.opcode)
    × (PenAgrees (present / 2 ^ 7) old.pen new.pen)

pub in_line-Takes :
    (present : ℕ) (delta : Bool) (old new : LineOrder)
    → LineAgrees present delta old new
    → Takes (in_line present delta old) (line_octets present delta old new) new
unfolding in_line
in_line-Takes present delta old new (h0, h1, h2, h3, h4, h5, h6, h7) =
    followed _
      (optional (on present 0x01) (Unit {0}) old.mixmode new.mixmode (λ _. word new.mixmode) h0)
      (followed _
        (optional (on present 0x2) (Near delta old.startx new.startx) old.startx new.startx
          (coord delta old.startx new.startx) h1)
        (followed _
          (optional (on present 0x4) (Near delta old.starty new.starty) old.starty new.starty
            (coord delta old.starty new.starty) h2)
          (followed _
            (optional (on present 0x8) (Near delta old.endx new.endx) old.endx new.endx
              (coord delta old.endx new.endx) h3)
            (followed _
              (optional (on present 0x10) (Near delta old.endy new.endy) old.endy new.endy
                (coord delta old.endy new.endy) h4)
              (followed _
                (optional (on present 0x20) (Unit {0}) old.bgcolour new.bgcolour
                  (λ _. colour new.bgcolour) h5)
                (followed _
                  (optional (on present 0x40) (Unit {0}) old.opcode new.opcode
                    (λ _. octet new.opcode) h6)
                  (followed _ (rdp_parse_pen-Takes (present / 2 ^ 7) old.pen new.pen h7)
                    (no_more new))))))))

abbrev pub desksave_octets : ℕ → Bool → DesksaveOrder → DesksaveOrder → List ℕ
desksave_octets present delta old new =
    shown (on present 0x01) (dword_octets new.offset)
    ++ (shown (on present 0x2) (coord_octets delta old.left new.left)
        ++ (shown (on present 0x4) (coord_octets delta old.top new.top)
            ++ (shown (on present 0x8) (coord_octets delta old.right new.right)
                ++ (shown (on present 0x10) (coord_octets delta old.bottom new.bottom)
                    ++ (shown (on present 0x20) (new.action ∷ []) ++ [])))))

abbrev pub DesksaveAgrees : ℕ → Bool → DesksaveOrder → DesksaveOrder → Type 0
DesksaveAgrees present delta old new =
    (Shown (on present 0x01) (Unit {0}) old.offset new.offset)
    × (Shown (on present 0x2) (Near delta old.left new.left) old.left new.left)
    × (Shown (on present 0x4) (Near delta old.top new.top) old.top new.top)
    × (Shown (on present 0x8) (Near delta old.right new.right) old.right new.right)
    × (Shown (on present 0x10) (Near delta old.bottom new.bottom) old.bottom new.bottom)
    × (Shown (on present 0x20) (Unit {0}) old.action new.action)

pub in_desksave-Takes :
    (present : ℕ) (delta : Bool) (old new : DesksaveOrder)
    → DesksaveAgrees present delta old new
    → Takes (in_desksave present delta old) (desksave_octets present delta old new) new
unfolding in_desksave
in_desksave-Takes present delta old new (h0, h1, h2, h3, h4, h5) =
    followed _
      (optional (on present 0x01) (Unit {0}) old.offset new.offset (λ _. dword new.offset) h0)
      (followed _
        (optional (on present 0x2) (Near delta old.left new.left) old.left new.left
          (coord delta old.left new.left) h1)
        (followed _
          (optional (on present 0x4) (Near delta old.top new.top) old.top new.top
            (coord delta old.top new.top) h2)
          (followed _
            (optional (on present 0x8) (Near delta old.right new.right) old.right new.right
              (coord delta old.right new.right) h3)
            (followed _
              (optional (on present 0x10) (Near delta old.bottom new.bottom) old.bottom new.bottom
                (coord delta old.bottom new.bottom) h4)
              (followed _
                (optional (on present 0x20) (Unit {0}) old.action new.action (λ _. octet new.action)
                  h5)
                (no_more new))))))
