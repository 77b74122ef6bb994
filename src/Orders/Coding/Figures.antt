-- ===== src/Orders/Coding/Figures.antt =====
-- The octets of the orders of source/orders.c for figures and text, as a server writes them.
use rdesktopce_rdp.Prelude.{on, ℕ, ◌/◌, ◌^◌, Bool, List, [], ◌∷◌, ◌++◌}
use rdesktopce_rdp.Orders.{PolylineOrder, EllipseOrder, Ellipse2Order, Text2Order}
use rdesktopce_rdp.Orders.Figures.{in_polyline, in_ellipse, in_ellipse2, in_text2}
use rdesktopce_rdp.Orders.Coding.{
  Takes, no_more, followed, octet, word, word_octets, colour, colour_octets, coord, coord_octets,
  Near, shown, Shown, optional,
}
use rdesktopce_rdp.Orders.Coding.Parts.{
  Sized, sized, sized_octets, BrushAgrees, brush_octets, rdp_parse_brush-Takes,
}

abbrev pub polyline_octets : ℕ → Bool → PolylineOrder → PolylineOrder → List ℕ
polyline_octets present delta old new =
    shown (on present 0x1) (coord_octets delta old.x new.x)
    ++ (shown (on present 0x2) (coord_octets delta old.y new.y)
        ++ (shown (on present 0x04) (new.opcode ∷ [])
            ++ (shown (on present 0x10) (colour_octets new.fgcolour)
                ++ (shown (on present 0x20) (new.lines ∷ [])
                    ++ (shown (on present 0x40) (sized_octets new.datasize new.octets) ++ [])))))

abbrev pub PolylineAgrees : ℕ → Bool → PolylineOrder → PolylineOrder → Type 0
PolylineAgrees present delta old new =
    (Shown (on present 0x1) (Near delta old.x new.x) old.x new.x)
    × (Shown (on present 0x2) (Near delta old.y new.y) old.y new.y)
    × (Shown (on present 0x04) (Unit {0}) old.opcode new.opcode)
    × (Shown (on present 0x10) (Unit {0}) old.fgcolour new.fgcolour)
    × (Shown (on present 0x20) (Unit {0}) old.lines new.lines)
    × (Shown {A = ℕ × List ℕ} (on present 0x40) (Sized old.octets new.datasize new.octets)
        (old.datasize, old.octets) (new.datasize, new.octets))

pub in_polyline-Takes :
    (present : ℕ) (delta : Bool) (old new : PolylineOrder)
    → PolylineAgrees present delta old new
    → Takes (in_polyline present delta old) (polyline_octets present delta old new) new
unfolding in_polyline
in_polyline-Takes present delta old new (h0, h1, h2, h3, h4, h5) =
    followed _
      (optional (on present 0x1) (Near delta old.x new.x) old.x new.x (coord delta old.x new.x) h0)
      (followed _
        (optional (on present 0x2) (Near delta old.y new.y) old.y new.y (coord delta old.y new.y)
          h1)
        (followed _
          (optional (on present 0x04) (Unit {0}) old.opcode new.opcode (λ _. octet new.opcode) h2)
          (followed _
            (optional (on present 0x10) (Unit {0}) old.fgcolour new.fgcolour
              (λ _. colour new.fgcolour) h3)
            (followed _
              (optional (on present 0x20) (Unit {0}) old.lines new.lines (λ _. octet new.lines) h4)
              (followed _
                (optional (on present 0x40) (Sized old.octets new.datasize new.octets)
                  (old.datasize, old.octets) (new.datasize, new.octets)
                  (sized old.octets new.datasize new.octets) h5)
                (no_more new))))))

abbrev pub ellipse_octets : ℕ → Bool → EllipseOrder → EllipseOrder → List ℕ
ellipse_octets present delta old new =
    shown (on present 0x1) (coord_octets delta old.left new.left)
    ++ (shown (on present 0x2) (coord_octets delta old.top new.top)
        ++ (shown (on present 0x4) (coord_octets delta old.right new.right)
            ++ (shown (on present 0x8) (coord_octets delta old.bottom new.bottom)
                ++ (shown (on present 0x10) (new.opcode ∷ [])
                    ++ (shown (on present 0x20) (new.fillmode ∷ [])
                        ++ (shown (on present 0x40) (colour_octets new.fgcolour) ++ []))))))

abbrev pub EllipseAgrees : ℕ → Bool → EllipseOrder → EllipseOrder → Type 0
EllipseAgrees present delta old new =
    (Shown (on present 0x1) (Near delta old.left new.left) old.left new.left)
    × (Shown (on present 0x2) (Near delta old.top new.top) old.top new.top)
    × (Shown (on present 0x4) (Near delta old.right new.right) old.right new.right)
    × (Shown (on present 0x8) (Near delta old.bottom new.bottom) old.bottom new.bottom)
    × (Shown (on present 0x10) (Unit {0}) old.opcode new.opcode)
    × (Shown (on present 0x20) (Unit {0}) old.fillmode new.fillmode)
    × (Shown (on present 0x40) (Unit {0}) old.fgcolour new.fgcolour)

pub in_ellipse-Takes :
    (present : ℕ) (delta : Bool) (old new : EllipseOrder)
    → EllipseAgrees present delta old new
    → Takes (in_ellipse present delta old) (ellipse_octets present delta old new) new
unfolding in_ellipse
in_ellipse-Takes present delta old new (h0, h1, h2, h3, h4, h5, h6) =
    followed _
      (optional (on present 0x1) (Near delta old.left new.left) old.left new.left
        (coord delta old.left new.left) h0)
      (followed _
        (optional (on present 0x2) (Near delta old.top new.top) old.top new.top
          (coord delta old.top new.top) h1)
        (followed _
          (optional (on present 0x4) (Near delta old.right new.right) old.right new.right
            (coord delta old.right new.right) h2)
          (followed _
            (optional (on present 0x8) (Near delta old.bottom new.bottom) old.bottom new.bottom
              (coord delta old.bottom new.bottom) h3)
            (followed _
              (optional (on present 0x10) (Unit {0}) old.opcode new.opcode (λ _. octet new.opcode)
                h4)
              (followed _
                (optional (on present 0x20) (Unit {0}) old.fillmode new.fillmode
                  (λ _. octet new.fillmode) h5)
                (followed _
                  (optional (on present 0x40) (Unit {0}) old.fgcolour new.fgcolour
                    (λ _. colour new.fgcolour) h6)
                  (no_more new)))))))

abbrev pub ellipse2_octets : ℕ → Bool → Ellipse2Order → Ellipse2Order → List ℕ
ellipse2_octets present delta old new =
    shown (on present 0x1) (coord_octets delta old.left new.left)
    ++ (shown (on present 0x2) (coord_octets delta old.top new.top)
        ++ (shown (on present 0x4) (coord_octets delta old.right new.right)
            ++ (shown (on present 0x8) (coord_octets delta old.bottom new.bottom)
                ++ (shown (on present 0x10) (new.opcode ∷ [])
                    ++ (shown (on present 0x20) (new.fillmode ∷ [])
                        ++ (shown (on present 0x40) (colour_octets new.bgcolour)
                            ++ (shown (on present 0x80) (colour_octets new.fgcolour)
                                ++ (brush_octets (present / 2 ^ 8) new.brush ++ []))))))))

abbrev pub Ellipse2Agrees : ℕ → Bool → Ellipse2Order → Ellipse2Order → Type 0
Ellipse2Agrees present delta old new =
    (Shown (on present 0x1) (Near delta old.left new.left) old.left new.left)
    × (Shown (on present 0x2) (Near delta old.top new.top) old.top new.top)
    × (Shown (on present 0x4) (Near delta old.right new.right) old.right new.right)
    × (Shown (on present 0x8) (Near delta old.bottom new.bottom) old.bottom new.bottom)
    × (Shown (on present 0x10) (Unit {0}) old.opcode new.opcode)
    × (Shown (on present 0x20) (Unit {0}) old.fillmode new.fillmode)
    × (Shown (on present 0x40) (Unit {0}) old.bgcolour new.bgcolour)
    × (Shown (on present 0x80) (Unit {0}) old.fgcolour new.fgcolour)
    × (BrushAgrees (present / 2 ^ 8) old.brush new.brush)

pub in_ellipse2-Takes :
    (present : ℕ) (delta : Bool) (old new : Ellipse2Order)
    → Ellipse2Agrees present delta old new
    → Takes (in_ellipse2 present delta old) (ellipse2_octets present delta old new) new
unfolding in_ellipse2
in_ellipse2-Takes present delta old new (h0, h1, h2, h3, h4, h5, h6, h7, h8) =
    followed _
      (optional (on present 0x1) (Near delta old.left new.left) old.left new.left
        (coord delta old.left new.left) h0)
      (followed _
        (optional (on present 0x2) (Near delta old.top new.top) old.top new.top
          (coord delta old.top new.top) h1)
        (followed _
          (optional (on present 0x4) (Near delta old.right new.right) old.right new.right
            (coord delta old.right new.right) h2)
          (followed _
            (optional (on present 0x8) (Near delta old.bottom new.bottom) old.bottom new.bottom
              (coord delta old.bottom new.bottom) h3)
            (followed _
              (optional (on present 0x10) (Unit {0}) old.opcode new.opcode (λ _. octet new.opcode)
                h4)
              (followed _
                (optional (on present 0x20) (Unit {0}) old.fillmode new.fillmode
                  (λ _. octet new.fillmode) h5)
                (followed _
                  (optional (on present 0x40) (Unit {0}) old.bgcolour new.bgcolour
                    (λ _. colour new.bgcolour) h6)
                  (followed _
                    (optional (on present 0x80) (Unit {0}) old.fgcolour new.fgcolour
                      (λ _. colour new.fgcolour) h7)
                    (followed _ (rdp_parse_brush-Takes (present / 2 ^ 8) old.brush new.brush h8)
                      (no_more new)))))))))

abbrev pub text2_octets : ℕ → Bool → Text2Order → Text2Order → List ℕ
text2_octets present delta old new =
    shown (on present 0x01) (new.font ∷ [])
    ++ (shown (on present 0x02) (new.flags ∷ [])
        ++ (shown (on present 0x04) (new.opcode ∷ [])
            ++ (shown (on present 0x08) (new.mixmode ∷ [])
                ++ (shown (on present 0x10) (colour_octets new.fgcolour)
                    ++ (shown (on present 0x20) (colour_octets new.bgcolour)
                        ++ (shown (on present 0x40) (word_octets new.clipleft)
                            ++ (shown (on present 0x80) (word_octets new.cliptop)
                                ++ (shown (on present 0x100) (word_octets new.clipright)
                                    ++ (shown (on present 0x200) (word_octets new.clipbottom)
                                        ++ (shown (on present 0x400) (word_octets new.boxleft)
                                            ++ (shown (on present 0x800) (word_octets new.boxtop)
                                                ++ (shown (on present 0x1000)
                                                      (word_octets new.boxright)
                                                    ++ (shown (on present 0x2000)
                                                          (word_octets new.boxbottom)
                                                        ++ (brush_octets (present / 2 ^ 14)
                                                            new.brush
                                                            ++ (shown (on present 0x80000)
                                                            (word_octets new.x)
                                                            ++ (shown (on present 0x100000)
                                                            (word_octets new.y)
                                                            ++ (shown (on present 0x200000)
                                                            (sized_octets new.len new.text)
                                                            ++ [])))))))))))))))))

abbrev pub Text2Agrees : ℕ → Bool → Text2Order → Text2Order → Type 0
Text2Agrees present delta old new =
    (Shown (on present 0x01) (Unit {0}) old.font new.font)
    × (Shown (on present 0x02) (Unit {0}) old.flags new.flags)
    × (Shown (on present 0x04) (Unit {0}) old.opcode new.opcode)
    × (Shown (on present 0x08) (Unit {0}) old.mixmode new.mixmode)
    × (Shown (on present 0x10) (Unit {0}) old.fgcolour new.fgcolour)
    × (Shown (on present 0x20) (Unit {0}) old.bgcolour new.bgcolour)
    × (Shown (on present 0x40) (Unit {0}) old.clipleft new.clipleft)
    × (Shown (on present 0x80) (Unit {0}) old.cliptop new.cliptop)
    × (Shown (on present 0x100) (Unit {0}) old.clipright new.clipright)
    × (Shown (on present 0x200) (Unit {0}) old.clipbottom new.clipbottom)
    × (Shown (on present 0x400) (Unit {0}) old.boxleft new.boxleft)
    × (Shown (on present 0x800) (Unit {0}) old.boxtop new.boxtop)
    × (Shown (on present 0x1000) (Unit {0}) old.boxright new.boxright)
    × (Shown (on present 0x2000) (Unit {0}) old.boxbottom new.boxbottom)
    × (BrushAgrees (present / 2 ^ 14) old.brush new.brush)
    × (Shown (on present 0x80000) (Unit {0}) old.x new.x)
    × (Shown (on present 0x100000) (Unit {0}) old.y new.y)
    × (Shown {A = ℕ × List ℕ} (on present 0x200000) (Sized old.text new.len new.text)
        (old.len, old.text) (new.len, new.text))

pub in_text2-Takes :
    (present : ℕ) (delta : Bool) (old new : Text2Order)
    → Text2Agrees present delta old new
    → Takes (in_text2 present delta old) (text2_octets present delta old new) new
unfolding in_text2
in_text2-Takes present delta old new
      (h0, h1, h2, h3, h4, h5, h6, h7, h8, h9, h10, h11, h12, h13, h14, h15, h16, h17) =
    followed _ (optional (on present 0x01) (Unit {0}) old.font new.font (λ _. octet new.font) h0) (
      followed _
        (optional (on present 0x02) (Unit {0}) old.flags new.flags (λ _. octet new.flags) h1)
        (followed _
          (optional (on present 0x04) (Unit {0}) old.opcode new.opcode (λ _. octet new.opcode) h2)
          (followed _
            (optional (on present 0x08) (Unit {0}) old.mixmode new.mixmode (λ _. octet new.mixmode)
              h3)
            (followed _
              (optional (on present 0x10) (Unit {0}) old.fgcolour new.fgcolour
                (λ _. colour new.fgcolour) h4)
              (followed _
                (optional (on present 0x20) (Unit {0}) old.bgcolour new.bgcolour
                  (λ _. colour new.bgcolour) h5)
                (followed _
                  (optional (on present 0x40) (Unit {0}) old.clipleft new.clipleft
                    (λ _. word new.clipleft) h6)
                  (followed _
                    (optional (on present 0x80) (Unit {0}) old.cliptop new.cliptop
                      (λ _. word new.cliptop) h7)
                    (followed _
                      (optional (on present 0x100) (Unit {0}) old.clipright new.clipright
                        (λ _. word new.clipright) h8)
                      (followed _
                        (optional (on present 0x200) (Unit {0}) old.clipbottom new.clipbottom
                          (λ _. word new.clipbottom) h9)
                        (followed _
                          (optional (on present 0x400) (Unit {0}) old.boxleft new.boxleft
                            (λ _. word new.boxleft) h10)
                          (followed _
                            (optional (on present 0x800) (Unit {0}) old.boxtop new.boxtop
                              (λ _. word new.boxtop) h11)
                            (followed _
                              (optional (on present 0x1000) (Unit {0}) old.boxright new.boxright
                                (λ _. word new.boxright) h12)
                              (followed _
                                (optional (on present 0x2000) (Unit {0}) old.boxbottom new.boxbottom
                                  (λ _. word new.boxbottom) h13)
                                (followed _
                                  (rdp_parse_brush-Takes (present / 2 ^ 14) old.brush new.brush h14)
                                  (followed _
                                    (optional (on present 0x80000) (Unit {0}) old.x new.x
                                      (λ _. word new.x) h15)
                                    (followed _
                                      (optional (on present 0x100000) (Unit {0}) old.y new.y
                                        (λ _. word new.y) h16)
                                      (followed _
                                        (optional (on present 0x200000)
                                          (Sized old.text new.len new.text) (old.len, old.text)
                                          (new.len, new.text) (sized old.text new.len new.text) h17)
                                        (no_more new))))))))))))))))))
