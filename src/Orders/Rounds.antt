-- ===== src/Orders/Rounds.antt =====
-- The loop of source/orders.c over the orders: where the next one starts, and how the clipping ends.
use rdesktopce_rdp.Prelude.{
  ℕ, ◌+◌, ◌*◌, ◌^◌, ◌≡◌, refl, sym, ap, subst, ◌∙◌, Bool, false, Option, none, some, [], ◌∷◌, ltb,
  if◌then◌else◌, arith,
}
use rdesktopce_rdp.Stream.{Stream, in_uint8, in_uint16_le}
use rdesktopce_rdp.Stream.Read.{At, in_uint8_lem, in_uint16_le_lem}
use rdesktopce_rdp.Orders.{OrderState}
use rdesktopce_rdp.Orders.Screen
use rdesktopce_rdp.Orders.Screen.{
  Screen, Platform, ui_reset_clip, S, pure, ◌>>=◌, ◌>>◌, on_stream, gets, set_orders, call,
}
use rdesktopce_rdp.Orders.Process.{dispatch_secondary, next_order, seek, process_secondary_order}
use rdesktopce_rdp.Orders.Keeps
use rdesktopce_rdp.Orders.Keeps.{Keeps}
use rdesktopce_rdp.Orders.Clip.{clip_after-append, clipped, Blind, reads}
use rdesktopce_rdp.Orders.Kept.{dispatch_secondary-Keeps}

-- What holds of a result, if there is one.
abbrev pub Gives : {A : Type 0} → (A → Screen → Type 0) → Option (A × Screen) → Type 0
Gives P none = Unit {0}
Gives P (some (a, w)) = P a w

pub bind-Gives :
    {A B : Type 0} (P : A → Screen → Type 0) (Q : B → Screen → Type 0) (o : Option (A × Screen))
    (f : A → S B)
    → Gives P o
    → ((a : A) (w : Screen) → P a w → Gives Q (f a w))
    → Gives Q (Screen.bind o f)
bind-Gives P Q none f h k = tt
bind-Gives P Q (some (a, w)) f h k = k a w h

-- The state of the orders, and the clipping.
abbrev settled : Screen → OrderState × Bool
settled w = (w.orders, clipped w)

settled-Blind : Blind settled
settled-Blind = record {
  to_stream = λ w s. refl;
  to_banks = λ w b. refl;
  to_fonts = λ w f. refl;
  to_brushes = λ w b. refl;
  to_calls = λ w cs h.
      ap (λ (b : Bool). (w.orders, b)) (clip_after-append false w.calls cs ∙ h (clipped w));
}

-- A secondary order leaves the state of the orders and the clipping.
secondary_settled : (ui : Platform) → Keeps settled (process_secondary_order ui)
unfolding process_secondary_order
secondary_settled ui = Keeps.bind settled (reads settled settled-Blind in_uint16_le) (λ len.
    Keeps.bind settled (reads settled settled-Blind in_uint16_le) (λ flags.
      Keeps.bind settled (reads settled settled-Blind in_uint8) (λ type.
        Keeps.bind settled (Keeps.query settled (λ w. w.stream.p)) (λ p.
          Keeps.seq settled (dispatch_secondary-Keeps settled settled-Blind ui flags type)
            (sought (next_order p len))))))
  where
    sought : (o : Option ℕ) → Keeps settled (seek o)
    sought none = record { run = λ w. tt }
    sought (some p) = record { run = λ w. refl }

-- What stands behind the header of five octets.
behind_header :
    (ui : Platform) (w : Screen) (l h f g type : ℕ)
    → At w.stream.bytes w.stream.p (l ∷ h ∷ f ∷ g ∷ type ∷ [])
    → let p : ℕ = w.stream.p + 1 + 1 + 1 + 1 + 1 in
      process_secondary_order ui w
      ≡ Screen.bind
          (dispatch_secondary ui
            (f + g * 256)
            type
            (record w { stream = record w.stream { p = p } }))
          (λ _. seek (next_order p (l + h * 256)))
unfolding process_secondary_order on_stream gets
behind_header ui w l h f g type (a, (b, (c, (d, (e, _))))) =
    let s : Stream = w.stream in
    let s2 : Stream = record s { p = s.p + 1 + 1 } in
    let s4 : Stream = record s { p = s.p + 1 + 1 + 1 + 1 } in
    rw
      (
        in_uint16_le_lem s l h (a, (b, tt)),
        in_uint16_le_lem s2 f g (c, (d, tt)),
        in_uint8_lem s4 type e,
      )
      refl

seek_lem : (o : Option ℕ) (w w' : Screen) → seek o w ≡ some (tt, w') → o ≡ some w'.stream.p
seek_lem o w w' e = ground arith

seek_behind :
    (r : Option (Unit {0} × Screen)) (o : Option ℕ) (w' : Screen)
    → Screen.bind r (λ _. seek o) ≡ some (tt, w')
    → o ≡ some w'.stream.p
seek_behind none o w' e = ground arith
seek_behind (some (_, w)) o w' e = seek_lem o w w' e

next_order_lem :
    (p len q : ℕ)
    → next_order p len ≡ some q
    → q + (if ltb len (2 ^ 15) then 0 else 2 ^ 16) ≡ p + len + 7
next_order_lem p len q e = ground arith

-- Whatever the handler of a secondary order reads, a secondary order that does not fault leaves
-- the stream at the place that the length in its header announces as a signed number, with the
-- state of the orders and the clipping unchanged.
pub process_secondary_order_lem :
    (ui : Platform) (w w' : Screen) (l h f g type : ℕ)
    → At w.stream.bytes w.stream.p (l ∷ h ∷ f ∷ g ∷ type ∷ [])
    → process_secondary_order ui w ≡ some (tt, w')
    → (w'.orders ≡ w.orders)
      × (clipped w' ≡ clipped w)
      × (w'.stream.p + (if ltb (l + h * 256) (2 ^ 15) then 0 else 2 ^ 16)
          ≡ w.stream.p + 5 + (l + h * 256) + 7)
process_secondary_order_lem ui w w' l h f g type at e =
    let same : settled w' ≡ settled w =
      subst (λ r. Keeps.Shows settled w r) e ((secondary_settled ui).run w) in
    let place : next_order (w.stream.p + 1 + 1 + 1 + 1 + 1) (l + h * 256) ≡ some w'.stream.p =
      seek_behind _ _ w' (sym (behind_header ui w l h f g type at) ∙ e) in
    (
      ap (λ (r : OrderState × Bool). r.0) same,
      ap (λ (r : OrderState × Bool). r.1) same,
      next_order_lem _ _ _ place ∙ omega arith,
    )

pub secondary_clipped : (ui : Platform) → Keeps clipped (process_secondary_order ui)
secondary_clipped ui = record {
  run = λ w. clip_of w (process_secondary_order ui w) ((secondary_settled ui).run w);
}
  where
    clip_of :
        (w : Screen) (o : Option (Unit {0} × Screen))
        → Keeps.Shows settled w o
        → Keeps.Shows clipped w o
    clip_of w none h = tt
    clip_of w (some (_, w')) h = ap (λ (r : OrderState × Bool). r.1) h
