-- ===== src/Orders/Session.antt =====
-- A server and the loop of source/orders.c: what the server writes for an order, from what it wrote for
-- the one before.
pub mod Rounds
pub mod Drawn
pub mod Kinds
pub mod Shapes
use rdesktopce_rdp.Prelude.{
  on, ℕ, zero, suc, ◌+◌, ◌-◌, ◌*◌, ◌/◌, ◌%◌, ◌^◌, ◌<◌, ◌≡◌, refl, sym, ap, subst, ◌∙◌, Bool, true,
  false, Option, none, some, List, [], ◌∷◌, ◌++◌, ◌==◌, if◌then◌else◌, length, arith,
}
use native.Mathlib.Nat.{pow-suc}
use rdesktopce_rdp.Stream.{Stream, at, pure}
use rdesktopce_rdp.Stream.Read.{At}
use rdesktopce_rdp.Cache.Tables.{Brushes}
use rdesktopce_rdp.Orders.{OrderState}
use rdesktopce_rdp.Orders.Fields.{in_bits, present_size, rdp_in_present}
use rdesktopce_rdp.Orders.Screen.{Screen, Platform, Call, S}
use rdesktopce_rdp.Orders.Process.{handler, field_octets}
use rdesktopce_rdp.Orders.Coding.{Takes, no_more, followed, made, octet}

-- The octets that say which fields an order has, the lowest bits first.
abbrev pub present_octets : ℕ → ℕ → List ℕ
present_octets zero v = []
present_octets (suc n) v = v % 256 ∷ present_octets n (v / 256)

weighted : (v w : ℕ) → v % 256 * w + v / 256 * (w * 256) ≡ v * w
weighted v w =
    let v_lem : v % 256 + v / 256 * 256 ≡ v = omega arith in
    grind (arith, ap (λ (t : ℕ). t * w) v_lem)

in_bits-Takes : (n v w : ℕ) → v < 256 ^ n → Takes (in_bits n w) (present_octets n v) (v * w)
unfolding in_bits
in_bits-Takes zero v w h =
    let none_lem : v ≡ 0 = omega arith in
    let product_lem : 0 ≡ 0 * w = omega arith in
    rw none_lem (subst (λ u. Takes (pure 0) [] u) product_lem (no_more 0))
in_bits-Takes (suc n) v w h =
    let rest_lem : v / 256 < 256 ^ n = omega (arith, pow-suc 256 n) in
    subst (Takes _ _) (weighted v w) (
      followed _ (octet (v % 256))
        (made (λ r. v % 256 * w + r) (in_bits-Takes n (v / 256) (w * 256) rest_lem)))

pub rdp_in_present-Takes :
    (flags size v : ℕ)
    → v < 256 ^ present_size flags size
    → Takes (rdp_in_present flags size) (present_octets (present_size flags size) v) v
unfolding rdp_in_present
rdp_in_present-Takes flags size v h =
    subst (Takes _ _) (omega arith) (in_bits-Takes (present_size flags size) v 1 h)

-- What the loop needs to know of one type of order: where its last fields are kept, the octets of new
-- ones, when those say the new ones, and what is drawn with them.
pub record Coded (ui : Platform) : Type 1 where
  pub Order : Type 0
  pub type : ℕ
  pub process : ℕ → Bool → S (Unit {0})
  pub handled : handler ui type ≡ some process
  pub get : OrderState → Order
  pub put : Order → OrderState → OrderState
  pub octets : ℕ → Bool → Order → Order → List ℕ
  pub Agrees : ℕ → Bool → Order → Order → Type 0
  pub drawn : Brushes → Order → List Call
  pub law :
      (present : ℕ) (delta : Bool) (new : Order) (w : Screen)
      → Agrees present delta (get w.orders) new
      → At w.stream.bytes w.stream.p (octets present delta (get w.orders) new)
      → process present delta w
        ≡ some (
          tt,
          record w {
            stream =
                at w.stream w.stream.bytes
                  (w.stream.p + length (octets present delta (get w.orders) new));
            orders = put new w.orders;
            calls = w.calls ++ drawn w.brushes new;
          },
        )

-- An order as the server writes it: its flags, its fields that are there, and all fields.
pub record Item (ui : Platform) : Type 1 where
  pub coded : Coded ui
  pub flags : ℕ
  pub present : ℕ
  pub order : coded.Order

module _ {ui : Platform} where
  abbrev pub size_of : Item ui → ℕ
  size_of i = present_size i.flags (field_octets i.coded.type)

  -- The state with the type of the order.
  abbrev pub typed : Item ui → OrderState → OrderState
  typed i st = record st { order_type = i.coded.type }

  abbrev pub item_octets : OrderState → Item ui → List ℕ
  item_octets st i =
      i.flags
      ∷ ((if on i.flags 0x08 then i.coded.type ∷ [] else [])
          ++ (present_octets (size_of i) i.present
              ++ i.coded.octets i.present (on i.flags 0x10) (i.coded.get (typed i st)) i.order))

  abbrev pub next_state : OrderState → Item ui → OrderState
  next_state st i = i.coded.put i.order (typed i st)

  -- A primary order without bounds, of the type before or with its type; the flags for the present
  -- fields fit their octets; and the fields can be said.
  pub record CanSay (st : OrderState) (i : Item ui) : Type 0 where
    pub standard : on i.flags 0x01 ≡ true
    pub primary : on i.flags 0x02 ≡ false
    pub no_bounds : on i.flags 0x04 ≡ false
    pub same_type : on i.flags 0x08 ≡ false → st.order_type ≡ i.coded.type
    pub fits : i.present < 256 ^ size_of i
    pub agrees : i.coded.Agrees i.present (on i.flags 0x10) (i.coded.get (typed i st)) i.order

  abbrev pub session_octets : OrderState → List (Item ui) → List ℕ
  session_octets st [] = []
  session_octets st (i ∷ is) = item_octets st i ++ session_octets (next_state st i) is

  abbrev pub CanSayAll : OrderState → List (Item ui) → Type 0
  CanSayAll st [] = Unit {0}
  CanSayAll st (i ∷ is) = CanSay st i × CanSayAll (next_state st i) is

  abbrev pub last_state : OrderState → List (Item ui) → OrderState
  last_state st [] = st
  last_state st (i ∷ is) = last_state (next_state st i) is

  abbrev pub session_calls : Brushes → List (Item ui) → List Call
  session_calls brushes [] = []
  session_calls brushes (i ∷ is) = i.coded.drawn brushes i.order ++ session_calls brushes is
