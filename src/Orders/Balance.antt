-- ===== src/Orders/Balance.antt =====
-- The clipping of source/orders.c: set for an order, it is reset behind it.
use rdesktopce_rdp.Prelude.{
  on, ℕ, zero, suc, ◌≡◌, ◌⊎◌, inl, inr, refl, ap, subst, ◌∙◌, Bool, true, false, Option, none, some,
  [], ◌∷◌, if◌then◌else◌, arith, Bool-cases,
}
use rdesktopce_rdp.Stream.{in_uint8}
use rdesktopce_rdp.Orders.{Bounds}
use rdesktopce_rdp.Orders.Fields.{rdp_in_present, rdp_parse_bounds}
use rdesktopce_rdp.Orders.Screen.{
  Screen, Platform, ui_set_clip, ui_reset_clip, S, pure, ◌>>◌, on_stream, gets, set_orders, call,
}
use rdesktopce_rdp.Orders.Process.{
  process_secondary_order, handler, field_octets, set_clip, run_order, process_primary_order,
  process_order, process_orders,
}
use rdesktopce_rdp.Orders.Keeps
use rdesktopce_rdp.Orders.Keeps.{Keeps}
use rdesktopce_rdp.Orders.Clip.{clip_after-append, clipped, Blind, reads}
use rdesktopce_rdp.Orders.Clipping.{clipped-Blind, AllKeep, handler-AllKeep}
use rdesktopce_rdp.Orders.Rounds.{Gives, bind-Gives, secondary_clipped}

-- An order of a given type, and whether the clipping is set.
abbrev Clip : ℕ → Bool → Screen → Type 0
Clip type b w = (w.orders.order_type ≡ type) × (clipped w ≡ b)

abbrev typed : Screen → ℕ × Bool
typed w = (w.orders.order_type, clipped w)

typed-Blind : Blind typed
typed-Blind = record {
  to_stream = λ w s. refl;
  to_banks = λ w b. refl;
  to_fonts = λ w f. refl;
  to_brushes = λ w b. refl;
  to_calls = λ w cs h.
      ap (λ (b : Bool). (w.orders.order_type, b))
        (clip_after-append false w.calls cs ∙ h (clipped w));
}

Gives-typed :
    {A : Type 0} (type : ℕ) (b : Bool) (w : Screen) (o : Option (A × Screen))
    → Keeps.Shows typed w o
    → Clip type b w
    → Gives (λ _ w'. Clip type b w') o
Gives-typed type b w none h c = tt
Gives-typed type b w (some (a, w')) h (t, c) =
    (ap (λ (v : ℕ × Bool). v.0) h ∙ t, ap (λ (v : ℕ × Bool). v.1) h ∙ c)

call_shows :
    (x y cx cy type : ℕ) (b : Bool) (w : Screen)
    → Clip type b w
    → Gives (λ _ w'. Clip type true w') (call (ui_set_clip x y cx cy) w)
unfolding call
call_shows x y cx cy type b w (t, c) =
    (t, clip_after-append false w.calls (ui_set_clip x y cx cy ∷ []))

bounds_set :
    (b : Bounds) (type : ℕ) (c : Bool) (w : Screen)
    → Clip type c w
    → Gives (λ _ w'. Clip type c w') (set_orders (λ o. record o { bounds = b }) w)
unfolding set_orders
bounds_set b type c w h = h

in_bounds-Keeps :
    (flags : ℕ) (old : Bounds)
    → Keeps typed (if on flags 0x20 then pure old else on_stream (rdp_parse_bounds old))
in_bounds-Keeps flags old =
    Keeps.branch typed (on flags 0x20) (Keeps.unit typed old)
      (reads typed typed-Blind (rdp_parse_bounds old))

set_clip-Clip :
    (flags type : ℕ) (w : Screen)
    → Clip type false w
    → Gives (λ _ w'. Clip type (on flags 0x04) w') (set_clip flags w)
unfolding set_clip
set_clip-Clip flags type w h = elim (Bool-cases (on flags 0x04)) [
  | inr e ↦ rw e h
  | inl e ↦ rw e (
      bind-Gives (λ _ v. Clip type false v) (λ _ v. Clip type true v)
        (gets (λ v. v.orders.bounds) w) _
        (Gives-typed type false w _ ((Keeps.query typed (λ v. v.orders.bounds)).run w) h)
        (λ old v h.
          bind-Gives (λ _ v. Clip type false v) (λ _ v. Clip type true v) _ _
            (Gives-typed type false v _ ((in_bounds-Keeps flags old).run v) h)
            (λ b v h.
              bind-Gives (λ _ v. Clip type false v) (λ _ v. Clip type true v) _ _
                (bounds_set b type false v h) (λ _ v h. call_shows _ _ _ _ type false v h))))
]

-- How a round ends: unclipped, if the loop goes on or no order has a type without a handler.
abbrev pub Ends : Platform → Bool → Screen → Type 0
Ends ui more w = (clipped w ≡ false) ⊎ (more ≡ false) × (handler ui w.orders.order_type ≡ none)

reset_call :
    (flags : ℕ) (w : Screen)
    → clipped w ≡ on flags 0x04
    → Gives (λ _ w'. clipped w' ≡ false) ((if on flags 0x04 then call ui_reset_clip else pure tt) w)
unfolding call
reset_call flags w h = elim (Bool-cases (on flags 0x04)) [
  | inl e ↦ rw e (clip_after-append false w.calls (ui_reset_clip ∷ []))
  | inr e ↦ rw e (h ∙ e)
]

run_order-Ends :
    (ui : Platform) (flags present type : ℕ) (o : Option (ℕ → Bool → S (Unit {0}))) (w : Screen)
    → AllKeep ui present (on flags 0x10) o
    → handler ui type ≡ o
    → Clip type (on flags 0x04) w
    → Gives (Ends ui) (run_order o flags present w)
unfolding run_order
run_order-Ends ui flags present type none w keep known (t, c) =
    inr (refl, ap (handler ui) t ∙ known)
run_order-Ends ui flags present type (some process) w keep known (t, c) =
    bind-Gives (λ _ v. clipped v ≡ on flags 0x04) (Ends ui) (process present (on flags 0x10) w) _
      (after (process present (on flags 0x10) w) (keep.run w))
      (λ _ v h.
        bind-Gives (λ _ u. clipped u ≡ false) (Ends ui) _ _ (reset_call flags v h) (λ _ u h. inl h))
  where
    after :
        (r : Option (Unit {0} × Screen))
        → Keeps.Shows clipped w r
        → Gives (λ _ v. clipped v ≡ on flags 0x04) r
    after none h = tt
    after (some (_, v)) h = h ∙ c

type_set :
    (type : ℕ) (w : Screen)
    → clipped w ≡ false
    → Gives (λ _ v. Clip type false v) (set_orders (λ o. record o { order_type = type }) w)
unfolding set_orders
type_set type w h = (refl, h)

in_type-Keeps :
    (flags old : ℕ) → Keeps clipped (if on flags 0x08 then on_stream in_uint8 else pure old)
in_type-Keeps flags old =
    Keeps.branch clipped (on flags 0x08) (reads clipped clipped-Blind in_uint8)
      (Keeps.unit clipped old)

unclipped :
    {A : Type 0} (w : Screen) (o : Option (A × Screen))
    → Keeps.Shows clipped w o
    → clipped w ≡ false
    → Gives (λ _ v. clipped v ≡ false) o
unclipped w none h c = tt
unclipped w (some (a, v)) h c = h ∙ c

process_primary_order-Ends :
    (ui : Platform) (flags : ℕ) (w : Screen)
    → clipped w ≡ false
    → Gives (Ends ui) (process_primary_order ui flags w)
unfolding process_primary_order
process_primary_order-Ends ui flags w h =
    bind-Gives (λ _ v. clipped v ≡ false) (Ends ui) (gets (λ v. v.orders.order_type) w) _
      (unclipped w _ ((Keeps.query clipped (λ v. v.orders.order_type)).run w) h)
      (λ old v h.
        bind-Gives (λ _ v. clipped v ≡ false) (Ends ui) _ _
          (unclipped v _ ((in_type-Keeps flags old).run v) h)
          (λ type v h.
            bind-Gives (λ _ v. Clip type false v) (Ends ui) _ _ (type_set type v h)
              (λ _ v h.
                bind-Gives (λ _ v. Clip type false v) (Ends ui) _ _
                  (Gives-typed type false v _
                    ((reads typed typed-Blind (rdp_in_present flags (field_octets type))).run v) h)
                  (λ present v h.
                    bind-Gives (λ _ v. Clip type (on flags 0x04) v) (Ends ui) _ _
                      (set_clip-Clip flags type v h)
                      (λ _ v h.
                        run_order-Ends ui flags present type (handler ui type) v
                          (handler-AllKeep ui present (on flags 0x10) type) refl h)))))

process_order-Ends :
    (ui : Platform) (w : Screen) → clipped w ≡ false → Gives (Ends ui) (process_order ui w)
unfolding process_order
process_order-Ends ui w h =
    bind-Gives (λ _ v. clipped v ≡ false) (Ends ui) (on_stream in_uint8 w) _
      (unclipped w _ ((reads clipped clipped-Blind in_uint8).run w) h)
      (λ flags v h. choose flags v h)
  where
    secondary :
        (v : Screen)
        → clipped v ≡ false
        → Gives (Ends ui) ((process_secondary_order ui >> pure true) v)
    secondary v h =
        bind-Gives (λ _ u. clipped u ≡ false) (Ends ui) (process_secondary_order ui v) _
          (unclipped v _ ((secondary_clipped ui).run v) h) (λ _ u h. inl h)

    choose :
        (flags : ℕ) (v : Screen)
        → clipped v ≡ false
        → Gives (Ends ui) (
            (if on flags 0x01
                then (if on flags 0x02
                    then process_secondary_order ui >> pure true
                    else process_primary_order ui flags)
                else pure false)
              v)
    choose flags v h = elim (Bool-cases (on flags 0x01)) [
      | inr e ↦ rw e (inl h)
      | inl e ↦ elim (Bool-cases (on flags 0x02)) [
        | inl f ↦ rw (e, f) (secondary v h)
        | inr f ↦ rw (e, f) (process_primary_order-Ends ui flags v h)
      ]
    ]

orders_end :
    (ui : Platform) (n : ℕ) (w : Screen)
    → clipped w ≡ false
    → Gives
        (λ _ v. (clipped v ≡ false) ⊎ (handler ui v.orders.order_type ≡ none))
        (process_orders ui n w)
unfolding process_orders
orders_end ui zero w h = inl h
orders_end ui (suc n) w h =
    bind-Gives (Ends ui) (λ _ v. (clipped v ≡ false) ⊎ (handler ui v.orders.order_type ≡ none))
      (process_order ui w) _ (process_order-Ends ui w h)
      (λ more v ends.
        (elim more
            as (λ k.
              Ends ui k v
              → Gives (λ _ u. (clipped u ≡ false) ⊎ (handler ui u.orders.order_type ≡ none))
                  ((if k then process_orders ui n else pure tt) v)) [
                    | true ↦ λ ends. elim ends [
                      | inl c ↦ orders_end ui n v c
                      | inr (f, _) ↦ absurd (ground (arith, f))
                    ]
                    | false ↦ λ ends. elim ends [ inl c ↦ inl c | inr (_, k) ↦ inr k ]
                  ])
          ends)

-- From a screen whose clipping is not set, after any orders that `process_orders` reads without a
-- fault the clipping is not set, or the type of the last order has no handler.
pub process_orders-clipped :
    (ui : Platform) (n : ℕ) (w w' : Screen)
    → clipped w ≡ false
    → process_orders ui n w ≡ some (tt, w')
    → (clipped w' ≡ false) ⊎ (handler ui w'.orders.order_type ≡ none)
process_orders-clipped ui n w w' h e =
    subst (Gives (λ _ v. (clipped v ≡ false) ⊎ (handler ui v.orders.order_type ≡ none))) e
      (orders_end ui n w h)
