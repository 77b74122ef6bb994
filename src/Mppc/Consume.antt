-- ===== src/Mppc/Consume.antt =====
-- source/mppc.c: what the bit reader has left, `walker_len` and the bits of `rest`, before and after
-- each of its operations.
use rdesktopce_rdp.Prelude.{
  ℕ, zero, suc, ◌+◌, ◌-◌, ◌*◌, ◌%◌, ◌^◌, ◌≡◌, ◌≤◌, ◌<◌, refl, Bool, Option, none, some, List, [],
  ◌∷◌, if◌then◌else◌, length, bit_or, Bool-cases, inl, inr, arith, lt→ltb,
}
use rdesktopce_rdp.Mppc.Bits.{
  Reader, ◌>>=◌, positive, shift, reload, pull, need, fill_loop, fill, ready, next_bit,
}
use rdesktopce_rdp.Mppc.Token.{
  field, big_offset, near_field, small_offset, offset, count_ones, long_length, match_length,
}

-- The bits that are left.
abbrev pub left : Reader → ℕ
left r = r.walker_len + 8 * length r.rest

abbrev pub Under : ℕ → Reader → Type 0
Under n r = left r ≤ n

abbrev pub Under₂ : ℕ → ℕ × Reader → Type 0
Under₂ n x = left (x.1) ≤ n

-- How a bind came to its result.
pub record Through {ℓ κ} {A : Type ℓ} {B : Type κ} (m : Option A) (f : A → Option B) (b : B)
    : Type (ℓ ⊔ κ) where
  pub value : A
  pub taken : m ≡ some value
  pub rest : f value ≡ some b

pub bind-Through {ℓ κ} :
    {A : Type ℓ} {B : Type κ}
    → (m : Option A) (f : A → Option B) (b : B) → (m >>= f) ≡ some b
    → Through m f b
bind-Through none f b h = ground arith
bind-Through (some a) f b h = record { value = a; taken = refl; rest = h }

pub left-shift : (k : ℕ) (r : Reader) → left (shift k r) ≤ left r
unfolding shift
left-shift k r = omega arith

pub left-shift_strict : (k : ℕ) (r : Reader) → 1 ≤ k → 1 ≤ r.walker_len → left (shift k r) < left r
unfolding shift
left-shift_strict k r p q = omega arith

-- One more octet is eight bits from `rest` to `walker`.
pub pull-left :
    (r r' : Reader) → pull r ≡ some r' → (left r' ≡ left r) × (r'.walker_len ≡ r.walker_len + 8)
unfolding pull
pull-left r r' h = ground arith

pub need-left : (n : ℕ) (r r' : Reader) → need n r ≡ some r' → left r' ≡ left r
unfolding need
need-left n r r' h = ground (arith, pull-left r r')

pub need-enough : (n : ℕ) (r r' : Reader) → n ≤ 8 → need n r ≡ some r' → n ≤ r'.walker_len
unfolding need
need-enough n r r' p h = ground (arith, pull-left r r', lt→ltb r.walker_len n)

pub ready-left : (r r' : Reader) → ready r ≡ some r' → (left r' ≡ left r) × (1 ≤ r'.walker_len)
unfolding ready reload
ready-left r r' h = ground arith

pub next_bit-left :
    (r r' : Reader)
    → next_bit r ≡ some r'
    → (left r' ≤ left r) × (1 ≤ r.walker_len → left r' < left r)
unfolding next_bit
next_bit-left r r' h =
    ground (arith, ready-left (shift 1 r) r', left-shift 1 r, left-shift_strict 1 r)

pub fill_loop-left :
    (n : ℕ) (bs : List ℕ) (w l : ℕ) (r : Reader)
    → fill_loop n bs w l ≡ some r
    → left r ≡ l + 8 * length bs
unfolding fill_loop
fill_loop-left n [] w l r h = ground arith
fill_loop-left n (b ∷ bs) w l r h =
    ground (arith, fill_loop-left n bs (bit_or w (b % 256 * 2 ^ (24 - l) % 2 ^ 32)) (l + 8) r)

pub fill-left : (n : ℕ) (r r' : Reader) → fill n r ≡ some r' → left r' ≡ left r
unfolding fill
fill-left n r r' h = fill_loop-left n r.rest r.walker r.walker_len r' h

field-left :
    (n tag width base : ℕ) (r r' : Reader) (v : ℕ)
    → field n tag width base r ≡ some (v, r')
    → left r' ≤ left r
unfolding field
field-left n tag width base r r' v h = grind (arith, fill-left n r, left-shift)

near_field-left : (r r' : Reader) (v : ℕ) → near_field r ≡ some (v, r') → left r' ≤ left r
unfolding near_field
near_field-left r r' v h = grind (arith, need-left 8 r, left-shift)

big_offset-left : (r r' : Reader) (v : ℕ) → big_offset r ≡ some (v, r') → left r' ≤ left r
unfolding big_offset
big_offset-left r r' v h = ground (
  arith,
  field-left 9 3 6 0 r r' v,
  field-left 11 3 8 64 r r' v,
  field-left 13 2 11 320 r r' v,
  field-left 17 1 16 2368 r r' v,
)

small_offset-left : (r r' : Reader) (v : ℕ) → small_offset r ≡ some (v, r') → left r' ≤ left r
unfolding small_offset
small_offset-left r r' v h =
    ground
      (arith, near_field-left r r' v, field-left 10 2 8 64 r r' v, field-left 14 0 14 320 r r' v)

pub offset-left :
    (big : Bool) (r r' : Reader) (v : ℕ) → offset big r ≡ some (v, r') → left r' ≤ left r
unfolding offset
offset-left big r r' v h = ground (arith, big_offset-left r r' v, small_offset-left r r' v)

count_ones-left : (n : ℕ) (r r' : Reader) (v : ℕ) → count_ones n r ≡ some (v, r') → left r' ≤ left r
unfolding count_ones
count_ones-left zero r r' v h = grind arith
count_ones-left (suc n) r r' v h = grind (arith, next_bit-left r, count_ones-left n)

long_length-left :
    (n : ℕ) (r r' : Reader) (v : ℕ) → long_length n r ≡ some (v, r') → left r' ≤ left r
unfolding long_length
long_length-left n r r' v h = grind (arith, fill-left n (shift 1 r), left-shift)

pub match_length-left :
    (big : Bool) (r r' : Reader) (v : ℕ) → match_length big r ≡ some (v, r') → left r' ≤ left r
unfolding match_length
match_length-left big r r' v h = elim (Bool-cases (positive r)) [
  | inl e ↦ ground (arith, left-shift 1 r)
  | inr e ↦
      let ones = count_ones (if big then 14 else 11) r in
      let rest : ℕ × Reader → Option (ℕ × Reader) =
        λ x. long_length ((if big then 16 else 13) - x.0) x.1 in
      let found = bind-Through ones rest (v, r') (rw e at h) in
      let (n, s) = found.value in
      omega (arith, count_ones-left _ r s n found.taken, long_length-left _ s r' v found.rest)
]
