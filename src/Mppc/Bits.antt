-- ===== src/Mppc/Bits.antt =====
-- source/mppc.c: the bit reader. `walker` is an int, kept as its 32-bit pattern: `walker >= 0` is
-- `walker < 2 ^ 31`. `rest` is `data[i..clen)`.
use rdesktopce_rdp.Prelude.{
  ℕ, ◌+◌, ◌-◌, ◌*◌, ◌%◌, ◌^◌, Bool, Option, none, some, List, [], ◌∷◌, ltb, ◌==◌, if◌then◌else◌,
  bit_or,
}

pub record Reader : Type 0 where
  pub walker : ℕ
  pub walker_len : ℕ
  pub rest : List ℕ

-- `none` is `return -1`.
infixl 5 ◌>>=◌
abbrev pub ◌>>=◌ {ℓ κ} : {A : Type ℓ} {B : Type κ} → Option A → (A → Option B) → Option B
none >>= f = none
some a >>= f = f a

-- `walker >= 0`
abbrev pub positive : Reader → Bool
positive r = ltb r.walker (2 ^ 31)

-- `walker <<= k; walker_len -= k`
unfoldable pub shift : ℕ → Reader → Reader
shift k r = record r { walker = r.walker * 2 ^ k % 2 ^ 32; walker_len = r.walker_len - k }

-- `walker = data[i++] << 24; walker_len = 8`
unfoldable pub reload : Reader → Option Reader
reload r = elim r.rest [
  | [] ↦ none
  | b ∷ bs ↦ some (record { walker = b * 2 ^ 24 % 2 ^ 32; walker_len = 8; rest = bs })
]

-- `walker |= (data[i++] & 0xff) << (24 - walker_len); walker_len += 8`
unfoldable pub pull : Reader → Option Reader
pull r = elim r.rest [
  | [] ↦ none
  | b ∷ bs ↦ some (record {
    walker = bit_or r.walker (b % 256 * 2 ^ (24 - r.walker_len) % 2 ^ 32);
    walker_len = r.walker_len + 8;
    rest = bs;
  })
]

-- `if (walker_len < n) { ... }`
unfoldable pub need : ℕ → Reader → Option Reader
unfolding pull
need n r = if ltb r.walker_len n then pull r else some r

-- `for (; walker_len < n; walker_len += 8) { ... }` over the octets that are left.
unfoldable pub fill_loop : ℕ → List ℕ → ℕ → ℕ → Option Reader
fill_loop n [] w l =
    if ltb l n then none else some (record { walker = w; walker_len = l; rest = [] })
fill_loop n (b ∷ bs) w l =
    let more = fill_loop n bs (bit_or w (b % 256 * 2 ^ (24 - l) % 2 ^ 32)) (l + 8) in
    if ltb l n then more else some (record { walker = w; walker_len = l; rest = b ∷ bs })

unfoldable pub fill : ℕ → Reader → Option Reader
unfolding fill_loop
fill n r = fill_loop n r.rest r.walker r.walker_len

-- `if (walker_len == 0) { ... }`
unfoldable pub ready : Reader → Option Reader
unfolding reload
ready r = if r.walker_len == 0 then reload r else some r

-- `walker <<= 1; if (--walker_len == 0) { ... }`
unfoldable pub next_bit : Reader → Option Reader
unfolding shift ready
next_bit r = ready (shift 1 r)
