-- ===== src/Stream.antt =====
-- source/parse.h: the parser state and the macros that read and write it. Pointers into `data`
-- are offsets. An access outside the allocated bytes is a fault, `none`.
pub mod Write
pub mod Read
pub mod Takes
pub mod Emit
use rdesktopce_rdp.Prelude.{
  ℕ, zero, suc, ◌+◌, ◌-◌, ◌*◌, ◌/◌, ◌%◌, ◌^◌, Bool, true, false, Option, none, some, List, [], ◌∷◌,
  ltb, leb, ◌==◌, if◌then◌else◌, length, get_elem?, set, replicate, drop,
}

-- `bytes` holds the `size` allocated bytes at `data`.
pub record Stream : Type 0 where
  pub bytes : List ℕ
  pub p : ℕ
  pub end : ℕ
  pub iso_hdr : ℕ
  pub mcs_hdr : ℕ
  pub sec_hdr : ℕ
  pub rdp_hdr : ℕ
  pub channel_hdr : ℕ

abbrev pub M : Type 0 → Type 0
M A = Stream → Option (A × Stream)

abbrev pub pure : {A : Type 0} → A → M A
pure a s = some (a, s)

abbrev pub bind : {A B : Type 0} → Option (A × Stream) → (A → M B) → Option (B × Stream)
bind none f = none
bind (some (a, s)) f = f a s

infixl 5 ◌>>=◌ ◌>>◌
abbrev pub ◌>>=◌ : {A B : Type 0} → M A → (A → M B) → M B
m >>= f = λ s. bind (m s) f

abbrev pub ◌>>◌ : {B : Type 0} → M (Unit {0}) → M B → M B
m >> k = m >>= λ _. k

-- `*((s)->p++)`
unfoldable pub in_uint8 : M ℕ
in_uint8 s = elim (get_elem? s.bytes s.p) [
  | none ↦ none
  | some b ↦ some (b, record s { p = s.p + 1 })
]

-- `next_be(s,v)` into a variable of `w` bits.
unfoldable pub next_be : ℕ → ℕ → M ℕ
unfolding in_uint8
next_be w v = do b ← in_uint8; pure ((v * 256 + b) % 2 ^ w)

unfoldable pub in_uint16_be : M ℕ
unfolding next_be
in_uint16_be = do v ← in_uint8; next_be 16 v

unfoldable pub in_uint16_le : M ℕ
unfolding in_uint8
in_uint16_le = do v ← in_uint8; w ← in_uint8; pure (v + w * 256)

unfoldable pub in_uint32_le : M ℕ
unfolding in_uint16_le
in_uint32_le = do v ← in_uint16_le; b ← in_uint8; c ← in_uint8; pure (v + b * 2 ^ 16 + c * 2 ^ 24)

-- `in_uint8s(s,n)`
unfoldable pub in_uint8s : ℕ → M (Unit {0})
in_uint8s n s = some (tt, record s { p = s.p + n })

-- `in_uint8a(s,v,n)`
unfoldable pub in_uint8a : ℕ → M (List ℕ)
unfolding in_uint8
in_uint8a zero = pure []
in_uint8a (suc n) = do b ← in_uint8; bs ← in_uint8a n; pure (b ∷ bs)

-- `in_uint8p(s,v,n)`: the memory from `v` on.
unfoldable pub in_uint8p : ℕ → M (List ℕ)
in_uint8p n s = some (drop s.p s.bytes, record s { p = s.p + n })

-- `*((s)->p++) = v`
unfoldable pub out_uint8 : ℕ → M (Unit {0})
out_uint8 v s =
    if ltb s.p (length s.bytes)
    then some (tt, record s { bytes = set s.bytes s.p (v % 256); p = s.p + 1 })
    else none

unfoldable pub out_uint16_be : ℕ → M (Unit {0})
out_uint16_be v = do out_uint8 (v / 256); out_uint8 v

unfoldable pub out_uint16_le : ℕ → M (Unit {0})
out_uint16_le v = do out_uint8 v; out_uint8 (v / 256)

unfoldable pub out_uint32_le : ℕ → M (Unit {0})
out_uint32_le v = do out_uint16_le (v % 2 ^ 16); out_uint16_le (v / 2 ^ 16 % 2 ^ 16)

-- `out_uint8p(s,v,n)`, with the `n` bytes at `v`.
unfoldable pub out_uint8p : List ℕ → M (Unit {0})
out_uint8p [] = pure tt
out_uint8p (b ∷ bs) = do out_uint8 b; out_uint8p bs

-- `out_uint8s(s,n)`
unfoldable pub out_uint8s : ℕ → M (Unit {0})
unfolding out_uint8p
out_uint8s n = out_uint8p (replicate n 0)

unfoldable pub out_uint32_be : ℕ → M (Unit {0})
unfolding out_uint16_be
out_uint32_be v = do out_uint16_be (v / 2 ^ 16 % 2 ^ 16); out_uint16_be (v % 2 ^ 16)

unfoldable pub s_mark_end : M (Unit {0})
s_mark_end s = some (tt, record s { end = s.p })

unfoldable pub s_check : Stream → Bool
s_check s = leb s.p s.end

unfoldable pub s_check_rem : Stream → ℕ → Bool
s_check_rem s n = leb (s.p + n) s.end

unfoldable pub s_check_end : Stream → Bool
s_check_end s = s.p == s.end

-- `s_push_layer` and `s_pop_layer` for the headers of the layers.
unfoldable pub push_iso : ℕ → M (Unit {0})
push_iso n s = some (tt, record s { iso_hdr = s.p; p = s.p + n })

unfoldable pub pop_iso : M (Unit {0})
pop_iso s = some (tt, record s { p = s.iso_hdr })

unfoldable pub push_mcs : ℕ → M (Unit {0})
push_mcs n s = some (tt, record s { mcs_hdr = s.p; p = s.p + n })

unfoldable pub pop_mcs : M (Unit {0})
pop_mcs s = some (tt, record s { p = s.mcs_hdr })

unfoldable pub push_sec : ℕ → M (Unit {0})
push_sec n s = some (tt, record s { sec_hdr = s.p; p = s.p + n })

unfoldable pub pop_sec : M (Unit {0})
pop_sec s = some (tt, record s { p = s.sec_hdr })

unfoldable pub push_channel : ℕ → M (Unit {0})
push_channel n s = some (tt, record s { channel_hdr = s.p; p = s.p + n })

unfoldable pub pop_channel : M (Unit {0})
pop_channel s = some (tt, record s { p = s.channel_hdr })

-- The stream over other bytes, at another place.
abbrev pub at : Stream → List ℕ → ℕ → Stream
at s d i = record s { bytes = d; p = i }

-- What an octet of the wire holds of a number.
abbrev pub byte : ℕ → ℕ
byte v = v % 256
