-- ===== src/Mppc/Token.antt =====
-- source/mppc.c: the offset and the length of a match.
use rdesktopce_rdp.Prelude.{
  ℕ, zero, suc, ◌+◌, ◌-◌, ◌/◌, ◌%◌, ◌^◌, Bool, Option, none, some, ◌==◌, if◌then◌else◌, bit_or,
}
use rdesktopce_rdp.Mppc.Bits.{Reader, ◌>>=◌, positive, shift, need, fill, next_bit}

-- Fill up to `n` bits, drop the `tag` bits of the prefix, and take the next `width` as a number.
unfoldable pub field : ℕ → ℕ → ℕ → ℕ → Reader → Option (ℕ × Reader)
unfolding fill shift
field n tag width base r = do
  r ← fill n r
  let r' = shift tag r
  some (r'.walker / 2 ^ (32 - width) + base, shift width r')

-- `switch (((uint32) walker) >> 29)`
unfoldable pub big_offset : Reader → Option (ℕ × Reader)
unfolding field
big_offset r =
    let top : ℕ = r.walker / 2 ^ 29 in
    if top == 7
    then field 9 3 6 0 r
    else if top == 6
    then field 11 3 8 64 r
    else if top == 5
    then field 13 2 11 320 r
    else if top == 4
    then field 13 2 11 320 r
    else field 17 1 16 2368 r

-- The case of `walker >> 30` being 3 fills by an `if`, not by a loop.
unfoldable pub near_field : Reader → Option (ℕ × Reader)
unfolding need shift
near_field r = do r ← need 8 r; let r' = shift 2 r; some (r'.walker / 2 ^ 26, shift 6 r')

-- `switch (((uint32) walker) >> 30)`. In the last case `walker` is not negative, and its prefix is
-- a 0 that counts with the 13 bits of the value.
unfoldable pub small_offset : Reader → Option (ℕ × Reader)
unfolding near_field field
small_offset r =
    let top : ℕ = r.walker / 2 ^ 30 in
    if top == 3 then near_field r else if top == 2 then field 10 2 8 64 r else field 14 0 14 320 r

unfoldable pub offset : Bool → Reader → Option (ℕ × Reader)
unfolding big_offset small_offset
offset big r = if big then big_offset r else small_offset r

-- The `do` loop over the leading ones of a length: `match_bits` at its end.
unfoldable pub count_ones : ℕ → Reader → Option (ℕ × Reader)
unfolding next_bit
count_ones zero r = none
count_ones (suc m) r = next_bit r >>= λ r'.
    let more = count_ones m r' in
    if positive r' then some (suc m, r') else if m == 0 then none else more

-- `((walker >> (32 - n)) & ~(-1 << n)) | (1 << n)`: the mask drops what the sign brings in.
unfoldable pub long_length : ℕ → Reader → Option (ℕ × Reader)
unfolding fill shift
long_length n r = do
  r ← fill n (shift 1 r)
  some (bit_or (r.walker / 2 ^ (32 - n) % 2 ^ n) (2 ^ n), shift n r)

unfoldable pub match_length : Bool → Reader → Option (ℕ × Reader)
unfolding count_ones long_length
match_length big r = if positive r then some (3, shift 1 r) else do
  (match_bits, r) ← count_ones (if big then 14 else 11) r
  long_length ((if big then 16 else 13) - match_bits) r
