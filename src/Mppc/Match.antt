-- ===== src/Mppc/Match.antt =====
-- source/mppc.c: a match whose octets have been expanded before.
use rdesktopce_rdp.Prelude.{
  ℕ, ◌+◌, ◌-◌, ◌^◌, ◌≡◌, ◌≤◌, ◌<◌, ◌⊎◌, inl, inr, refl, ap, ◌∙◌, Bool, true, false, leb, ltb,
  if◌then◌else◌, Bool-cases, Option-cases, arith,
}
use rdesktopce_rdp.Mppc.{dict_size, State, again, refused, copy, copy_match, source}
use rdesktopce_rdp.Mppc.Bits.{Reader}
use rdesktopce_rdp.Mppc.Copy.{copy-Copied, copy_defined}

-- The state behind a match: `len` octets further, each new octet the one `off` before it.
pub record Matched (off len : ℕ) (r : Reader) (s s' : State) : Type 0 where
  pub reader : s'.reader ≡ r
  pub ends : s'.next_offset ≡ s.next_offset + len
  pub before : (j : ℕ) → j < s.next_offset → s'.hist j ≡ s.hist j
  pub after : (j : ℕ) → s.next_offset + len ≤ j → s'.hist j ≡ s.hist j
  pub copies : (i : ℕ) → i < len → s'.hist (s.next_offset + i) ≡ s'.hist (s.next_offset + i - off)

-- The mask does not move a source inside the part of the history that is addressed.
source_lem :
    (big : Bool) (next off : ℕ)
    → off ≤ next
    → next < (if big then 2 ^ 16 else 2 ^ 13)
    → source big next off ≡ next - off
unfolding source
source_lem true next off h small = omega arith
source_lem false next off h small = omega arith

-- A match at a positive offset that reaches back into the octets expanded so far is refused where
-- it would reach the end of the dictionary; else the end moves by its length, each new octet is
-- the one an offset before it in the new history, and all others are kept; for an end below the 64
-- KB, or 8 KB, that an offset can address.
pub copy_match-Matched :
    (big : Bool) (off len : ℕ) (r : Reader) (s : State)
    → 0 < off
    → off ≤ s.next_offset
    → s.next_offset < (if big then 2 ^ 16 else 2 ^ 13)
    → ((dict_size ≤ s.next_offset + len) × (copy_match big off len r s ≡ refused))
      ⊎ ((s.next_offset + len < dict_size)
          × (s' : State) × (copy_match big off len r s ≡ again s')
          × Matched off len r s s')
unfolding copy_match
copy_match-Matched big off len r s back inside small =
    let next = s.next_offset in
    let k = source big next off in
    let k_lem : k ≡ next - off = source_lem big next off inside small in
    elim (Bool-cases (leb dict_size (next + len))) [
      | inl e ↦ inl (ground (arith, e), rw e refl)
      | inr e ↦ elim (Option-cases (copy len k next s.hist)) [
        | inl f ↦
            absurd (copy_defined len k next s.hist (ground (arith, e, k_lem)) (ground (arith, e)) f)
        | inr ((next', h'), f) ↦
            let c = copy-Copied len k next s.hist h' next' f in
            inr (
              ground (arith, e),
              record { reader = r; next_offset = next'; hist = h' },
              rw (e, f) refl,
              record {
                reader = refl;
                ends = c.ends;
                before = c.before;
                after = c.after;
                copies = λ i p.
                    let below : ltb k next ≡ true = ground (arith, k_lem) in
                    c.copies i p ∙ rw below (ap h' (omega (arith, k_lem)));
              },
            )
      ]
    ]
