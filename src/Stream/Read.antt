-- ===== src/Stream/Read.antt =====
-- The readers, at a place where the octets are known.
use rdesktopce_rdp.Prelude.{
  ℕ, ◌+◌, ◌*◌, ◌^◌, ◌<◌, ◌≡◌, ap, subst, some, List, [], ◌∷◌, ◌++◌, arith, length, length-append,
  append_assoc, get_elem?, get_elem?-append,
}
use rdesktopce_rdp.Stream.{
  Stream, at, in_uint8, in_uint8a, in_uint16_be, in_uint16_le, in_uint32_le,
}

-- The octets of `d` from index `i` on begin with `bs`.
abbrev pub At : List ℕ → ℕ → List ℕ → Type 0
At d i [] = Unit {0}
At d i (b ∷ bs) = (get_elem? d i ≡ some b) × At d (i + 1) bs

pub At-append : (pre bs post : List ℕ) (i : ℕ) → i ≡ length pre → At (pre ++ (bs ++ post)) i bs
At-append pre [] post i e = tt
At-append pre (b ∷ bs) post i e = (
  get_elem?-append pre b (bs ++ post) i e,
  subst (λ d. At d (i + 1) bs) (append_assoc pre (b ∷ []) (bs ++ post))
      (At-append (pre ++ (b ∷ [])) bs post (i + 1) (omega (arith, length-append pre (b ∷ [])))),
)

pub in_uint8_lem :
    (s : Stream) (b : ℕ)
    → get_elem? s.bytes s.p ≡ some b
    → in_uint8 s ≡ some (b, at s s.bytes (s.p + 1))
unfolding in_uint8
in_uint8_lem s b h = rw (h, in_uint8)

pub in_uint8a_lem :
    (bs : List ℕ) (s : Stream)
    → At s.bytes s.p bs
    → in_uint8a (length bs) s ≡ some (bs, at s s.bytes (s.p + length bs))
unfolding in_uint8a
in_uint8a_lem [] s h = ap (λ k. some ([], at s s.bytes k)) (omega arith)
in_uint8a_lem (b ∷ bs) s h =
    ground (arith, in_uint8_lem s b h.0, in_uint8a_lem bs (at s s.bytes (s.p + 1)) h.1)

module _ (s : Stream) where
  pub in_uint16_be_lem :
      (a b : ℕ)
      → At s.bytes s.p (a ∷ b ∷ [])
      → a < 256
      → b < 256
      → in_uint16_be s ≡ some (a * 256 + b, at s s.bytes (s.p + 1 + 1))
  unfolding in_uint16_be
  in_uint16_be_lem a b h ha hb = ground arith

  pub in_uint16_le_lem :
      (a b : ℕ)
      → At s.bytes s.p (a ∷ b ∷ [])
      → in_uint16_le s ≡ some (a + b * 256, at s s.bytes (s.p + 1 + 1))
  unfolding in_uint16_le
  in_uint16_le_lem a b h = ground arith

  pub in_uint32_le_lem :
      (a b c d : ℕ)
      → At s.bytes s.p (a ∷ b ∷ c ∷ d ∷ [])
      → in_uint32_le s
        ≡ some (a + b * 256 + c * 2 ^ 16 + d * 2 ^ 24, at s s.bytes (s.p + 1 + 1 + 1 + 1))
  unfolding in_uint32_le
  in_uint32_le_lem a b c d h = ground arith
