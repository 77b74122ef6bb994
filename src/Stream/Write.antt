-- ===== src/Stream/Write.antt =====
-- The writers put a known run of octets at `p` and change nothing else.
use rdesktopce_rdp.Prelude.{
  ℕ, ◌+◌, ◌/◌, ◌%◌, ◌^◌, ◌≡◌, refl, ap, sym, some, List, [], ◌∷◌, ◌++◌, map, arith, length,
  length-append, set-append, append_assoc, Option-cases, inl, inr,
}
use mathlib.Core.Path.{fun_ext}
use rdesktopce_rdp.Stream.{
  Stream, at, byte, bind, ◌>>◌, ◌>>=◌, out_uint8, out_uint8p, out_uint16_be, out_uint16_le,
  out_uint32_le,
}

module _ (s : Stream) where
  pub out_uint8_lem :
      (pre : List ℕ) (x : ℕ) (post : List ℕ) (i b : ℕ)
      → i ≡ length pre
      → out_uint8 b (at s (pre ++ (x ∷ post)) i) ≡ some (tt, at s (pre ++ (byte b ∷ post)) (i + 1))
  unfolding out_uint8
  out_uint8_lem pre x post i b e =
      ground (arith, length-append pre (x ∷ post), set-append pre x post i (byte b) e)

  -- A run of octets replaces as many.
  pub out_uint8p_lem :
      (bs pre old post : List ℕ) (i : ℕ)
      → i ≡ length pre
      → length old ≡ length bs
      → out_uint8p bs (at s (pre ++ (old ++ post)) i)
        ≡ some (tt, at s (pre ++ (map byte bs ++ post)) (i + length bs))
  unfolding out_uint8p
  out_uint8p_lem [] pre [] post i e h = ap (λ k. some (tt, at s (pre ++ post) k)) (omega arith)
  out_uint8p_lem [] pre (x ∷ old) post i e h = absurd (omega arith)
  out_uint8p_lem (b ∷ bs) pre [] post i e h = absurd (omega arith)
  out_uint8p_lem (b ∷ bs) pre (x ∷ old) post i e h = rw (out_uint8_lem pre x (old ++ post) i b e) (
      ground (
        arith,
        out_uint8p_lem bs (pre ++ (byte b ∷ [])) old post (i + 1),
        length-append pre (byte b ∷ []),
        append_assoc pre (byte b ∷ []) (old ++ post),
        append_assoc pre (byte b ∷ []) (map byte bs ++ post),
      ))

pub append_seq :
    (xs ys : List ℕ) (s : Stream)
    → out_uint8p (xs ++ ys) s ≡ bind (out_uint8p xs s) (λ _. out_uint8p ys)
unfolding out_uint8p
append_seq [] ys s = refl
append_seq (x ∷ xs) ys s = elim (Option-cases (out_uint8 x s)) [
  | inl e ↦ rw (e, ◌>>◌, ◌>>=◌)
  | inr (r, e) ↦ rw (e, ◌>>◌, ◌>>=◌) (append_seq xs ys r.1)
]

pub out_uint16_be_lem : (v : ℕ) (s : Stream) → out_uint16_be v s ≡ out_uint8p (v / 256 ∷ v ∷ []) s
unfolding out_uint16_be out_uint8p
out_uint16_be_lem v s = ground arith

pub out_uint16_le_lem : (v : ℕ) (s : Stream) → out_uint16_le v s ≡ out_uint8p (v ∷ v / 256 ∷ []) s
unfolding out_uint16_le out_uint8p
out_uint16_le_lem v s = ground arith

pub out_uint32_le_lem :
    (v : ℕ) (s : Stream)
    → out_uint32_le v s
      ≡ out_uint8p
          (v % 2 ^ 16 ∷ v % 2 ^ 16 / 256 ∷ v / 2 ^ 16 % 2 ^ 16 ∷ v / 2 ^ 16 % 2 ^ 16 / 256 ∷ [])
          s
unfolding out_uint32_le
out_uint32_le_lem v s =
    let lo : ℕ = v % 2 ^ 16 in
    let hi : ℕ = v / 2 ^ 16 % 2 ^ 16 in
    rw (fun_ext (out_uint16_le_lem lo), fun_ext (out_uint16_le_lem hi))
      (sym (append_seq (lo ∷ lo / 256 ∷ []) (hi ∷ hi / 256 ∷ []) s))
