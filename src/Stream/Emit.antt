-- ===== src/Stream/Emit.antt =====
-- A writer is known by the octets that it emits.
use rdesktopce_rdp.Prelude.{
  ℕ, ◌+◌, ◌/◌, ◌%◌, ◌^◌, ◌≡◌, refl, sym, ◌∙◌, some, List, [], ◌∷◌, ◌++◌, map, length, arith,
}
use mathlib.Core.Path.{fun_ext}
use rdesktopce_rdp.Stream.{
  Stream, M, at, byte, ◌>>◌, pure, out_uint8, out_uint8p, out_uint16_be, out_uint16_le,
  out_uint32_le,
}
use rdesktopce_rdp.Stream.Write.{
  append_seq, out_uint16_be_lem, out_uint16_le_lem, out_uint32_le_lem, out_uint8p_lem,
}

pub record Writes (m : M (Unit {0})) (bs : List ℕ) : Type 0 where
  pub run : (s : Stream) → m s ≡ out_uint8p bs s

pub done : Writes (pure tt) []
unfolding out_uint8p
done = record { run = λ s. refl }

pub join :
    {m k : M (Unit {0})} {xs ys : List ℕ} → Writes m xs → Writes k ys → Writes (m >> k) (xs ++ ys)
join {m} {k} {xs} {ys} p q = record {
  run = λ s. rw (p.run s, fun_ext q.run) (sym (append_seq xs ys s));
}

pub one : (v : ℕ) → Writes (out_uint8 v) (v ∷ [])
unfolding out_uint8p
one v = record { run = λ s. ground arith }

pub u16_be : (v : ℕ) → Writes (out_uint16_be v) (v / 256 ∷ v ∷ [])
u16_be v = record { run = out_uint16_be_lem v }

pub u16_le : (v : ℕ) → Writes (out_uint16_le v) (v ∷ v / 256 ∷ [])
u16_le v = record { run = out_uint16_le_lem v }

pub u32_le :
    (v : ℕ)
    → Writes
        (out_uint32_le v)
        (v % 2 ^ 16 ∷ v % 2 ^ 16 / 256 ∷ v / 2 ^ 16 % 2 ^ 16 ∷ v / 2 ^ 16 % 2 ^ 16 / 256 ∷ [])
u32_le v = record { run = out_uint32_le_lem v }

pub run : (bs : List ℕ) → Writes (out_uint8p bs) bs
run bs = record { run = λ s. refl }

-- What a writer does to a buffer: its octets replace as many.
pub emit :
    {m : M (Unit {0})} {bs : List ℕ} (s : Stream) (pre old post : List ℕ) (i : ℕ)
    → Writes m bs
    → i ≡ length pre
    → length old ≡ length bs
    → m (at s (pre ++ (old ++ post)) i)
      ≡ some (tt, at s (pre ++ (map byte bs ++ post)) (i + length bs))
emit {bs} s pre old post i w e h =
    w.run (at s (pre ++ (old ++ post)) i) ∙ out_uint8p_lem s bs pre old post i e h
