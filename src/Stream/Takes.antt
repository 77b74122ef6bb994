-- ===== src/Stream/Takes.antt =====
-- The octets of a value say what its reader in source/parse.h gives.
use rdesktopce_rdp.Prelude.{
  ℕ, ◌+◌, ◌/◌, ◌%◌, ◌^◌, ◌≡◌, refl, ap, subst, ◌∙◌, Option, some, List, [], ◌∷◌, ◌++◌, length,
  length-append, arith,
}
use rdesktopce_rdp.Stream.{
  Stream, M, at, pure, bind, ◌>>=◌, in_uint8, in_uint8a, in_uint16_le, in_uint32_le,
}
use rdesktopce_rdp.Stream.Read.{At, in_uint8_lem, in_uint8a_lem, in_uint16_le_lem, in_uint32_le_lem}

-- From a place where `bs` stand, the reader gives `a` and is behind them.
pub record Takes {A : Type 0} (m : M A) (bs : List ℕ) (a : A) : Type 0 where
  pub run : (s : Stream) → At s.bytes s.p bs → m s ≡ some (a, at s s.bytes (s.p + length bs))

pub At-left : (d xs ys : List ℕ) (i : ℕ) → At d i (xs ++ ys) → At d i xs
At-left d [] ys i h = tt
At-left d (x ∷ xs) ys i h = (h.0, At-left d xs ys (i + 1) h.1)

pub At-right : (d xs ys : List ℕ) (i j : ℕ) → j ≡ i + length xs → At d i (xs ++ ys) → At d j ys
At-right d [] ys i j e h = let e_lem : i ≡ j = omega arith in subst (λ k. At d k ys) e_lem h
At-right d (x ∷ xs) ys i j e h = At-right d xs ys (i + 1) j (omega arith) h.1

pub no_more : {A : Type 0} (a : A) → Takes (pure a) [] a
no_more a = record { run = λ s h. ap (λ k. some (a, at s s.bytes k)) (omega arith) }

pub followed :
    {A B : Type 0} {m : M A} (f : A → M B) {xs ys : List ℕ} {a : A} {b : B}
    → Takes m xs a
    → Takes (f a) ys b
    → Takes (m >>= f) (xs ++ ys) b
followed f {xs} {ys} {a} {b} p q = record {
  run = λ s h.
      ap (λ r. bind r f) (p.run s (At-left s.bytes xs ys s.p h))
      ∙ q.run (at s s.bytes (s.p + length xs)) (At-right s.bytes xs ys s.p (s.p + length xs) refl h)
      ∙ ap (λ k. some (b, at s s.bytes k)) (omega (arith, length-append xs ys));
}

-- A value that is made of what has been read.
pub made :
    {A B : Type 0} {m : M A} (g : A → B) {xs : List ℕ} {a : A}
    → Takes m xs a
    → Takes (m >>= λ r. pure (g r)) xs (g a)
made g p = record { run = λ s h. ap (λ r. bind r (λ a. pure (g a))) (p.run s h) }

pub read_at :
    {A : Type 0} (s : Stream) (a b : A) (i j : ℕ)
    → a ≡ b
    → i ≡ j
    → ◌≡◌ {A = Option (A × Stream)} (some (a, at s s.bytes i)) (some (b, at s s.bytes j))
read_at s a b i j e f = rw (e, f) refl

pub octet : (v : ℕ) → Takes in_uint8 (v ∷ []) v
octet v = record { run = λ s h. in_uint8_lem s v h.0 }

pub octets : (bs : List ℕ) (n : ℕ) → n ≡ length bs → Takes (in_uint8a n) bs bs
octets bs n e = record { run = λ s h. ap (λ k. in_uint8a k s) e ∙ in_uint8a_lem bs s h }

abbrev pub word_octets : ℕ → List ℕ
word_octets v = v % 256 ∷ v / 256 ∷ []

pub word : (v : ℕ) → Takes in_uint16_le (word_octets v) v
word v = record {
  run = λ s h.
      in_uint16_le_lem s (v % 256) (v / 256) h ∙ read_at s _ _ _ _ (omega arith) (omega arith);
}

abbrev pub dword_octets : ℕ → List ℕ
dword_octets v = v % 256 ∷ v / 256 % 256 ∷ v / 2 ^ 16 % 256 ∷ v / 2 ^ 24 ∷ []

pub dword : (v : ℕ) → Takes in_uint32_le (dword_octets v) v
dword v = record {
  run = λ s h.
      in_uint32_le_lem s (v % 256) (v / 256 % 256) (v / 2 ^ 16 % 256) (v / 2 ^ 24) h
      ∙ read_at s _ _ _ _ (omega arith) (omega arith);
}
