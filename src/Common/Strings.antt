-- ===== src/Common/Strings.antt =====
-- Go strings as lists of Unicode code points. Only strings that are valid UTF-8 are modelled.
use Prim.Native.Nat.{ℕ, ◌+◌}
use Prim.Native.Char.{code}
use Prim.Native.String.{String}
use mathlib.Core.Path.{◌≡◌, refl, sym}
use mathlib.Core.Logic.{◌↔◌, inl, inr}
use mathlib.Core.Bool.{Bool, true, false, not, ◌&&◌, ◌||◌}
use mathlib.Core.List.{List, [], ◌∷◌, reverse}
use native.Mathlib.Omega.{arith}
use mossward.Common.Tests.{Bool-cases, ltb, leb, ◌==◌, if◌then◌else◌}

abbrev pub Text : Type 0
Text = List ℕ

-- The code points of a literal.
abbrev pub codes : String → Text
codes String.[] = []
codes (String.◌∷◌ c s) = code c ∷ codes s

-- `a == b`
unfoldable pub text_eq : Text → Text → Bool
text_eq [] [] = true
text_eq [] (d ∷ ds) = false
text_eq (c ∷ cs) [] = false
text_eq (c ∷ cs) (d ∷ ds) = c == d && text_eq cs ds

pub text_eq_iff : (a b : Text) → (text_eq a b ≡ true) ↔ (a ≡ b)
unfolding text_eq
text_eq_iff [] [] = ground arith
text_eq_iff [] (d ∷ ds) = ground arith
text_eq_iff (c ∷ cs) [] = ground arith
text_eq_iff (c ∷ cs) (d ∷ ds) = ground (arith, text_eq_iff cs ds)

pub text_eq_refl : (a : Text) → text_eq a a ≡ true
text_eq_refl a = (text_eq_iff a a).1 refl

-- `s == ""`
abbrev pub is_empty : Text → Bool
is_empty [] = true
is_empty (c ∷ cs) = false

-- unicode.IsSpace
pub is_space : ℕ → Bool
is_space c =
    (leb 9 c && leb c 13)
    || c == 32
    || c == 0x85
    || c == 0xA0
    || c == 0x1680
    || (leb 0x2000 c && leb c 0x200A)
    || c == 0x2028
    || c == 0x2029
    || c == 0x202F
    || c == 0x205F
    || c == 0x3000

pub trim_left : Text → Text
unfolding is_space
trim_left [] = []
trim_left (c ∷ cs) = elim (is_space c) [ true ↦ trim_left cs | false ↦ c ∷ cs ]

-- strings.TrimSpace
unfoldable pub trim_space : Text → Text
unfolding trim_left
trim_space s = reverse (trim_left (reverse (trim_left s)))

-- `strings.TrimSpace(s) == ""`
unfoldable pub is_blank : Text → Bool
unfolding is_space
is_blank [] = true
is_blank (c ∷ cs) = is_space c && is_blank cs

utf8_width : ℕ → ℕ
utf8_width c = if ltb c 0x80 then 1 else if ltb c 0x800 then 2 else if ltb c 0x10000 then 3 else 4

-- `len(s)`: the bytes of the UTF-8 encoding.
unfoldable pub byte_length : Text → ℕ
unfolding utf8_width
byte_length [] = 0
byte_length (c ∷ cs) = utf8_width c + byte_length cs

-- `a < b`: the order of the bytes of two strings, which is that of their code points.
unfoldable pub text_less : Text → Text → Bool
text_less a [] = false
text_less [] (d ∷ ds) = true
text_less (c ∷ cs) (d ∷ ds) = ltb c d || (c == d && text_less cs ds)

-- `strings.Split(s, ".")`
abbrev pub push_first : ℕ → List Text → List Text
push_first c [] = (c ∷ []) ∷ []
push_first c (t ∷ ts) = (c ∷ t) ∷ ts

unfoldable pub split_dots : Text → List Text
split_dots [] = [] ∷ []
split_dots (c ∷ cs) = let rest = split_dots cs in if c == b'.' then [] ∷ rest else push_first c rest

pub text_less_trans :
    (a b c : Text) → text_less a b ≡ true → text_less b c ≡ true → text_less a c ≡ true
unfolding text_less
text_less_trans a b [] p q = ground (arith, q)
text_less_trans [] b (k ∷ ks) p q = refl
text_less_trans (i ∷ is) [] (k ∷ ks) p q = ground (arith, p)
text_less_trans (i ∷ is) (j ∷ js) (k ∷ ks) p q = ground (arith, p, q, text_less_trans is js ks)

-- Of two texts that differ, one comes first and the other does not.
pub text_less_total : (a b : Text) → text_less a b ≡ (not (text_less b a) && not (text_eq a b))
unfolding text_less text_eq
text_less_total [] [] = refl
text_less_total [] (j ∷ js) = refl
text_less_total (i ∷ is) [] = refl
text_less_total (i ∷ is) (j ∷ js) = ground (arith, text_less_total is js)

pub text_eq_sym : (a b : Text) → text_eq a b ≡ text_eq b a
text_eq_sym a b = ground (arith, text_eq_iff a b, text_eq_iff b a)

pub text_less_irrefl : (a : Text) → text_less a a ≡ false
text_less_irrefl a = ground (arith, text_less_total a a, text_eq_refl a)

pub text_less_within :
    (a b c : Text) → text_less a b ≡ true → text_less c b ≡ false → text_less a c ≡ true
text_less_within a b c p q = elim (Bool-cases (text_eq b c)) [
  | inl e ↦ rw (sym ((text_eq_iff b c).0 e)) p
  | inr n ↦ text_less_trans a b c p (ground (arith, text_less_total b c, n, q))
]

pub text_less_through :
    (a b c : Text) → text_less a b ≡ false → text_less b c ≡ false → text_less a c ≡ false
text_less_through a b c p q = elim (Bool-cases (text_eq b c)) [
  | inl e ↦ rw (sym ((text_eq_iff b c).0 e)) p
  | inr n ↦ elim (Bool-cases (text_less a c)) [
    | inr g ↦ g
    | inl g ↦ ground (
      arith,
      p,
      q,
      n,
      text_eq_sym b c,
      text_less_trans a c b g (ground (arith, text_less_total c b, text_eq_sym c b, n, q)),
    )
  ]
]
