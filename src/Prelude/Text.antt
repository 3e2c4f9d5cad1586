-- ===== src/Prelude/Text.antt =====
-- Texts: equality, the code points of a text, and the order that SQLite and Python give to texts.
use Prim.Native.Nat.{ℕ}
use Prim.Native.Char.{code}
use Prim.Native.String.{String}
use mathlib.Core.Path.{◌≡◌, refl}
use mathlib.Core.Logic.{◌⊎◌, inl, inr}
use mathlib.Core.Bool.{Bool, true, false, ◌||◌, ◌&&◌}
use mathlib.Core.List.{List, [], ◌∷◌}
use native.Mathlib.Omega.{arith}
use text.Mathlib.Text.{◌==◌ as texts_equal}
use build_engine.Prelude.Tests.{ltb, ◌==◌}

abbrev pub str_eq : String → String → Bool
str_eq = texts_equal

-- The code points of a text.
abbrev pub codes : String → List ℕ
codes String.[] = []
codes (String.◌∷◌ c s) = code c ∷ codes s

abbrev pub str_mem : String → List String → Bool
str_mem k [] = false
str_mem k (x ∷ xs) = str_eq x k || str_mem k xs

-- Lexicographic order by code points, which for UTF-8 is the order of the bytes.
pub codes_le : List ℕ → List ℕ → Bool
codes_le [] ys = true
codes_le (x ∷ xs) [] = false
codes_le (x ∷ xs) (y ∷ ys) = ltb x y || (x == y && codes_le xs ys)

pub codes_le_total : (xs ys : List ℕ) → (codes_le xs ys ≡ true) ⊎ (codes_le ys xs ≡ true)
unfolding codes_le
codes_le_total [] ys = inl refl
codes_le_total (x ∷ xs) [] = inr refl
codes_le_total (x ∷ xs) (y ∷ ys) = ground (arith, codes_le_total xs ys)

pub codes_le_trans :
    (xs ys zs : List ℕ) → codes_le xs ys ≡ true → codes_le ys zs ≡ true → codes_le xs zs ≡ true
unfolding codes_le
codes_le_trans [] ys zs p q = refl
codes_le_trans (x ∷ xs) [] zs p q = cc
codes_le_trans (x ∷ xs) (y ∷ ys) [] p q = cc
codes_le_trans (x ∷ xs) (y ∷ ys) (z ∷ zs) p q = ground (arith, codes_le_trans xs ys zs)

unfoldable pub str_le : String → String → Bool
unfolding codes_le
str_le a b = codes_le (codes a) (codes b)

pub str_le_total : (a b : String) → (str_le a b ≡ true) ⊎ (str_le b a ≡ true)
unfolding str_le
str_le_total a b = codes_le_total (codes a) (codes b)

pub str_le_trans : (a b c : String) → str_le a b ≡ true → str_le b c ≡ true → str_le a c ≡ true
unfolding str_le
str_le_trans a b c = codes_le_trans (codes a) (codes b) (codes c)
