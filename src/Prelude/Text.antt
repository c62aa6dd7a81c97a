-- ===== src/Prelude/Text.antt =====
-- Byte strings as lists of byte codes, with the operations of `std::string` that the program uses.
use nimlib.Prelude.Int.{ℤ, pos, negsuc}
use nimlib.Prelude.Tests.{ltb, leb, ◌==◌, if◌then◌else◌}
use Prim.Native.Nat.{zero, suc, ◌-◌, ◌/◌, ◌%◌, ℕ, ◌+◌}
use Prim.Native.Char.{code}
use Prim.Native.String.{String}
use mathlib.Core.Bool.{Bool, true, false, ◌&&◌, ◌||◌}
use mathlib.Core.Logic.{ite}
use mathlib.Core.List.{List, [], ◌∷◌}
use native.Mathlib.Decide.{ℕ_discrete}

abbrev pub Text : Type 0
Text = List ℕ

-- The bytes of an ASCII literal.
abbrev pub codes : String → Text
codes String.[] = []
codes (String.◌∷◌ c s) = code c ∷ codes s

unfoldable pub Text-discrete : Discrete Text
unfolding ℕ_discrete
Text-discrete = hlevel ℕ_discrete

-- `std::isspace` in the "C" locale: the blank, and \t \n \v \f \r.
abbrev pub is_space : ℕ → Bool
is_space c = c == 32 || (leb 9 c && leb c 13)

-- `std::tolower` in the "C" locale.
abbrev pub to_lower : ℕ → ℕ
to_lower c = if leb b'A' c && leb c b'Z' then c + 32 else c

abbrev pub text_eq : Text → Text → Bool
text_eq a b = ite (Text-discrete a b) true false

-- The digits of a number, as `<<` prints them in base `base`, before `acc`. Every round divides by
-- the base, so that the number and one more are fuel enough.
abbrev pub digit : ℕ → ℕ
digit n = if ltb n 10 then b'0' + n else b'a' + (n - 10)

unfoldable pub digits_before : ℕ → ℕ → ℕ → Text → Text
digits_before base zero n acc = acc
digits_before base (suc fuel) n acc =
    let more = digits_before base fuel (n / base) (digit (n % base) ∷ acc) in
    if ltb n base then digit n ∷ acc else more

unfoldable pub decimal : ℕ → Text
decimal n = digits_before 10 (n + 1) n []

unfoldable pub hexadecimal : ℕ → Text
hexadecimal n = digits_before 16 (n + 1) n []

-- A signed number, as `<<` and `std::format` print it.
abbrev pub print_integer : ℤ → Text
print_integer (pos n) = decimal n
print_integer (negsuc n) = b'-' ∷ decimal (n + 1)
