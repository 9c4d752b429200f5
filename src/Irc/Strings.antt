-- ===== src/Irc/Strings.antt =====
-- The string functions of C that src/ calls, on texts without their '\0'.
use Prim.Native.Char.{code}
use Prim.Native.String.{String}
use uchi_networks.Common.{
  ℕ, zero, suc, ◌+◌, ◌-◌, ◌/◌, ◌%◌, Bool, true, false, ◌==◌, ◌||◌, ltb, if◌then◌else◌, [], ◌∷◌,
  Option, none, some, length, take,
}
use uchi_networks.Irc.Parse.{Text}

-- The characters of a literal.
abbrev pub codes : String → Text
codes String.[] = []
codes (String.◌∷◌ c s) = code c ∷ codes s

-- `strlen(t) == 0`
unfoldable pub is_empty : Text → Bool
is_empty [] = true
is_empty (c ∷ cs) = false

-- What sprintf or strcat has written into an array of this size: past its end is `none`.
unfoldable pub fits : (size : ℕ) → Text → Option Text
fits size t = if ltb (length t) size then some t else none

-- `snprintf` keeps one place for the '\0'.
unfoldable pub snprintf : (size : ℕ) → Text → Text
snprintf zero t = []
snprintf (suc n) t = take n t

-- `strchr(t, c) != NULL`
unfoldable pub strchr : Text → ℕ → Bool
strchr [] c = false
strchr (x ∷ xs) c = x == c || strchr xs c

-- `strpbrk(t, accept) != NULL`
unfoldable pub strpbrk : Text → Text → Bool
strpbrk [] accept = false
strpbrk (x ∷ xs) accept = strchr accept x || strpbrk xs accept

-- `for (c = strchr(t, x); *c != '\0'; c++) *c = *(c+1)`, if there is an x.
unfoldable pub delete_char : Text → ℕ → Text
delete_char [] c = []
delete_char (x ∷ xs) c = if x == c then xs else x ∷ delete_char xs c

-- The digits of a number, the lowest last. Each round takes one.
unfoldable pub digits : (fuel : ℕ) → ℕ → Text → Text
digits zero n behind = behind
digits (suc fuel) n behind =
    let shown = (48 + n % 10) ∷ behind in
    let rest = digits fuel (n / 10) shown in if ltb n 10 then shown else rest

-- `%u` on 32 bits: ten digits at most.
unfoldable pub print_unsigned : ℕ → Text
print_unsigned n = digits 10 n []

-- `%i` on 32 bits, where numbers from 2^31 are negative.
unfoldable pub print_int : ℕ → Text
print_int n = if ltb n 2147483648 then print_unsigned n else 45 ∷ print_unsigned (4294967296 - n)
