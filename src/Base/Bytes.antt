-- ===== src/Base/Bytes.antt =====
-- Little-endian words in byte lists, and subtraction on `uint32_t`.
use Prim.Native.Nat.{ℕ, ◌+◌, ◌-◌, ◌*◌, ◌/◌, ◌%◌, ◌^◌, ◌≤◌, ◌<◌}
use mathlib.Core.Path.{◌≡◌}
use mathlib.Core.List.{List, [], ◌∷◌, ◌++◌}
use native.Mathlib.Omega.{arith}
use kick_cat.Base.Lists.{get_or}

abbrev pub word32 : ℕ
word32 = 2 ^ 32

abbrev pub word16 : ℕ
word16 = 2 ^ 16

-- `a - b` on `uint32_t`
unfoldable pub sub32 : ℕ → ℕ → ℕ
sub32 a b = (a + word32 - b) % word32

pub sub32_lem : (a b : ℕ) → b ≤ a → a < word32 → sub32 a b ≡ a - b
unfolding sub32
sub32_lem a b h k = omega arith

-- Copies of a `uint16_t` and of a `uint32_t` to and from a buffer.
abbrev pub put16 : ℕ → List ℕ
put16 n = n % 256 ∷ n / 256 % 256 ∷ []

abbrev pub get16 : List ℕ → ℕ
get16 xs = get_or xs 0 0 + 256 * get_or xs 1 0

abbrev pub put32 : ℕ → List ℕ
put32 n = n % 256 ∷ n / 256 % 256 ∷ n / 65536 % 256 ∷ n / 16777216 % 256 ∷ []

abbrev pub get32 : List ℕ → ℕ
get32 xs = get_or xs 0 0 + 256 * get_or xs 1 0 + 65536 * get_or xs 2 0 + 16777216 * get_or xs 3 0

pub get32-put32 : (n : ℕ) (xs : List ℕ) → n < word32 → get32 (put32 n ++ xs) ≡ n
get32-put32 n xs h = omega arith

pub get16-put16 : (n : ℕ) (xs : List ℕ) → n < word16 → get16 (put16 n ++ xs) ≡ n
get16-put16 n xs h = omega arith
