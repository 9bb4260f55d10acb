-- ===== src/Common/Words.antt =====
-- Go's `uint64` arithmetic: results are taken modulo 2^64.
use Prim.Native.Nat.{ℕ, ◌+◌, ◌-◌, ◌%◌, ◌^◌, ◌<◌, ◌≤◌}
use mathlib.Core.Path.{◌≡◌}
use mathlib.Core.Logic.{◌≢◌}
use native.Mathlib.Omega.{arith}

abbrev pub word_mod : ℕ
word_mod = 2 ^ 64

unfoldable pub add64 : ℕ → ℕ → ℕ
add64 a b = (a + b) % word_mod

unfoldable pub sub64 : ℕ → ℕ → ℕ
sub64 a b = (a + word_mod - b) % word_mod

pub add64_exact : (a b : ℕ) → a + b < word_mod → add64 a b ≡ a + b
unfolding add64
add64_exact a b h = omega arith

pub sub64_exact : (a b : ℕ) → b ≤ a → a < word_mod → sub64 a b ≡ a - b
unfolding sub64
sub64_exact a b h k = omega arith

pub add64-lt : (a b : ℕ) → add64 a b < word_mod
unfolding add64
add64-lt a b = omega arith

pub sub64-lt : (a b : ℕ) → sub64 a b < word_mod
unfolding sub64
sub64-lt a b = omega arith

pub add64_wraps :
    (a b : ℕ) → a < word_mod → b < word_mod → word_mod ≤ a + b → add64 a b + word_mod ≡ a + b
unfolding add64
add64_wraps a b ha hb h = omega arith

pub add64_ne_self : (a : ℕ) → add64 a 1 ≢ a
unfolding add64
add64_ne_self a e = omega arith

-- `omega` takes these at the calls that it meets.
pub ruleset word_laws = (arith, add64_exact, sub64_exact, add64-lt, sub64-lt)
