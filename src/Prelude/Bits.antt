-- ===== src/Prelude/Bits.antt =====
-- Bit strings: a page or a machine word read bit by bit, lowest bit first. On a little-endian
-- machine bit `i` of a page is bit `i % w` of its word `i / w`, for words of 8 and of 32 bits alike.
use Prim.Native.Nat.{ℕ, ◌+◌, ◌-◌, ◌*◌, ◌/◌, ◌%◌}
use mathlib.Core.Bool.{Bool, true, false, not, ◌&&◌, ◌||◌}
use master_team_projekt.Prelude.Tests.{ltb, ◌==◌, if◌then◌else◌}

abbrev pub Bits : Type 0
Bits = ℕ → Bool

-- The values 0, `~0` and 1 of a word.
abbrev pub zeros : Bits
zeros k = false

abbrev pub ones : Bits
ones k = true

abbrev pub unit_bit : Bits
unit_bit k = k == 0

-- `~v`, `u & v`, `u | v` and `v << n`; what leaves the width of the word is cut when it is stored.
abbrev pub bit_not : Bits → Bits
bit_not v k = not (v k)

abbrev pub bits_and : Bits → Bits → Bits
bits_and u v k = u k && v k

abbrev pub bits_or : Bits → Bits → Bits
bits_or u v k = u k || v k

abbrev pub shift_left : Bits → ℕ → Bits
shift_left v n k = if ltb k n then false else v (k - n)

-- `*((uintw_t*) page + j)` and `*((uintw_t*) page + j) = v`.
abbrev pub read_word : ℕ → Bits → ℕ → Bits
read_word w m j k = ltb k w && m (j * w + k)

abbrev pub write_word : ℕ → Bits → ℕ → Bits → Bits
write_word w m j v i = if i / w == j then v (i % w) else m i
