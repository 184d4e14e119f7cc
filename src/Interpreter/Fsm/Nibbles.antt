-- ===== src/Interpreter/Fsm/Nibbles.antt =====
-- `getPageStatus` against `changePageStatus` of interpreter_fsm.cc, by all values of a byte and a level.
use Prim.Native.Nat.{bit_and}
use master_team_projekt.Prelude.{
  ℕ, zero, suc, ◌/◌, ◌<◌, ◌≡◌, refl, Bool, true, ◌&&◌, ltb, ◌==◌, if◌then◌else◌, arith,
}
use master_team_projekt.Interpreter.Fsm.{
  FsmPage, put_low, put_high, change_page_status, get_page_status,
}

all_below : ℕ → (ℕ → Bool) → Bool
all_below zero f = true
all_below (suc n) f = f n && all_below n f

all_below_lem : (n : ℕ) (f : ℕ → Bool) (x : ℕ) → all_below n f ≡ true → x < n → f x ≡ true
unfolding all_below
all_below_lem zero f x h p = absurd (omega arith)
all_below_lem (suc n) f x h p = ground (arith, all_below_lem n f x)

-- What the two halves of the byte are after a level was put into one of them.
abbrev halves : ℕ → ℕ → Bool
halves b s =
    (bit_and (put_low b s) 15 == s)
    && (put_low b s / 16 == b / 16)
    && (put_high b s / 16 == s)
    && (bit_and (put_high b s) 15 == bit_and b 15)
    && ltb (put_low b s) 256
    && ltb (put_high b s) 256
    && ltb (bit_and b 15) 16

halves_table : all_below 256 (λ b. all_below 16 (halves b)) ≡ true
unfolding all_below put_low put_high
halves_table = refl

halves_all : (b s : ℕ) → b < 256 → s < 16 → halves b s ≡ true
halves_all b s hb hs =
    all_below_lem 16 (halves b) s
      (all_below_lem 256 (λ b. all_below 16 (halves b)) b halves_table hb) hs

-- The same as equations.
record Halves (b s : ℕ) : Type 0 where
  low_low : bit_and (put_low b s) 15 ≡ s
  low_high : put_low b s / 16 ≡ b / 16
  high_high : put_high b s / 16 ≡ s
  high_low : bit_and (put_high b s) 15 ≡ bit_and b 15
  low_byte : put_low b s < 256
  high_byte : put_high b s < 256
  half : bit_and b 15 < 16

halves_lem : (b s : ℕ) → b < 256 → s < 16 → Halves b s
halves_lem b s hb hs =
    let t = halves_all b s hb hs in
    record {
      low_low = ground arith;
      low_high = ground arith;
      high_high = ground arith;
      high_low = ground arith;
      low_byte = ground arith;
      high_byte = ground arith;
      half = ground arith;
    }

-- Every cell of the page holds a byte.
abbrev pub IsBytes : FsmPage → Type 0
IsBytes p = (k : ℕ) → p.bytes k < 256

pub change_page_status-IsBytes :
    (p : FsmPage) (i s : ℕ) → IsBytes p → s < 16 → IsBytes (change_page_status p i s)
unfolding change_page_status
change_page_status-IsBytes p i s h hs k =
    let t = halves_lem (p.bytes (i / 2)) s (h (i / 2)) hs in
    ground (arith, h k, t.low_byte, t.high_byte)

pub get_page_status-lt : (p : FsmPage) (i : ℕ) → IsBytes p → get_page_status p i < 16
unfolding get_page_status
get_page_status-lt p i h =
    let t = halves_lem (p.bytes (i / 2)) 0 (h (i / 2)) (omega arith) in
    ground (arith, h (i / 2), t.half)

-- A changed level is read back, and the level of every other page is as before, also that of the
-- page that shares the byte.
pub get-change :
    (p : FsmPage) (i s j : ℕ)
    → IsBytes p
    → s < 16
    → get_page_status (change_page_status p i s) j ≡ (if j == i then s else get_page_status p j)
unfolding change_page_status get_page_status
get-change p i s j h hs =
    let t = halves_lem (p.bytes (i / 2)) s (h (i / 2)) hs in
    ground (arith, t.low_low, t.low_high, t.high_high, t.high_low)
