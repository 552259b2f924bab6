-- ===== src/Machine.antt =====
-- The machine that the Rust code runs on: outcomes of a run, and the integer operations that may
-- overflow. `checked` is a build with overflow checks (the dev profile of Cargo.toml), `wrapping`
-- one without (the release profile).
pub mod Ensures
pub mod Certain
pub mod Stateful
use vulkan_cocoa_core.Common.{ℕ, ◌+◌, ◌-◌, ◌*◌, ◌%◌, ◌^◌, Bool, leb, ltb, if◌then◌else◌}

pub data Build : Type 0 where
  checked wrapping : Build

-- Why a thread panics.
pub data Panic : Type 0 where
  add_overflow subtract_overflow shift_overflow : Panic
  index_out_of_bounds capacity_overflow unwrap_failed assertion_failed : Panic

-- `ok` and `err` are the two sides of a `Result`. `out_of_fuel` has no counterpart in the program.
pub data Run (E A : Type 0) : Type 0 where
  ok : A → Run E A
  err : E → Run E A
  panic : Panic → Run E A
  out_of_fuel : Run E A

abbrev pub bind : {E A B : Type 0} → Run E A → (A → Run E B) → Run E B
bind (ok a) f = f a
bind (err e) f = err e
bind (panic p) f = panic p
bind out_of_fuel f = out_of_fuel

-- What an overflow does in each build.
abbrev pub overflow : {E A : Type 0} → Build → Panic → A → Run E A
overflow checked p a = panic p
overflow wrapping p a = ok a

-- `x - y` on `usize`, of 64 bits.
unfoldable pub usize_sub : {E : Type 0} → Build → ℕ → ℕ → Run E ℕ
usize_sub b x y = if leb y x then ok (x - y) else overflow b subtract_overflow (x + 2 ^ 64 - y)

-- `x - y` and `x + y` on `u32`.
unfoldable pub u32_sub : {E : Type 0} → Build → ℕ → ℕ → Run E ℕ
u32_sub b x y = if leb y x then ok (x - y) else overflow b subtract_overflow (x + 2 ^ 32 - y)

unfoldable pub u32_add : {E : Type 0} → Build → ℕ → ℕ → Run E ℕ
u32_add b x y =
    if ltb (x + y) (2 ^ 32) then ok (x + y) else overflow b add_overflow ((x + y) % 2 ^ 32)

-- `x + y` on `u64`.
unfoldable pub u64_add : {E : Type 0} → Build → ℕ → ℕ → Run E ℕ
u64_add b x y =
    if ltb (x + y) (2 ^ 64) then ok (x + y) else overflow b add_overflow ((x + y) % 2 ^ 64)

-- `v << i` on `u64`. Bits shifted out are lost; an amount from 64 on is an overflow, and the
-- wrapping shift takes it modulo 64.
unfoldable pub u64_shl : {E : Type 0} → Build → ℕ → ℕ → Run E ℕ
u64_shl b v i =
    if ltb i 64
    then ok (v * 2 ^ i % 2 ^ 64)
    else overflow b shift_overflow (v * 2 ^ (i % 64) % 2 ^ 64)

-- `v << i` on `u32`, as on `u64`.
unfoldable pub u32_shl : {E : Type 0} → Build → ℕ → ℕ → Run E ℕ
u32_shl b v i =
    if ltb i 32
    then ok (v * 2 ^ i % 2 ^ 32)
    else overflow b shift_overflow (v * 2 ^ (i % 32) % 2 ^ 32)

abbrev pub isize_max : ℕ
isize_max = 2 ^ 63 - 1

-- `Vec::with_capacity(n)` and `reserve` for `n` more elements of `size` bytes each.
unfoldable pub with_capacity : {E : Type 0} → ℕ → ℕ → Run E (Unit {0})
with_capacity n size = if leb (n * size) isize_max then ok tt else panic capacity_overflow
