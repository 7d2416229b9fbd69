-- ===== src/Common/Buffers.antt =====
-- What the containers rely on of the buffers of mem.c: `ci_buffer_alloc` and `ci_buffer_realloc`
-- return a block with as many usable bytes as are asked for, or nothing, and a block that grows
-- keeps its bytes. What fresh bytes hold is left open.
use Prim.Native.Nat.{ℕ, ◌≤◌}
use mathlib.Core.Path.{◌≡◌}
use mathlib.Core.Option.{Option, some}
use mathlib.Core.List.{List}
use c_icap_server.Common.Lists.{length, take}

pub record Allocator : Type 0 where
  pub alloc : ℕ → Option (List ℕ)
  pub realloc : List ℕ → ℕ → Option (List ℕ)
  pub length-alloc : (n : ℕ) (buf : List ℕ) → alloc n ≡ some buf → length buf ≡ n
  pub length-realloc :
      (old : List ℕ) (n : ℕ) (buf : List ℕ) → realloc old n ≡ some buf → length buf ≡ n
  pub realloc-keeps :
      (old : List ℕ) (n : ℕ) (buf : List ℕ)
      → realloc old n ≡ some buf
      → length old ≤ n
      → take (length old) buf ≡ old
