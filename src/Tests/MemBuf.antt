-- ===== src/Tests/MemBuf.antt =====
-- `ci_membuf_t` at concrete inputs.
use c_icap_server.Common.{
  ℕ, ◌≤◌, ◌≡◌, ◌≢◌, ◌↔◌, refl, true, false, Option, none, some, List, [], ◌∷◌, ◌++◌, length, take,
  replicate, codes, slice, Allocator, length-replicate, length-append, length-take, take-append_le,
  take-take, take_all, arith,
}
use c_icap_server.Body.MemBuf.{
  Membuf, no_flags, membuf_write, membuf_read, membuf_truncate, membuf_from_content, fault,
  ensure_space, remains, got,
}
use c_icap_server.Body.MemBuf.Writing.{
  contents, IsValid, Outcome, membuf_write-Outcome, membuf_write_lost,
}
use c_icap_server.Body.MemBuf.Reading.{
  Reads, Truncates, membuf_read-Reads, membuf_truncate_lem, from_content-fault,
}

pub zeroed : ℕ → Option (List ℕ)
zeroed n = some (replicate n 0)

pub grown : List ℕ → ℕ → Option (List ℕ)
grown old n = some (take n (old ++ replicate n 0))

pub length-zeroed : (n : ℕ) (buf : List ℕ) → zeroed n ≡ some buf → length buf ≡ n
unfolding zeroed
length-zeroed n buf h = ground (arith, length-replicate {A = ℕ} n 0)

pub length-grown : (old : List ℕ) (n : ℕ) (buf : List ℕ) → grown old n ≡ some buf → length buf ≡ n
unfolding grown
length-grown old n buf h = ground (
  arith,
  length-take n (old ++ replicate n 0),
  length-append old (replicate n 0),
  length-replicate {A = ℕ} n 0,
)

pub grown-keeps :
    (old : List ℕ) (n : ℕ) (buf : List ℕ)
    → grown old n ≡ some buf
    → length old ≤ n
    → take (length old) buf ≡ old
unfolding grown
grown-keeps old n buf h le = ground (
  arith,
  take-take (length old) n (old ++ replicate n 0),
  take-append_le (length old) old (replicate n 0),
  take_all (length old) old,
)

never-length : (n : ℕ) (buf : List ℕ) → none ≡ some buf → length buf ≡ n
never-length n buf h = cc

never-keeps : (old buf : List ℕ) → none ≡ some buf → take (length old) buf ≡ old
never-keeps old buf h = cc

-- An allocator that never fails, and one that cannot grow a block.
abbrev pub heap : Allocator
heap = record {
  alloc = zeroed;
  realloc = grown;
  length-alloc = length-zeroed;
  length-realloc = length-grown;
  realloc-keeps = grown-keeps;
}

abbrev fixed_heap : Allocator
fixed_heap = record {
  alloc = zeroed;
  realloc = λ old n. none;
  length-alloc = length-zeroed;
  length-realloc = λ old n buf h. never-length n buf h;
  realloc-keeps = λ old n buf h le. never-keeps old buf h;
}

-- A body of three bytes, one of them read, in a buffer of four, kept null-terminated.
abbrev sample : Membuf
sample = record {
  endpos = 3;
  readpos = 1;
  bufsize = 4;
  unlocked = 0;
  flags = record no_flags { null_terminated = true };
  buf = codes "abc" ++ 0 ∷ [];
}

sample-IsValid : IsValid sample
sample-IsValid = record { cells = refl; read_in = omega arith; end_in = omega arith }

membuf_write_example :
    Outcome sample
      (membuf_write heap sample (codes "def") true).0
      (codes "def")
      (membuf_write heap sample (codes "def") true).1
membuf_write_example = membuf_write-Outcome heap sample (codes "def") true sample-IsValid

membuf_write_lost_example :
    ((membuf_write fixed_heap sample (codes "def") true).1 ≡ 0)
    × (contents (membuf_write fixed_heap sample (codes "def") true).0 ≡ contents sample)
    × (membuf_write fixed_heap (membuf_write fixed_heap sample (codes "def") true).0 [] false
        ≡ ((membuf_write fixed_heap sample (codes "def") true).0, 0))
unfolding ensure_space
membuf_write_lost_example =
    membuf_write_lost fixed_heap sample (codes "def") [] false refl refl refl refl

membuf_read_example : Reads sample 5 (membuf_read sample 5).0 (membuf_read sample 5).1
membuf_read_example = membuf_read-Reads sample 5 sample-IsValid (λ h. cc)

membuf_read_run : (membuf_read sample 5).1 ≡ got (codes "bc")
unfolding membuf_read remains slice
membuf_read_run = refl

abbrev locked_sample : Membuf
locked_sample = record sample { unlocked = 2; flags = record no_flags { locked = true } }

membuf_truncate_example : Truncates sample 2 (membuf_truncate sample 2)
membuf_truncate_example = membuf_truncate_lem sample 2 sample-IsValid

from_content-fault_example :
    (membuf_from_content (codes "ab") 0 (record no_flags { null_terminated = true }) ≡ fault)
    ↔ ((◌≡◌ {A = ℕ} 0 0) × (codes "ab" ≢ []) × (true ≡ true) × (false ≡ false) × (false ≡ false))
from_content-fault_example =
    from_content-fault (codes "ab") 0 (record no_flags { null_terminated = true }) (omega arith)
