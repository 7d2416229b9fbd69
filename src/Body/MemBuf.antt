-- ===== src/Body/MemBuf.antt =====
-- body.c, `ci_membuf_t`: a body in memory that grows as it is written. The bits of `flags` are the
-- fields of `Flags`; the attributes array is left out, no operation here reads it. Lengths stay
-- below 2 ^ 31, so that the `int` results are exact and no `size_t` sum wraps around.
pub mod Writing
pub mod Reading
use c_icap_server.Common.{
  ℕ, ◌+◌, ◌-◌, ◌%◌, ◌^◌, Bool, true, false, ◌&&◌, ◌||◌, Option, none, some, ltb, leb, ◌==◌,
  if◌then◌else◌, length, get_elem?, set, Bytes, memcpy, slice, Allocator,
}

pub record Flags : Type 0 where
  pub null_terminated : Bool
  pub has_eof : Bool
  pub ro : Bool
  pub const : Bool
  pub foreign_buf : Bool
  pub locked : Bool

pub record Membuf : Type 0 where
  pub endpos : ℕ
  pub readpos : ℕ
  pub bufsize : ℕ
  pub unlocked : ℕ
  pub flags : Flags
  pub buf : Bytes

abbrev pub no_flags : Flags
no_flags = record {
  null_terminated = false;
  has_eof = false;
  ro = false;
  const = false;
  foreign_buf = false;
  locked = false;
}

-- `INCSTEP`
abbrev pub inc_step : ℕ
inc_step = 4096

-- `ci_membuf_new_sized`, for a pool that has a free object.
unfoldable pub membuf_new_sized : Allocator → ℕ → Option Membuf
membuf_new_sized a size = elim (a.alloc size) [
  | none ↦ none
  | some cells ↦ some (record {
    endpos = 0;
    readpos = 0;
    bufsize = size;
    unlocked = 0;
    flags = no_flags;
    buf = cells;
  })
]

-- The result of `ci_membuf_from_content`; a `fault` is a read outside the caller's buffer.
pub data Built : Type 0 where
  built : Membuf → Built
  null : Built
  fault : Built

-- `ci_membuf_from_content` behind its tests on the arguments and on termination.
unfoldable pub foreign : Bytes → ℕ → Flags → Built
foreign buf content_size flags = built (record {
  endpos = content_size;
  readpos = 0;
  bufsize = length buf;
  unlocked = 0;
  flags = record flags { foreign_buf = true };
  buf = buf;
})

-- The test `buf[content_size - 1] == '\0'`, whose index wraps around at 0, and the one behind it.
unfoldable pub terminated_content : Bytes → ℕ → Flags → Built
unfolding foreign
terminated_content buf content_size flags =
    elim (get_elem? buf ((content_size + 2 ^ 64 - 1) % 2 ^ 64)) [
      | none ↦ fault
      | some last ↦
          if last == 0
          then foreign buf (content_size - 1) flags
          else elim (get_elem? buf content_size) [
            | none ↦ null
            | some next ↦ if next == 0 then foreign buf content_size flags else null
          ]
    ]

-- `buf_size` is the length of the caller's buffer.
unfoldable pub membuf_from_content : Bytes → ℕ → Flags → Built
unfolding terminated_content foreign
membuf_from_content buf content_size flags =
    if (length buf == 0) || ltb (length buf) content_size
    then null
    else if flags.foreign_buf || flags.locked
    then null
    else if flags.null_terminated
    then terminated_content buf content_size flags
    else foreign buf content_size flags

-- `ci_membuf_set_flag`: `false` is the result 0. The mask may hold further bits beside those that a
-- user may set, and they are set too.
unfoldable pub membuf_set_flag : Membuf → Flags → Membuf × Bool
membuf_set_flag b mask =
    let f = b.flags in
    if mask.null_terminated || mask.ro
    then (
      record b {
        flags = record {
          null_terminated = f.null_terminated || mask.null_terminated;
          has_eof = f.has_eof || mask.has_eof;
          ro = f.ro || mask.ro;
          const = f.const || mask.const;
          foreign_buf = f.foreign_buf || mask.foreign_buf;
          locked = f.locked || mask.locked;
        };
      },
      true,
    )
    else (b, false)

-- The end of `ci_membuf_write`: the copy and the terminator.
unfoldable pub store : Membuf → Bytes → Membuf
store b bytes =
    let end = b.endpos + length bytes in
    let cells = if length bytes == 0 then b.buf else memcpy b.buf b.endpos bytes in
    record b { endpos = end; buf = if b.flags.null_terminated then set cells end 0 else cells }

abbrev pub terminator : Membuf → ℕ
terminator b = if b.flags.null_terminated then 1 else 0

-- The middle of `ci_membuf_write`: the buffer grows by at least `INCSTEP` where it lacks space.
unfoldable pub ensure_space : Allocator → Membuf → ℕ → Option Membuf
ensure_space a b len =
    let has_space = b.bufsize - b.endpos in
    let required = len + terminator b in
    let newsize =
      b.bufsize + ((if ltb required inc_step then inc_step else required) - has_space) in
    if ltb has_space required
    then elim (a.realloc b.buf newsize) [
      | none ↦ none
      | some cells ↦ some (record b { buf = cells; bufsize = newsize })
    ]
    else some b

abbrev pub mark_eof : Membuf → Bool → Membuf
mark_eof b iseof = if iseof then record b { flags = record (b.flags) { has_eof = true } } else b

-- `ci_membuf_write` returns the new buffer and the `int` result.
unfoldable pub membuf_write : Allocator → Membuf → Bytes → Bool → Membuf × ℕ
membuf_write a b bytes iseof =
    if b.flags.ro || b.flags.const
    then (b, 0)
    else if b.flags.has_eof
    then (b, 0)
    else elim (ensure_space a (mark_eof b iseof) (length bytes)) [
      | none ↦ (mark_eof b iseof, 0)
      | some b' ↦ (store b' bytes, length bytes)
    ]

-- `CI_EOF`, or the bytes that were copied out.
pub data Read : Type 0 where
  eof : Read
  got : Bytes → Read

-- The bytes that a reader may have: up to the lock, or up to the end.
unfoldable pub remains : Membuf → ℕ
remains b =
    if b.flags.locked
    then if ltb b.readpos b.unlocked then b.unlocked - b.readpos else 0
    else b.endpos - b.readpos

unfoldable pub membuf_read : Membuf → ℕ → Membuf × Read
membuf_read b len =
    let n = if leb len (remains b) then len else remains b in
    if (b.readpos == b.endpos) && b.flags.has_eof
    then (b, eof)
    else (record b { readpos = b.readpos + n }, got (slice b.buf b.readpos n))

-- `ci_membuf_truncate`: `false` is the result 0. The terminator is written where the body ends, and
-- a `none` is such a write behind the end of the buffer.
unfoldable pub membuf_truncate : Membuf → ℕ → Option (Membuf × Bool)
membuf_truncate b new_size =
    let cut = record b {
      endpos = new_size;
      readpos = if ltb new_size b.readpos then new_size else b.readpos;
      unlocked = if ltb new_size b.unlocked then new_size else b.unlocked;
    } in
    if ltb b.endpos new_size
    then some (b, false)
    else if b.flags.null_terminated
    then if ltb new_size (length b.buf)
      then some (record cut { buf = set b.buf new_size 0 }, true)
      else none
    else some (cut, true)

unfoldable pub membuf_lock_all : Membuf → Membuf
membuf_lock_all b = record b { flags = record (b.flags) { locked = true }; unlocked = 0 }

unfoldable pub membuf_unlock : Membuf → ℕ → Membuf
membuf_unlock b len = record b { unlocked = if ltb len b.readpos then b.readpos else len }

unfoldable pub membuf_unlock_all : Membuf → Membuf
membuf_unlock_all b = record b { flags = record (b.flags) { locked = false }; unlocked = 0 }
