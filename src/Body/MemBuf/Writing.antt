-- ===== src/Body/MemBuf/Writing.antt =====
-- `ci_membuf_write`: bounds, contents and terminator on every branch.
use c_icap_server.Common.{
  ℕ, ◌+◌, ◌-◌, ◌≤◌, ◌<◌, ◌≡◌, refl, sym, ap, ◌∙◌, Bool, true, false, ◌||◌, [], ◌∷◌, ◌++◌, ◌⊎◌, inl,
  inr, append-nil, ltb, ◌==◌, if◌then◌else◌, length, take, get_elem?, Bytes, memcpy, slice,
  slice-take, slice-set_after, get_elem?-set_self, none, some, Option-cases, Bool-cases, Allocator,
  length-set, length-memcpy, slice-memcpy_extend, memcpy-nil, take_all, arith,
}
use c_icap_server.Body.MemBuf.{Membuf, store, ensure_space, terminator, mark_eof, membuf_write}

-- The bytes written so far.
unfoldable pub contents : Membuf → Bytes
contents b = slice b.buf 0 b.endpos

pub record IsValid (b : Membuf) : Type 0 where
  pub cells : length b.buf ≡ b.bufsize
  pub read_in : b.readpos ≤ b.endpos
  pub end_in : b.endpos ≤ b.bufsize

-- A grown buffer has the space, and holds the same bytes at the same offsets.
pub record Grown (b b' : Membuf) (space : ℕ) : Type 0 where
  pub valid : IsValid b'
  pub same_end : b'.endpos ≡ b.endpos
  pub same_read : b'.readpos ≡ b.readpos
  pub same_unlocked : b'.unlocked ≡ b.unlocked
  pub same_flags : b'.flags ≡ b.flags
  pub enough : b.endpos + space ≤ b'.bufsize
  pub same : contents b' ≡ contents b

-- A block that grew holds the body at the same place.
realloc-contents :
    (a : Allocator) (old cells : Bytes) (n k : ℕ)
    → a.realloc old n ≡ some cells
    → length old ≤ n
    → k ≤ length old
    → slice cells 0 k ≡ slice old 0 k
realloc-contents a old cells n k h le fits =
    sym (
      slice-take (length old) cells 0 k (omega arith)
        (omega (arith, a.length-realloc old n cells h)))
    ∙ ap (λ xs. slice xs 0 k) (a.realloc-keeps old n cells h le)

ensure_space-Grown :
    (a : Allocator) (b b' : Membuf) (len : ℕ)
    → IsValid b
    → ensure_space a b len ≡ some b'
    → Grown b b' (len + terminator b)
unfolding ensure_space contents
ensure_space-Grown a b b' len v h =
    let space = b.bufsize - b.endpos in
    let required = len + terminator b in
    let size = b.bufsize + ((if ltb required 4096 then 4096 else required) - space) in
    elim (Bool-cases (ltb space required)) [
      | inr e ↦ ground arith
      | inl e ↦ elim (Option-cases (a.realloc b.buf size)) [
        | inl f ↦ absurd (ground arith)
        | inr (cells, f) ↦
            ground (
              arith,
              a.length-realloc b.buf size cells,
              realloc-contents a b.buf cells size b.endpos,
            )
      ]
    ]

-- Bytes that fit, with their terminator, are appended.
pub record Stored (b b' : Membuf) (bytes : Bytes) : Type 0 where
  pub valid : IsValid b'
  pub same_read : b'.readpos ≡ b.readpos
  pub same_flags : b'.flags ≡ b.flags
  pub appended : contents b' ≡ contents b ++ bytes
  pub ended :
      b.flags.null_terminated ≡ true
      → (b'.endpos < b'.bufsize) × (get_elem? b'.buf b'.endpos ≡ some 0)

-- The guard `if (len)` changes nothing.
copy-memcpy :
    (buf : Bytes) (pos : ℕ) (bytes : Bytes)
    → (if length bytes == 0 then buf else memcpy buf pos bytes) ≡ memcpy buf pos bytes
copy-memcpy buf pos [] = sym (memcpy-nil buf pos)
copy-memcpy buf pos (x ∷ xs) = ground arith

store-Stored :
    (b : Membuf) (bytes : Bytes)
    → IsValid b
    → b.endpos + (length bytes + terminator b) ≤ b.bufsize
    → Stored b (store b bytes) bytes
unfolding store contents
store-Stored b bytes v fits =
    let end = b.endpos + length bytes in
    let cells = memcpy b.buf b.endpos bytes in
    let lemma₁ = length-memcpy b.buf b.endpos bytes (omega arith) in
    let lemma₂ =
      slice-memcpy_extend b.buf b.endpos bytes 0 b.endpos end (omega arith) (omega arith) refl in
    rw (copy-memcpy b.buf b.endpos bytes) (
      ground (
        arith,
        lemma₁,
        lemma₂,
        length-set cells end 0,
        slice-set_after cells end 0 0 end,
        get_elem?-set_self cells end 0,
      ))

-- The result of a write.
pub record Outcome (b b' : Membuf) (bytes : Bytes) (n : ℕ) : Type 0 where
  pub valid : IsValid b'
  pub same_read : b'.readpos ≡ b.readpos
  pub count : (n ≡ 0) ⊎ (n ≡ length bytes)
  pub appended : contents b' ≡ contents b ++ take n bytes
  pub ended :
      b.flags.null_terminated ≡ true
      → 0 < n
      → (b'.endpos < b'.bufsize) × (get_elem? b'.buf b'.endpos ≡ some 0)

mark_eof-same :
    (b : Membuf) (iseof : Bool)
    → IsValid b
    → IsValid (mark_eof b iseof)
      × (contents (mark_eof b iseof) ≡ contents b)
      × ((mark_eof b iseof).readpos ≡ b.readpos)
      × ((mark_eof b iseof).flags.null_terminated ≡ b.flags.null_terminated)
unfolding contents
mark_eof-same b true v =
    (record { cells = v.cells; read_in = v.read_in; end_in = v.end_in }, refl, refl, refl)
mark_eof-same b false v = (v, refl, refl, refl)

refused :
    (b : Membuf) (iseof : Bool) (bytes : Bytes) → IsValid b → Outcome b (mark_eof b iseof) bytes 0
refused b iseof bytes v =
    let (valid, same, read, mode) = mark_eof-same b iseof v in
    record {
      valid = valid;
      same_read = read;
      count = inl refl;
      appended = same ∙ sym (append-nil (contents b));
      ended = λ t pos. absurd (omega arith);
    }

grown_stored :
    (a : Allocator) (b m b' : Membuf) (bytes : Bytes)
    → IsValid m
    → contents m ≡ contents b
    → m.readpos ≡ b.readpos
    → m.flags.null_terminated ≡ b.flags.null_terminated
    → ensure_space a m (length bytes) ≡ some b'
    → Outcome b (store b' bytes) bytes (length bytes)
grown_stored a b m b' bytes v same read mode h =
    let g = ensure_space-Grown a m b' (length bytes) v h in
    let s = store-Stored b' bytes g.valid (ground (arith, g.enough, g.same_end, g.same_flags)) in
    record {
      valid = s.valid;
      same_read = s.same_read ∙ g.same_read ∙ read;
      count = inr refl;
      appended =
          s.appended
          ∙ ap (λ xs. xs ++ bytes) (g.same ∙ same)
          ∙ ap (λ xs. contents b ++ xs) (sym (take_all (length bytes) bytes (omega arith)));
      ended = λ t pos. s.ended (ground (arith, g.same_flags));
    }

-- `ci_membuf_write`, on every branch: the buffer stays well formed and its read position stays; it
-- returns 0 and keeps the contents, or returns the whole length and appends the bytes; and if it
-- is kept null-terminated and took bytes, the terminator stands inside it, right behind the body.
pub membuf_write-Outcome :
    (a : Allocator) (b : Membuf) (bytes : Bytes) (iseof : Bool)
    → IsValid b
    → Outcome b (membuf_write a b bytes iseof).0 bytes (membuf_write a b bytes iseof).1
unfolding membuf_write
membuf_write-Outcome a b bytes iseof v =
    let (valid, same, read, mode) = mark_eof-same b iseof v in
    elim (Bool-cases (b.flags.ro || b.flags.const)) [
      | inl e ↦ rw e (refused b false bytes v)
      | inr e ↦ elim (Bool-cases b.flags.has_eof) [
        | inl f ↦ rw e (simp f (refused b false bytes v))
        | inr f ↦ elim (Option-cases (ensure_space a (mark_eof b iseof) (length bytes))) [
          | inl h ↦ rw e (simp (f, h) (refused b iseof bytes v))
          | inr (b', h) ↦
              rw e
                (simp (f, h) (grown_stored a b (mark_eof b iseof) b' bytes valid same read mode h))
        ]
      ]
    ]

-- A last write for which the buffer cannot grow returns 0 and yet closes the body: its bytes are
-- lost, and every later write is refused.
pub membuf_write_lost :
    (a : Allocator) (b : Membuf) (bytes more : Bytes) (iseof : Bool)
    → b.flags.ro ≡ false
    → b.flags.const ≡ false
    → b.flags.has_eof ≡ false
    → ensure_space a (mark_eof b true) (length bytes) ≡ none
    → ((membuf_write a b bytes true).1 ≡ 0)
      × (contents (membuf_write a b bytes true).0 ≡ contents b)
      × (membuf_write a (membuf_write a b bytes true).0 more iseof
          ≡ ((membuf_write a b bytes true).0, 0))
unfolding membuf_write contents
membuf_write_lost a b bytes more iseof ro const open_ h = ground arith
