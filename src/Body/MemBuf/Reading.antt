-- ===== src/Body/MemBuf/Reading.antt =====
-- `ci_membuf_read`, the lock, `ci_membuf_truncate` and `ci_membuf_from_content`.
use c_icap_server.Common.{
  ℕ, zero, suc, ◌+◌, ◌-◌, ◌%◌, ◌^◌, ◌≤◌, ◌<◌, min, max, ◌≡◌, ◌↔◌, ◌≢◌, refl, sym, ap, ◌∙◌, true,
  false, ◌&&◌, [], ◌++◌, ◌⊎◌, inl, inr, ltb, leb, ◌==◌, if◌then◌else◌, length, take, get_elem?-none,
  get_elem?-some, get_elem?, get_elem?-set_self, set, Bool, Option, Bytes, slice, none, some,
  Bool-cases, length-set, slice-append, slice-zero, take-slice, slice-set_after, length-slice,
  arith,
}
use c_icap_server.Body.MemBuf.{
  Membuf, Flags, fault, foreign, terminated_content, membuf_from_content, Read, eof, got, remains,
  membuf_read, membuf_truncate,
}
use c_icap_server.Body.MemBuf.Writing.{contents, IsValid}

-- The bytes not read yet.
unfoldable pub unread : Membuf → Bytes
unread b = slice b.buf b.readpos (b.endpos - b.readpos)

-- A lock that stands inside the body, as `ci_membuf_read` asserts.
abbrev pub IsLockedInside : Membuf → Type 0
IsLockedInside b = b.flags.locked ≡ true → b.unlocked ≤ b.endpos

remains-le : (b : Membuf) → IsLockedInside b → b.readpos + remains b ≤ max b.readpos b.endpos
unfolding remains
remains-le b lock = ground (arith, lock)

-- As many bytes as are asked for, out of the unread ones, or out of those before the lock.
abbrev pub Allowed : Membuf → ℕ → ℕ → Type 0
Allowed b len n =
    ((b.flags.locked ≡ false) × (n ≡ min len (b.endpos - b.readpos)))
    ⊎ ((b.flags.locked ≡ true) × (n ≡ min len (b.unlocked - b.readpos)))

remains-Allowed : (b : Membuf) (len n : ℕ) → n ≡ min len (remains b) → Allowed b len n
unfolding remains
remains-Allowed b len n e = elim (Bool-cases b.flags.locked) [
  | inl l ↦ inr (l, ground (arith, l))
  | inr l ↦ inl (l, ground (arith, l))
]

-- What `ci_membuf_read` returns, on every branch.
pub data Reads (b : Membuf) (len : ℕ) : Membuf → Read → Type 0 where
  at_eof : b.flags.has_eof ≡ true → unread b ≡ [] → Reads b len b eof
  some_bytes :
      {b' : Membuf} {xs : Bytes}
      → IsValid b'
      → contents b' ≡ contents b
      → unread b ≡ xs ++ unread b'
      → b'.readpos ≡ b.readpos + length xs
      → Allowed b len (length xs)
      → (b.flags.has_eof ≡ false) ⊎ (unread b ≢ [])
      → Reads b len b' (got xs)

unread-some :
    (b : Membuf)
    → IsValid b
    → ((b.readpos == b.endpos) && b.flags.has_eof) ≡ false
    → (b.flags.has_eof ≡ false) ⊎ (unread b ≢ [])
unfolding unread
unread-some b v e = elim (Bool-cases b.flags.has_eof) [
  | inr open_ ↦ inl open_
  | inl closed ↦ inr λ h.
      let len = length-slice b.buf b.readpos (b.endpos - b.readpos) (omega arith) in
      let gone : b.endpos - b.readpos ≡ 0 = sym len ∙ ap length h in absurd (ground arith)
]

-- `ci_membuf_read` returns `CI_EOF` only at the end of a finished body. Otherwise it returns the
-- next unread bytes, as many as are asked for and there are, in a locked body as many as there are
-- before the unlocked offset. It moves the read position by as much, and keeps the body well
-- formed and its contents.
pub membuf_read-Reads :
    (b : Membuf) (len : ℕ)
    → IsValid b
    → IsLockedInside b
    → Reads b len (membuf_read b len).0 (membuf_read b len).1
unfolding membuf_read unread contents
membuf_read-Reads b len v lock =
    let n = if leb len (remains b) then len else remains b in
    let count : n ≡ min len (remains b) = ground arith in
    let le = remains-le b lock in
    elim (Bool-cases ((b.readpos == b.endpos) && b.flags.has_eof)) [
      | inl e ↦
          let none_left : b.endpos - b.readpos ≡ 0 = ground arith in
          rw e (at_eof (ground arith) (rw none_left (slice-zero b.buf b.readpos)))
      | inr e ↦ simp e (
          some_bytes (record { cells = v.cells; read_in = omega arith; end_in = v.end_in }) refl
            (sym (
              slice-append b.buf b.readpos n (b.readpos + n) (b.endpos - (b.readpos + n))
                (b.endpos - b.readpos) refl (omega arith)))
            (ap (λ k. b.readpos + k) (sym (length-slice b.buf b.readpos n (omega arith))))
            (remains-Allowed b len (length (slice b.buf b.readpos n))
              (length-slice b.buf b.readpos n (omega arith) ∙ count))
            (unread-some b v e))
    ]

-- A reader never passes the lock: while a body is locked, a read leaves the read position at or
-- before the unlocked offset, or where it was.
pub membuf_read-locked :
    (b : Membuf) (len : ℕ)
    → b.flags.locked ≡ true
    → (membuf_read b len).0.readpos ≤ max b.readpos b.unlocked
unfolding membuf_read remains
membuf_read-locked b len h = ground arith

-- The result of `ci_membuf_truncate`, with its terminator if the body has one.
pub record Cut (b b' : Membuf) (new_size : ℕ) : Type 0 where
  pub valid : IsValid b'
  pub shorter : contents b' ≡ take new_size (contents b)
  pub read_at : b'.readpos ≡ min b.readpos new_size
  pub lock_at : b'.unlocked ≡ min b.unlocked new_size
  pub same_flags : b'.flags ≡ b.flags
  pub ended :
      ((b.flags.null_terminated ≡ false) × (b'.buf ≡ b.buf))
      ⊎ ((b.flags.null_terminated ≡ true) × (get_elem? b'.buf new_size ≡ some 0))

truncated-Cut :
    (b : Membuf) (n : ℕ) (cells : Bytes)
    → IsValid b
    → n ≤ b.endpos
    → length cells ≡ b.bufsize
    → slice cells 0 n ≡ slice b.buf 0 n
    → ((b.flags.null_terminated ≡ false) × (cells ≡ b.buf))
      ⊎ ((b.flags.null_terminated ≡ true) × (get_elem? cells n ≡ some 0))
    → Cut b
        (record b {
          endpos = n;
          readpos = if ltb n b.readpos then n else b.readpos;
          unlocked = if ltb n b.unlocked then n else b.unlocked;
          buf = cells;
        })
        n
unfolding contents
truncated-Cut b n cells v h size same ended = record {
  valid = ground arith;
  shorter = same ∙ sym (take-slice b.buf 0 n b.endpos h);
  read_at = ground arith;
  lock_at = ground arith;
  same_flags = refl;
  ended = ended;
}

-- The new end has a cell for the terminator, if there is to be one.
abbrev pub HasPlace : Membuf → ℕ → Type 0
HasPlace b n = (b.flags.null_terminated ≡ false) ⊎ (n < b.bufsize)

-- The outcomes of `ci_membuf_truncate`; no two of them are possible for the same body and size.
pub data Truncates (b : Membuf) (n : ℕ) : Option (Membuf × Bool) → Type 0 where
  refused : b.endpos < n → Truncates b n (some (b, false))
  cut : {b' : Membuf} → n ≤ b.endpos → HasPlace b n → Cut b b' n → Truncates b n (some (b', true))
  overrun : n ≤ b.endpos → b.flags.null_terminated ≡ true → n ≡ b.bufsize → Truncates b n none

-- `ci_membuf_truncate` refuses to make a body longer and then changes nothing. Where the body has
-- no terminator, or there is a cell for it, it keeps the first bytes, with the terminator behind
-- them, and moves the read position and the lock back to the new end if they are behind it. A
-- terminator that has no cell is written behind the buffer.
pub membuf_truncate_lem :
    (b : Membuf) (new_size : ℕ) → IsValid b → Truncates b new_size (membuf_truncate b new_size)
unfolding membuf_truncate
membuf_truncate_lem b n v = elim (Bool-cases (ltb b.endpos n)) [
  | inl e ↦ rw e (refused (ground arith))
  | inr e ↦ elim (Bool-cases b.flags.null_terminated) [
    | inr plain ↦
        simp (e, plain)
          (cut (ground arith) (inl plain)
            (truncated-Cut b n b.buf v (ground arith) v.cells refl (inl (plain, refl))))
    | inl ended ↦ elim (Bool-cases (ltb n (length b.buf))) [
      | inr no_place ↦ simp (e, ended, no_place) (overrun (ground arith) ended (ground arith))
      | inl place ↦
          simp (e, ended, place)
            (cut (ground arith) (inr (ground arith)) (
              truncated-Cut b n (set b.buf n 0) v (ground arith) (length-set b.buf n 0 ∙ v.cells)
                (slice-set_after b.buf n 0 0 n (omega arith))
                (inr (ended, get_elem?-set_self b.buf n 0 (ground arith)))))
    ]
  ]
]

terminated-fault :
    (buf : Bytes) (n : ℕ) (flags : Flags)
    → n ≤ length buf
    → length buf < 2 ^ 31
    → 0 < length buf
    → (terminated_content buf n flags ≡ fault) ↔ (n ≡ 0)
unfolding terminated_content foreign
terminated-fault buf zero flags le small pos =
    let out = get_elem?-none buf (2 ^ 64 - 1) (omega arith) in
    (λ _. refl, λ _. rw (terminated_content, out))
terminated-fault buf (suc n) flags le small pos =
    let e : (suc n + 2 ^ 64 - 1) % 2 ^ 64 ≡ n = omega arith in
    let (last, here) = get_elem?-some buf n (omega arith) in
    (λ h. absurd (ground (arith, e, here)), λ h. absurd (omega arith))

-- `ci_membuf_from_content` reads outside the caller's buffer exactly when an empty content is to be
-- null-terminated.
pub from_content-fault :
    (buf : Bytes) (n : ℕ) (flags : Flags)
    → length buf < 2 ^ 31
    → (membuf_from_content buf n flags ≡ fault) ↔ (
        (n ≡ 0)
        × (buf ≢ [])
        × (flags.null_terminated ≡ true)
        × (flags.foreign_buf ≡ false)
        × (flags.locked ≡ false))
unfolding membuf_from_content
from_content-fault buf n flags small =
    (ground (arith, terminated-fault buf n flags), ground (arith, terminated-fault buf n flags))
