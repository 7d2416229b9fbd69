-- ===== src/Header/Copying.antt =====
-- New lists of headers: `ci_headers_create2` and `ci_headers_clone`.
use c_icap_server.Common.{
  ℕ, ◌+◌, ◌≤◌, ◌<◌, ◌≡◌, refl, ap, ◌∙◌, Bool, true, false, ◌&&◌, Option, none, some, List, [], ◌++◌,
  ltb, if◌then◌else◌, length, take, take-append_le, take_all, drop, Bytes, memcpy, length-memcpy,
  Allocator, arith,
}
use c_icap_server.Header.{Headers, Checked, done, assertion, fault, ◌>>=◌}
use c_icap_server.Header.Lines.{text_of, IsHeaders}

-- `ci_headers_create2`, with whether the struct and the index are allocated.
unfoldable pub headers_create : Allocator → Bool → ℕ → ℕ → Checked (Option Headers)
headers_create a room num buf_size =
    if ltb 0 buf_size && ltb 0 num
    then done (
        if room
        then elim (a.alloc buf_size) [
          | none ↦ none
          | some cells ↦ some (record {
            size = num;
            headers = [];
            bufsize = buf_size;
            bufused = 0;
            buf = cells;
            packed = false;
          })
        ]
        else none)
    else assertion

-- `ci_headers_clone`: a list that is not allocated is used all the same.
unfoldable pub headers_clone : Allocator → Bool → Headers → Checked Headers
unfolding headers_create
headers_clone a room h = headers_create a room h.size h.bufsize >>= λ o. elim o [
  | none ↦ fault
  | some c ↦ done (record c {
    buf = memcpy c.buf 0 (take h.bufused h.buf);
    bufused = h.bufused;
    packed = h.packed;
    headers = h.headers;
  })
]

-- A list that was created is empty.
pub headers_create-IsHeaders :
    (a : Allocator) (num buf_size : ℕ) (cells : Bytes)
    → 0 < num
    → 0 < buf_size
    → a.alloc buf_size ≡ some cells
    → (h : Headers) × (headers_create a true num buf_size ≡ done (some h)) × IsHeaders h []
unfolding headers_create
headers_create-IsHeaders a num buf_size cells n b e =
    let test : (ltb 0 buf_size && ltb 0 num) ≡ true = ground arith in
    (
      record {
        size = num;
        headers = [];
        bufsize = buf_size;
        bufused = 0;
        buf = cells;
        packed = false;
      },
      rw (test, e) refl,
      record {
        rest = cells;
        text = refl;
        used = refl;
        index = refl;
        cells = a.length-alloc buf_size cells e;
        room = omega arith;
        spare = b;
        edit = refl;
      },
    )

pub used_text : (h : Headers) (ls : List Bytes) → IsHeaders h ls → take h.bufused h.buf ≡ text_of ls
used_text h ls v =
    ap (take h.bufused) v.text
    ∙ take-append_le h.bufused (text_of ls) v.rest (omega (arith, v.used))
    ∙ take_all h.bufused (text_of ls) (omega (arith, v.used))

-- What a copy comes to.
abbrev pub Copies : List Bytes → Checked Headers → Type 0
Copies ls (done h) = IsHeaders h ls
Copies ls assertion = ⊥
Copies ls fault = ⊥

-- A clone has the same lines, if its buffer is allocated.
pub headers_clone-Copies :
    (a : Allocator) (h : Headers) (ls : List Bytes) (cells : Bytes)
    → IsHeaders h ls
    → 0 < h.size
    → a.alloc h.bufsize ≡ some cells
    → Copies ls (headers_clone a true h)
unfolding headers_clone headers_create memcpy
headers_clone-Copies a h ls cells v n e =
    let test : (ltb 0 h.bufsize && ltb 0 h.size) ≡ true = ground (arith, v.spare) in
    let copied : memcpy cells 0 (take h.bufused h.buf)
        ≡ text_of ls ++ drop (length (text_of ls)) cells =
      ap (memcpy cells 0) (used_text h ls v) ∙ ap (λ i. text_of ls ++ drop i cells) (omega arith) in
    let fits : 0 + length (text_of ls) ≤ length cells =
      omega (arith, v.used, v.spare, a.length-alloc h.bufsize cells e) in
    rw (test, e)
      (record {
        rest = drop (length (text_of ls)) cells;
        text = copied;
        used = v.used;
        index = v.index;
        cells =
            ap (λ xs. length (memcpy cells 0 xs)) (used_text h ls v)
            ∙ length-memcpy cells 0 (text_of ls) fits
            ∙ a.length-alloc h.bufsize cells e;
        room = v.room;
        spare = v.spare;
        edit = v.edit;
      })
