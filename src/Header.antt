-- ===== src/Header.antt =====
-- header.c: `ci_headers_list_t`, the headers of a message in one buffer. A pointer into the buffer is
-- its offset, so that the index stays right when the buffer moves. In edit mode each header ends
-- with a NUL and a line feed, and the last one is followed by an empty line.
pub mod Lines
pub mod Editing
pub mod Appending
pub mod Search
pub mod Shortage
pub mod Closing
pub mod Moving
pub mod Removal
pub mod Values
pub mod Trimming
pub mod Sizes
pub mod Valued
pub mod Packing
pub mod Copying
pub mod Joining
pub mod Rows
pub mod Wire
pub mod Parsing
pub mod Scanning
pub mod Walking
pub mod Ends
pub mod Unpacking
pub mod Faults
use c_icap_server.Common.{
  ℕ, zero, suc, ◌+◌, ◌-◌, Bool, true, false, not, ◌&&◌, ◌||◌, Option, none, some, List, [], ◌∷◌,
  ◌++◌, ltb, leb, ◌==◌, if◌then◌else◌, map, length, get_elem?, get_or, set, take, drop, Bytes,
  memcpy, slice, Allocator,
}

-- `size` entries are allocated for the index, and `headers` has those in use.
pub record Headers : Type 0 where
  pub size : ℕ
  pub headers : List ℕ
  pub bufsize : ℕ
  pub bufused : ℕ
  pub buf : Bytes
  pub packed : Bool

-- What a function comes to: a result, an assertion that fails, or an access outside the buffer.
pub data Checked {ℓ} (A : Type ℓ) : Type ℓ where
  done : A → Checked A
  assertion : Checked A
  fault : Checked A

infixl 5 ◌>>=◌
abbrev pub ◌>>=◌ {ℓ κ} : {A : Type ℓ} {B : Type κ} → Checked A → (A → Checked B) → Checked B
done a >>= f = f a
assertion >>= f = assertion
fault >>= f = fault

abbrev pub header_start_size : ℕ
header_start_size = 64

abbrev pub heads_buf_size : ℕ
heads_buf_size = 4096

-- The end of a header in edit mode, and the empty line.
abbrev pub line_end : Bytes
line_end = 0 ∷ 10 ∷ []

abbrev pub empty_line : Bytes
empty_line = 13 ∷ 10 ∷ []

unfoldable pub headers_reset : Headers → Headers
headers_reset h = record h { packed = false; headers = []; bufused = 0 }

-- The space that the index needs; `none` above the limit.
unfoldable pub index_space : ℕ → ℕ → ℕ → ℕ → Option ℕ
index_space zero new_headers used required = none
index_space (suc fuel) new_headers used required =
    let next = required + header_start_size in
    let rest = index_space fuel new_headers used next in
    if ltb (required - used) new_headers
    then (if ltb 2048 next then none else rest)
    else some required

-- The space that the buffer needs.
unfoldable pub mem_space : ℕ → ℕ → ℕ → ℕ → ℕ
mem_space zero new_space bufused required = required
mem_space (suc fuel) new_space bufused required =
    let rest = mem_space fuel new_space bufused (required + heads_buf_size) in
    if ltb (required - bufused) (new_space + 4) then rest else required

-- The index gets the space, if it is allocated.
unfoldable pub grow_index : Bool → Headers → ℕ → Option Headers
grow_index room h required =
    if ltb h.size required
    then (if room then some (record h { size = required }) else none)
    else some h

unfoldable pub grow_buffer : Allocator → Headers → ℕ → Option Headers
grow_buffer a h required =
    if ltb h.bufsize required
    then elim (a.realloc h.buf required) [
      | none ↦ none
      | some cells ↦ some (record h { buf = cells; bufsize = required })
    ]
    else some h

-- `headers_check_space`, with whether an index is allocated: the list, and whether the space is
-- there. The fuel of the loops is the limit of the index and the space that is asked for.
unfoldable pub headers_check_space : Allocator → Bool → Headers → ℕ → ℕ → Headers × Bool
unfolding index_space mem_space grow_index grow_buffer
headers_check_space a room h new_headers new_space =
    elim (index_space 33 new_headers (length h.headers) h.size) [
      | none ↦ (h, false)
      | some size ↦ elim (grow_index room h size) [
        | none ↦ (h, false)
        | some h' ↦
            elim (grow_buffer a h' (mem_space (new_space + 5) new_space h'.bufused h'.bufsize)) [
              | none ↦ (h', false)
              | some h'' ↦ (h'', true)
            ]
      ]
    ]

-- The byte before the end of what is used, `k` bytes back.
abbrev pub back : Headers → ℕ → ℕ
back h k = get_or h.buf (h.bufused - k) 0

-- Whether the used bytes end with the end of a header and an empty line.
unfoldable pub ends_well : Headers → Bool
ends_well h =
    leb 4 h.bufused
    && ((back h 1 == 10)
        && ((back h 2 == 13) && ((back h 3 == 10) && ((back h 4 == 13) || (back h 4 == 0)))))

-- The used bytes without the line ends at their end; `none` if a byte before the buffer is read.
unfoldable pub strip_ends : Bytes → ℕ → Option ℕ
strip_ends buf zero = none
strip_ends buf (suc n) =
    let c = get_or buf n 0 in
    let rest = strip_ends buf n in
    if (c == 13) || ((c == 10) || (c == 0)) then rest else some (suc n)

-- `headers_terminate`; each caller asserts that it succeeds.
unfoldable pub headers_terminate : Headers → Checked Headers
unfolding ends_well strip_ends
headers_terminate h =
    if length h.headers == 0
    then done (record h { bufused = 0 })
    else if ends_well h
    then done h
    else elim (strip_ends h.buf h.bufused) [
      | none ↦ fault
      | some used ↦
          if ltb h.bufsize (used + 4)
          then assertion
          else done (record h {
            buf = memcpy h.buf used ((if h.packed then 13 else 0) ∷ 10 ∷ 13 ∷ 10 ∷ []);
            bufused = used + 4;
          })
    ]

-- The place of new headers: over the empty line, if there are headers.
unfoldable pub append_place : Headers → Checked ℕ
append_place h =
    if length h.headers == 0
    then (if h.bufused == 0 then done 0 else assertion)
    else if leb 4 h.bufused
    then done (h.bufused - 2)
    else assertion

-- A header is written at a place.
unfoldable pub put_line : Headers → Bytes → ℕ → Checked (Headers × Option ℕ)
put_line h line pos =
    let used = pos + length line + 4 in
    if leb used h.bufsize
    then done (
      record h {
        buf = memcpy (memcpy h.buf pos line) (pos + length line) (line_end ++ empty_line);
        bufused = used;
        headers = h.headers ++ (pos ∷ []);
      },
      some pos,
    )
    else assertion

-- `ci_headers_add`: the list, and the new header's place, or none for NULL.
unfoldable pub headers_add : Allocator → Bool → Headers → Bytes → Checked (Headers × Option ℕ)
unfolding headers_check_space headers_terminate append_place put_line
headers_add a room h line =
    if h.packed
    then done (h, none)
    else let (h₁, there) = headers_check_space a room h 1 (length line + 2) in
      elim there [
        | false ↦ done (h₁, none)
        | true ↦ headers_terminate h₁ >>= λ h₂. append_place h₂ >>= λ pos. put_line h₂ line pos
      ]

-- The bytes of a name, without regard to case.
unfoldable pub lower : ℕ → ℕ
lower c = if leb 65 c && leb c 90 then c + 32 else c

unfoldable pub same_name : Bytes → Bytes → Bool
unfolding lower
same_name [] [] = true
same_name [] (d ∷ t) = false
same_name (c ∷ s) [] = false
same_name (c ∷ s) (d ∷ t) = (lower c == lower d) && same_name s t

-- The loop of `do_header_search`, at the header with the index `i`: its index and place, and the
-- places behind it.
unfoldable pub find_header : Headers → Bytes → ℕ → List ℕ → Checked (Option (ℕ × ℕ × List ℕ))
unfolding same_name
find_header h name i [] = done none
find_header h name i (p ∷ ps) =
    let rest = find_header h name (suc i) ps in
    if ltb h.bufused (p + length name)
    then done none
    else elim (get_elem? h.buf (p + length name)) [
      | none ↦ fault
      | some c ↦
          if (c == b':') && same_name (slice h.buf p (length name)) name
          then done (some (i, p, ps))
          else rest
    ]

-- `ci_headers_search`: the place of the first header with the name.
unfoldable pub headers_search : Headers → Bytes → Checked (Option ℕ)
unfolding find_header
headers_search h name =
    if length name == 0
    then done none
    else find_header h name 0 h.headers >>= λ r.
        done (elim r [ none ↦ none | some (i, p, ps) ↦ some p ])

-- The header at the place `p` is taken out; `ps` are the places behind it.
unfoldable pub remove_at : Headers → ℕ → ℕ → List ℕ → Checked Headers
remove_at h i p [] =
    if leb (p + 2) h.bufsize
    then done (record h {
      buf = set (set h.buf p 13) (p + 1) 10;
      bufused = p + 2;
      headers = take i h.headers;
    })
    else assertion
remove_at h i p (q ∷ ps) =
    let size = q - p in
    let rest_len = h.bufused - p - size in
    if ltb 0 rest_len
    then done (record h {
      buf = memcpy h.buf p (slice h.buf q rest_len);
      bufused = h.bufused - size;
      headers = take i h.headers ++ map (λ x. x - size) (q ∷ ps);
    })
    else assertion

-- The loop of `ci_headers_remove`, which is the one of `do_header_search`, and the removal.
unfoldable pub remove_named : Headers → Bytes → Checked (Headers × Bool)
unfolding headers_terminate find_header remove_at
remove_named h name = find_header h name 0 h.headers >>= λ r. elim r [
  | none ↦ done (h, false)
  | some (i, p, ps) ↦ remove_at h i p ps >>= λ h₁. headers_terminate h₁ >>= λ h₂. done (h₂, true)
]

-- `ci_headers_remove`: the list, and whether a header was removed.
unfoldable pub headers_remove : Allocator → Bool → Headers → Bytes → Checked (Headers × Bool)
unfolding headers_check_space headers_terminate remove_named
headers_remove a room h name =
    if h.packed
    then done (h, false)
    else headers_terminate (headers_check_space a room h 0 0).0 >>= λ h₁. remove_named h₁ name
