-- ===== src/Header/Editing.antt =====
-- `headers_check_space`, `headers_terminate` and `ci_headers_add` on a list in edit mode.
use c_icap_server.Common.{
  ℕ, zero, suc, ◌+◌, ◌-◌, ◌≤◌, ◌<◌, ◌≡◌, inl, inr, sym, ap, ◌∙◌, subst, Bool, true, Option, none,
  some, List, ◌++◌, append_assoc, ltb, if_either, if_both, length, drop, Bytes, length-append,
  take-append-drop, Allocator, Option-cases, arith,
}
use c_icap_server.Header.{
  Headers, index_space, mem_space, grow_index, grow_buffer, headers_check_space,
}
use c_icap_server.Header.Lines.{text_of, IsHeaders}

index_space-le :
    (fuel n used required s : ℕ)
    → used ≤ required
    → index_space fuel n used required ≡ some s
    → (required ≤ s) × (used + n ≤ s)
unfolding index_space
index_space-le zero n used required s le e = absurd (cc e)
index_space-le (suc fuel) n used required s le e =
    ground (arith, index_space-le fuel n used (required + 64) s)

mem_space-le :
    (fuel n used required : ℕ)
    → used ≤ required
    → n + 4 < fuel + (required - used)
    → (required ≤ mem_space fuel n used required) × (used + n + 4 ≤ mem_space fuel n used required)
unfolding mem_space
mem_space-le zero n used required le enough = omega arith
mem_space-le (suc fuel) n used required le enough =
    ground (arith, mem_space-le fuel n used (required + 4096))

-- What holds of a result, if there is one.
abbrev IfSome {ℓ κ} : {A : Type ℓ} → (A → Type κ) → Option A → Type κ
IfSome P none = Unit
IfSome P (some a) = P a

-- The list with these lines, and the space that was asked for.
pub record Spaced (h : Headers) (ls : List Bytes) (n k : ℕ) : Type 0 where
  pub valid : IsHeaders h ls
  pub index_fits : length h.headers + n ≤ h.size
  pub fits : h.bufused + k + 4 ≤ h.bufsize

-- The list with these lines, and space in the index.
record Indexed (h : Headers) (ls : List Bytes) (n : ℕ) : Type 0 where
  valid : IsHeaders h ls
  index_fits : length h.headers + n ≤ h.size

grow_index-Indexed :
    (room : Bool) (h : Headers) (ls : List Bytes) (s n : ℕ)
    → IsHeaders h ls
    → length h.headers + n ≤ s
    → h.size ≤ s
    → IfSome (λ h'. Indexed h' ls n) (grow_index room h s)
unfolding grow_index
grow_index-Indexed room h ls s n v fits le =
    if_either (IfSome (λ h'. Indexed h' ls n)) (ltb h.size s) _ _
      (λ _.
        if_both (IfSome (λ h'. Indexed h' ls n)) room _ _
          (record {
            valid = record {
              rest = v.rest;
              text = v.text;
              used = v.used;
              index = v.index;
              cells = v.cells;
              room = omega arith;
              spare = v.spare;
              edit = v.edit;
            };
            index_fits = fits;
          })
          tt)
      (λ e. record { valid = v; index_fits = ground arith })

grow_buffer-Spaced :
    (a : Allocator) (h : Headers) (ls : List Bytes) (s n k : ℕ)
    → Indexed h ls n
    → h.bufused + k + 4 ≤ s
    → h.bufsize ≤ s
    → IfSome (λ h'. Spaced h' ls n k) (grow_buffer a h s)
unfolding grow_buffer
grow_buffer-Spaced a h ls s n k i fits le =
    let v = i.valid in
    if_either (IfSome (λ h'. Spaced h' ls n k)) (ltb h.bufsize s) _ _
      (λ e. elim (Option-cases (a.realloc h.buf s)) [
        | inl f ↦ rw f tt
        | inr (cells, f) ↦
            let more = drop (length h.buf) cells in
            let kept : cells ≡ h.buf ++ more =
              sym (take-append-drop (length h.buf) cells)
              ∙ ap (λ xs. xs ++ more) (a.realloc-keeps h.buf s cells f (omega (arith, v.cells))) in
            rw f (record {
              valid = record {
                rest = v.rest ++ more;
                text = kept ∙ ap (λ xs. xs ++ more) v.text ∙ append_assoc (text_of ls) v.rest more;
                used = v.used;
                index = v.index;
                cells = a.length-realloc h.buf s cells f;
                room = v.room;
                spare = omega arith;
                edit = v.edit;
              };
              index_fits = i.index_fits;
              fits = fits;
            })
      ])
      (λ e. record { valid = v; index_fits = i.index_fits; fits = ground arith })

abbrev pub Checks : List Bytes → ℕ → ℕ → Headers × Bool → Type 0
Checks ls n k (h, b) = IsHeaders h ls × (b ≡ true → Spaced h ls n k)

pub headers_check_space-Checks :
    (a : Allocator) (room : Bool) (h : Headers) (ls : List Bytes) (n k : ℕ)
    → IsHeaders h ls
    → Checks ls n k (headers_check_space a room h n k)
unfolding headers_check_space
headers_check_space-Checks a room h ls n k v =
    elim (Option-cases (index_space 33 n (length h.headers) h.size)) [
      | inl e ↦ rw (headers_check_space, e) (v, λ f. absurd (cc f))
      | inr (s, e) ↦
          let (up, fits) = index_space-le 33 n (length h.headers) h.size s v.room e in
          let grown = grow_index-Indexed room h ls s n v fits up in
          elim (Option-cases (grow_index room h s)) [
            | inl f ↦ rw (headers_check_space, e, f) (v, λ g. absurd (cc g))
            | inr (h', f) ↦
                let i = subst (IfSome (λ h'. Indexed h' ls n)) f grown in
                let s' = mem_space (k + 5) k h'.bufused h'.bufsize in
                let v' = i.valid in
                let text_fits : h'.bufused ≤ h'.bufsize = omega (
                  arith,
                  v'.used,
                  v'.cells,
                  ap length v'.text,
                  length-append (text_of ls) v'.rest,
                ) in
                let (up', fits') =
                  mem_space-le (k + 5) k h'.bufused h'.bufsize text_fits (omega arith) in
                let done_ = grow_buffer-Spaced a h' ls s' n k i fits' up' in
                elim (Option-cases (grow_buffer a h' s')) [
                  | inl g ↦ rw (headers_check_space, e, f, g) (v', λ m. absurd (cc m))
                  | inr (h'', g) ↦
                      let spaced = subst (IfSome (λ m. Spaced m ls n k)) g done_ in
                      rw (headers_check_space, e, f, g) (spaced.valid, λ _. spaced)
                ]
          ]
    ]
