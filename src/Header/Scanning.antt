-- ===== src/Header/Scanning.antt =====
-- `ci_headers_unpack` on a text of lines.
use c_icap_server.Common.{
  ℕ, zero, suc, ◌+◌, ◌-◌, ◌≤◌, ◌<◌, ◌≡◌, refl, sym, ap, ◌∙◌, Bool, true, false, not, ◌&&◌, none,
  some, List, [], ◌∷◌, ◌++◌, append_assoc, ltb, leb, ◌==◌, if◌then◌else◌, length, get_or,
  get_or-append_add, set, set-append_add, Bytes, length-append, arith,
}
use c_icap_server.Header.{Headers, line_end}
use c_icap_server.Header.Lines.{body, offsets}
use c_icap_server.Header.Parsing.{
  is_end, is_blank, ends_header, mend, grow_for_one, next_header, end_header, scan_step, scan,
}

-- Bytes that are no NUL and no part of a line end.
abbrev pub all_plain : Bytes → Bool
all_plain [] = true
all_plain (c ∷ l) = (not (c == 0) && not (is_end c)) && all_plain l

-- A line of a message: it is not empty, holds such bytes only, and no space or tab stands first.
abbrev pub is_line : Bytes → Bool
is_line [] = false
is_line (c ∷ l) = not (is_blank c) && all_plain (c ∷ l)

abbrev pub are_lines : List Bytes → Bool
are_lines [] = true
are_lines (l ∷ ls) = is_line l && are_lines ls

pub and_true : (a b : Bool) → (a && b) ≡ true → (a ≡ true) × (b ≡ true)
and_true true b e = (refl, e)
and_true false b e = absurd (cc e)

plain_byte :
    (c : ℕ)
    → (not (c == 0) && not (is_end c)) ≡ true
    → ((c == 0) ≡ false) × ((c == 13) ≡ false) × ((c == 10) ≡ false)
plain_byte c e = ground arith

scan_step-plain :
    (room : Bool) (h : Headers) (ebuf str c : ℕ)
    → (not (c == 0) && not (is_end c)) ≡ true
    → get_or h.buf str 0 ≡ c
    → scan_step room h ebuf str ≡ (h, some (str + 1))
unfolding scan_step ends_header mend
scan_step-plain room h ebuf str c q here =
    let (nul, cr, lf) = plain_byte c q in simp (here, nul, cr, lf) refl

-- One turn of the loop.
pub scan-next :
    (fuel : ℕ) (room : Bool) (h h₁ : Headers) (ebuf str next : ℕ)
    → str < ebuf
    → scan_step room h ebuf str ≡ (h₁, some next)
    → scan (suc fuel) room h ebuf str ≡ scan fuel room h₁ ebuf next
unfolding scan
scan-next fuel room h h₁ ebuf str next inside e =
    let test : ltb str ebuf ≡ true = ground arith in
    ap
      (λ s.
        if ltb str ebuf
        then (elim s.1 [ none ↦ (s.0, false) | some q ↦ scan fuel room s.0 ebuf q ])
        else (h, true))
      e
    ∙ ap (λ b. if b then scan fuel room h₁ ebuf next else (h, true)) test

-- The loop passes bytes of a line.
pub scan-all_plain :
    (t : Bytes) (fuel : ℕ) (room : Bool) (h : Headers) (ebuf str : ℕ) (pre ys : Bytes)
    → all_plain t ≡ true
    → h.buf ≡ pre ++ (t ++ ys)
    → str ≡ length pre
    → str + length t ≤ ebuf
    → length t ≤ fuel
    → scan fuel room h ebuf str ≡ scan (fuel - length t) room h ebuf (str + length t)
unfolding scan
scan-all_plain [] fuel room h ebuf str pre ys p text at le enough =
    let (e, f) : (fuel ≡ fuel - 0) × (str ≡ str + 0) = (omega arith, omega arith) in
    ap (λ n. scan n room h ebuf str) e ∙ ap (scan (fuel - 0) room h ebuf) f
scan-all_plain (c ∷ t) zero room h ebuf str pre ys p text at le enough = absurd (omega arith)
scan-all_plain (c ∷ t) (suc fuel) room h ebuf str pre ys p text at le enough =
    let (q, p₁) = and_true (not (c == 0) && not (is_end c)) (all_plain t) p in
    let here : get_or h.buf str 0 ≡ c =
      ap (λ xs. get_or xs str 0) text
      ∙ get_or-append_add pre (c ∷ (t ++ ys)) 0 str 0 (omega arith) in
    let rest_ok =
      scan-all_plain t fuel room h ebuf (str + 1) (pre ++ (c ∷ [])) ys p₁
        (text ∙ sym (append_assoc pre (c ∷ []) (t ++ ys)))
        (omega (arith, length-append pre (c ∷ []))) (omega arith) (omega arith) in
    scan-next fuel room h h ebuf str (str + 1) (omega arith)
      (scan_step-plain room h ebuf str c q here)
    ∙ rest_ok
    ∙ ap (λ n. scan n room h ebuf (str + 1 + length t)) (omega arith)
    ∙ ap (scan (suc fuel - suc (length t)) room h ebuf) (omega arith)

-- A list after lines were found: their ends are written, and they are in the index.
abbrev pub indexed : Headers → Bytes → ℕ → List Bytes → Bytes → Headers
indexed h pre p ms r = record h {
  buf = pre ++ (line_end ++ (body ms ++ r));
  headers = h.headers ++ offsets p ms;
}

ends_header-line :
    (buf : Bytes) (ebuf str c : ℕ) (pre ys : Bytes)
    → not (is_blank c) ≡ true
    → buf ≡ pre ++ (13 ∷ 10 ∷ c ∷ ys)
    → str ≡ length pre
    → ends_header buf ebuf str ≡ true
unfolding ends_header
ends_header-line buf ebuf str c pre ys q text at =
    let zs = 13 ∷ 10 ∷ c ∷ ys in
    simp
      (
        text,
        get_or-append_add pre zs 0 str 0 (omega arith),
        get_or-append_add pre zs 1 (str + 1) 0 (omega arith),
        get_or-append_add pre zs 2 (str + 2) 0 (omega arith),
        q,
      )
      (ground arith)

-- The step at the end of a line.
abbrev pub new_line : Headers → Bytes → ℕ → ℕ → Bytes → Headers
new_line h pre str c ys = record h {
  buf = pre ++ (0 ∷ 10 ∷ c ∷ ys);
  headers = h.headers ++ ((str + 2) ∷ []);
}

end_header-next_place :
    (room : Bool) (h : Headers) (str : ℕ) (b : Bytes)
    → set h.buf str 0 ≡ b
    → length h.headers < h.size
    → end_header room h str ≡ (
      (next_header (record h { buf = b }) str).0,
      some ((next_header (record h { buf = b }) str).1 + 1),
    )
unfolding end_header grow_for_one
end_header-next_place room h str b e less =
    let full : leb h.size (length h.headers) ≡ false = ground arith in
    ap
      (λ c. elim (grow_for_one room (record h { buf = c })) [
        | none ↦ (record h { buf = c }, none)
        | some h₁ ↦ ((next_header h₁ str).0, some ((next_header h₁ str).1 + 1))
      ])
      e
    ∙ rw full refl

end_header-line :
    (room : Bool) (h : Headers) (str c : ℕ) (pre ys : Bytes)
    → h.buf ≡ pre ++ (13 ∷ 10 ∷ c ∷ ys)
    → str ≡ length pre
    → length h.headers < h.size
    → end_header room h str ≡ (new_line h pre str c ys, some (str + 2 + 1))
unfolding next_header
end_header-line room h str c pre ys text at less =
    let written : set h.buf str 0 ≡ pre ++ (0 ∷ 10 ∷ c ∷ ys) =
      ap (λ xs. set xs str 0) text ∙ set-append_add pre (13 ∷ 10 ∷ c ∷ ys) 0 str 0 (omega arith) in
    let after : get_or (pre ++ (0 ∷ 10 ∷ c ∷ ys)) (str + 1) 0 ≡ 10 =
      get_or-append_add pre (0 ∷ 10 ∷ c ∷ ys) 1 (str + 1) 0 (omega arith) in
    end_header-next_place room h str (pre ++ (0 ∷ 10 ∷ c ∷ ys)) written less ∙ rw after refl

pub scan_step-line :
    (room : Bool) (h : Headers) (ebuf str c : ℕ) (pre ys : Bytes)
    → not (is_blank c) ≡ true
    → h.buf ≡ pre ++ (13 ∷ 10 ∷ c ∷ ys)
    → str ≡ length pre
    → length h.headers < h.size
    → scan_step room h ebuf str ≡ (new_line h pre str c ys, some (str + 2 + 1))
unfolding scan_step
scan_step-line room h ebuf str c pre ys q text at less =
    rw (ends_header-line h.buf ebuf str c pre ys q text at)
      (end_header-line room h str c pre ys text at less)
