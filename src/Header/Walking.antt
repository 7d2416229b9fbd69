-- ===== src/Header/Walking.antt =====
-- The loop of `ci_headers_unpack` over several lines.
use c_icap_server.Common.{
  ℕ, zero, suc, ◌+◌, ◌-◌, ◌≤◌, ◌≡◌, refl, sym, ap, ◌∙◌, Bool, true, false, not, ◌&&◌, List, [], ◌∷◌,
  ◌++◌, append_assoc, append-nil, ltb, ◌==◌, length, Bytes, length-append, arith,
}
use c_icap_server.Header.{Headers, line_end}
use c_icap_server.Header.Lines.{body, offsets}
use c_icap_server.Header.Packing.{rows}
use c_icap_server.Header.Parsing.{is_end, is_blank, scan}
use c_icap_server.Header.Scanning.{
  all_plain, is_line, are_lines, and_true, scan-next, scan-all_plain, indexed, new_line,
  scan_step-line,
}

-- The end of the loop.
scan-end :
    (fuel : ℕ) (room : Bool) (h : Headers) (ebuf str : ℕ)
    → ebuf ≤ str
    → scan fuel room h ebuf str ≡ (h, true)
unfolding scan
scan-end zero room h ebuf str le = refl
scan-end (suc fuel) room h ebuf str le =
    let test : ltb str ebuf ≡ false = ground arith in rw test refl

indexed-cons :
    (h : Headers) (pre : Bytes) (str c : ℕ) (t : Bytes) (ms : List Bytes) (r : Bytes)
    → indexed
        (new_line h pre str c (t ++ rows ms 0 r))
        (pre ++ (0 ∷ 10 ∷ c ∷ t))
        (str + 2 + 1 + length t + 2)
        ms
        r
      ≡ indexed h pre (str + 2) ((c ∷ t) ∷ ms) r
indexed-cons h pre str c t ms r =
    let line = 0 ∷ 10 ∷ c ∷ t in
    let ps = h.headers ++ ((str + 2) ∷ []) ++ offsets (str + 2 + 1 + length t + 2) ms in
    ap (λ b. record h { buf = b; headers = ps })
      (append_assoc pre line (line_end ++ (body ms ++ r))
        ∙ ap (λ xs. pre ++ (0 ∷ 10 ∷ c ∷ xs)) (sym (append_assoc t (line_end ++ body ms) r)))
    ∙ ap (λ qs. record h { buf = pre ++ (line_end ++ (body ((c ∷ t) ∷ ms) ++ r)); headers = qs })
        (append_assoc h.headers ((str + 2) ∷ []) (offsets (str + 2 + 1 + length t + 2) ms)
          ∙ ap (λ p. h.headers ++ ((str + 2) ∷ offsets p ms)) (omega arith))

-- The loop from the end of a line on: it finds the lines behind it.
pub scan-rows :
    (ms : List Bytes) (fuel : ℕ) (room : Bool) (h : Headers) (ebuf str : ℕ) (pre r : Bytes)
    → are_lines ms ≡ true
    → h.buf ≡ pre ++ rows ms 0 r
    → str ≡ length pre
    → ebuf ≡ str + length (body ms)
    → length (body ms) ≤ fuel
    → length h.headers + length ms ≤ h.size
    → scan fuel room h ebuf str ≡ (indexed h pre (str + 2) ms r, true)
scan-rows [] fuel room h ebuf str pre r p text at end_ enough fits =
    scan-end fuel room h ebuf str (omega arith)
    ∙ ap (λ (h' : Headers). (h', true))
        (ap (λ b. record h { buf = b }) text
          ∙ ap (λ ps. record h { buf = pre ++ rows [] 0 r; headers = ps })
              (sym (append-nil h.headers)))
scan-rows ([] ∷ ms) fuel room h ebuf str pre r p text at end_ enough fits = absurd (cc p)
scan-rows ((c ∷ t) ∷ ms) zero room h ebuf str pre r p text at end_ enough fits =
    absurd (omega arith)
scan-rows ((c ∷ t) ∷ ms) (suc fuel) room h ebuf str pre r p text at end_ enough fits =
    let (p₁, p₂) = and_true (is_line (c ∷ t)) (are_lines ms) p in
    let (q, q₁) = and_true (not (is_blank c)) (all_plain (c ∷ t)) p₁ in
    let (_, q₂) = and_true (not (c == 0) && not (is_end c)) (all_plain t) q₁ in
    let ys = t ++ rows ms 0 r in
    let h₁ = new_line h pre str c ys in
    let pre₁ = pre ++ (0 ∷ 10 ∷ c ∷ []) in
    let pre₂ = pre ++ (0 ∷ 10 ∷ c ∷ t) in
    let len = length-append t (line_end ++ body ms) in
    scan-next fuel room h h₁ ebuf str (str + 2 + 1) (omega (arith, len))
      (scan_step-line room h ebuf str c pre ys q text at (omega arith))
    ∙ scan-all_plain t fuel room h₁ ebuf (str + 2 + 1) pre₁ (rows ms 0 r) q₂
        (sym (append_assoc pre (0 ∷ 10 ∷ c ∷ []) ys))
        (omega (arith, length-append pre (0 ∷ 10 ∷ c ∷ []))) (omega (arith, len))
        (omega (arith, len))
    ∙ scan-rows ms (fuel - length t) room h₁ ebuf (str + 2 + 1 + length t) pre₂ r p₂
        (sym (append_assoc pre (0 ∷ 10 ∷ c ∷ t) (rows ms 0 r)))
        (omega (arith, length-append pre (0 ∷ 10 ∷ c ∷ t))) (omega (arith, len))
        (omega (arith, len)) (omega (arith, fits, length-append h.headers ((str + 2) ∷ [])))
    ∙ ap (λ (h' : Headers). (h', true)) (indexed-cons h pre str c t ms r)
