-- ===== src/Header/Trimming.antt =====
-- What the two loops of `do_header_search` leave of a line.
use c_icap_server.Common.{
  ℕ, zero, suc, inl, inr, ◌+◌, ◌≤◌, ◌<◌, ◌≡◌, refl, sym, ap, ◌∙◌, Bool, true, false, not, ◌&&◌,
  ◌||◌, some, [], ◌∷◌, ◌++◌, append_assoc, ltb, ◌==◌, if◌then◌else◌, length, get_elem?,
  get_elem?-append_add, get_or, drop, Bytes, length-append, Bool-cases, arith,
}
use c_icap_server.Header.{Headers, lower}
use c_icap_server.Header.Search.{has_name}
use c_icap_server.Header.Scanning.{all_plain, and_true}
use c_icap_server.Header.Values.{value_start, is_terminator, value_end}

abbrev pub is_space : ℕ → Bool
is_space c = (c == 32) || (c == 9)

-- The bytes without the spaces and tabs in front.
abbrev pub drop_spaces : Bytes → Bytes
drop_spaces [] = []
drop_spaces (c ∷ l) = if is_space c then drop_spaces l else c ∷ l

abbrev all_spaces : Bytes → Bool
all_spaces [] = true
all_spaces (c ∷ l) = is_space c && all_spaces l

pub drop_spaces-split :
    (l : Bytes) → (bs : Bytes) × (l ≡ bs ++ drop_spaces l) × (all_spaces bs ≡ true)
drop_spaces-split [] = ([], refl, refl)
drop_spaces-split (c ∷ l) =
    let (bs, e, f) = drop_spaces-split l in
    elim (Bool-cases (is_space c)) [
      | inl s ↦ (c ∷ bs, rw s (ap (◌∷◌ c) e), rw s f)
      | inr s ↦ ([], rw s refl, refl)
    ]

-- The first byte behind the spaces, if a NUL ends the line.
pub drop_spaces-head :
    (l zs : Bytes)
    → (c : ℕ) × (xs : Bytes) × (drop_spaces l ++ (0 ∷ zs) ≡ c ∷ xs) × (is_space c ≡ false)
drop_spaces-head [] zs = (0, zs, refl, refl)
drop_spaces-head (c ∷ l) zs = elim (Bool-cases (is_space c)) [
  | inl s ↦ rw s (drop_spaces-head l zs)
  | inr s ↦ rw s (c, l ++ (0 ∷ zs), refl, s)
]

pub value_start-spaces :
    (bs : Bytes) (fuel : ℕ) (h : Headers) (pre : Bytes) (c : ℕ) (xs : Bytes) (lval : ℕ)
    → h.buf ≡ pre ++ (bs ++ (c ∷ xs))
    → lval ≡ length pre
    → all_spaces bs ≡ true
    → is_space c ≡ false
    → lval + length bs ≤ h.bufused
    → length bs < fuel
    → value_start fuel h lval ≡ some (lval + length bs)
unfolding value_start
value_start-spaces bs zero h pre c xs lval text at p q le enough = absurd (omega arith)
value_start-spaces [] (suc fuel) h pre c xs lval text at p q le enough =
    let test : ltb h.bufused lval ≡ false = ground arith in
    let cell : get_elem? h.buf lval ≡ some c =
      ap (λ ys. get_elem? ys lval) text ∙ get_elem?-append_add pre (c ∷ xs) 0 lval (omega arith) in
    rw (test, cell, q) (ap some (omega arith))
value_start-spaces (b ∷ bs) (suc fuel) h pre c xs lval text at p q le enough =
    let (s, p₁) = and_true (is_space b) (all_spaces bs) p in
    let test : ltb h.bufused lval ≡ false = ground arith in
    let cell : get_elem? h.buf lval ≡ some b =
      ap (λ ys. get_elem? ys lval) text
      ∙ get_elem?-append_add pre (b ∷ (bs ++ (c ∷ xs))) 0 lval (omega arith) in
    rw (test, cell, s)
      (value_start-spaces bs fuel h (pre ++ (b ∷ [])) c xs (suc lval)
          (text ∙ sym (append_assoc pre (b ∷ []) (bs ++ (c ∷ xs))))
          (omega (arith, length-append pre (b ∷ []))) p₁ q (omega arith) (omega arith)
        ∙ ap some (omega arith))

-- Bytes that end lines are passed over.
pub value_end-terminators :
    (m : ℕ) (buf : Bytes) (lval a b : ℕ)
    → lval ≤ a
    → b ≡ a + m
    → ((i : ℕ) → a < i → i ≤ b → is_terminator (get_or buf i 0) ≡ true)
    → value_end buf lval b ≡ value_end buf lval a
unfolding value_end
value_end-terminators zero buf lval a b le e ends = ap (value_end buf lval) (omega arith)
value_end-terminators (suc m) buf lval a zero le e ends = absurd (omega arith)
value_end-terminators (suc m) buf lval a (suc b) le e ends =
    let test : ltb lval (suc b) ≡ true = ground arith in
    rw (test, ends (suc b) (omega arith) (omega arith))
      (value_end-terminators m buf lval a b le (omega arith)
        (λ i above below. ends i above (omega arith)))

-- At the last byte of the value, or at its start, the loop stops.
pub value_end-stop :
    (buf : Bytes) (lval a : ℕ)
    → (ltb lval a && is_terminator (get_or buf a 0)) ≡ false
    → value_end buf lval a ≡ a
unfolding value_end
value_end-stop buf lval zero e = refl
value_end-stop buf lval (suc a) e = rw e refl

pub plain-last :
    (c : ℕ) (l : Bytes)
    → all_plain (c ∷ l) ≡ true
    → (f : Bytes) × (d : ℕ) × (c ∷ l ≡ f ++ (d ∷ [])) × (is_terminator d ≡ false)
plain-last c [] p = ([], c, refl, ground arith)
plain-last c (b ∷ l) p =
    let (_, q) = and_true (not (c == 0) && not ((c == 13) || (c == 10))) (all_plain (b ∷ l)) p in
    let (f, d, e, n) = plain-last b l q in (c ∷ f, d, ap (◌∷◌ c) e, n)

pub all_plain-drop : (n : ℕ) (l : Bytes) → all_plain l ≡ true → all_plain (drop n l) ≡ true
all_plain-drop zero l p = p
all_plain-drop (suc n) [] p = p
all_plain-drop (suc n) (c ∷ l) p =
    all_plain-drop n l (and_true (not (c == 0) && not ((c == 13) || (c == 10))) (all_plain l) p).1

pub all_plain-drop_spaces : (l : Bytes) → all_plain l ≡ true → all_plain (drop_spaces l) ≡ true
all_plain-drop_spaces [] p = p
all_plain-drop_spaces (c ∷ l) p = elim (Bool-cases (is_space c)) [
  | inl s ↦ rw s (
      all_plain-drop_spaces l
        (and_true (not (c == 0) && not ((c == 13) || (c == 10))) (all_plain l) p).1)
  | inr s ↦ rw s p
]

-- A line with the name is the name, a colon and the value.
pub has_name-split :
    (name l : Bytes)
    → has_name name l ≡ true
    → (k : Bytes) × (l ≡ k ++ (b':' ∷ drop (suc (length name)) l)) × (length k ≡ length name)
unfolding has_name
has_name-split name [] e = absurd (cc e)
has_name-split [] (c ∷ l) e = let f : c ≡ b':' = ground arith in ([], ap (λ x. x ∷ l) f, refl)
has_name-split (n ∷ name) (c ∷ l) e =
    let (_, e₁) = and_true (lower c == lower n) (has_name name l) e in
    let (k, f, g) = has_name-split name l e₁ in (c ∷ k, ap (◌∷◌ c) f, ap suc g)
