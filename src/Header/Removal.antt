-- ===== src/Header/Removal.antt =====
-- `ci_headers_remove`: the first line with the name goes, and the others stay.
use c_icap_server.Common.{
  ℕ, suc, ◌+◌, ◌≡◌, inl, inr, refl, sym, ap, ◌∙◌, subst, Option, none, some, Bool, true, false,
  ◌||◌, none, some, List, [], ◌∷◌, ◌++◌, append-nil, if◌then◌else◌, length, Bytes, Allocator,
  Bool-cases, arith,
}
use c_icap_server.Header.{
  Headers, Checked, done, assertion, fault, ◌>>=◌, headers_check_space, headers_terminate,
  remove_at, remove_named, headers_remove,
}
use c_icap_server.Header.Lines.{body, offsets, IsHeaders, length-body}
use c_icap_server.Header.Editing.{headers_check_space-Checks}
use c_icap_server.Header.Appending.{headers_terminate-IsHeaders}
use c_icap_server.Header.Closing.{Comes, remove_last-Comes}
use c_icap_server.Header.Moving.{remove_inner-Comes}
use c_icap_server.Header.Search.{IsName, has_name, found, find_header-IsHeaders}

-- The lines without the first one with the name, and whether there is one.
unfoldable pub without_name : Bytes → List Bytes → List Bytes
unfolding has_name
without_name name [] = []
without_name name (l ∷ ls) = if has_name name l then ls else l ∷ without_name name ls

unfoldable pub any_name : Bytes → List Bytes → Bool
unfolding has_name
any_name name [] = false
any_name name (l ∷ ls) = has_name name l || any_name name ls

-- The first line with the name.
unfoldable pub first_named : Bytes → List Bytes → Option Bytes
unfolding has_name
first_named name [] = none
first_named name (l ∷ ls) = if has_name name l then some l else first_named name ls

-- The line that is found stands between the lines before it and the ones behind it.
pub record Split (name : Bytes) (i p : ℕ) (ls : List Bytes) : Type 0 where
  pub before : List Bytes
  pub line : Bytes
  pub behind : List Bytes
  pub all : ls ≡ before ++ (line ∷ behind)
  pub others : without_name name ls ≡ before ++ behind
  pub index : ℕ
  pub place : ℕ
  pub next : ℕ
  pub found_ : found name i p ls ≡ some (index, place, offsets next behind)
  pub at_index : index ≡ i + length before
  pub at_place : place ≡ p + length (body before)
  pub at_next : next ≡ place + length line + 2
  pub first : first_named name ls ≡ some line
  pub named : has_name name line ≡ true

pub found-Split :
    (name : Bytes) (i p : ℕ) (ls : List Bytes) → any_name name ls ≡ true → Split name i p ls
unfolding found without_name any_name first_named
found-Split name i p [] e = absurd (cc e)
found-Split name i p (l ∷ ls) e =
    let next = p + length l + 2 in
    elim (Bool-cases (has_name name l)) [
      | inl f ↦ record {
        before = [];
        line = l;
        behind = ls;
        all = refl;
        others = rw f refl;
        index = i;
        place = p;
        next = next;
        found_ = rw f refl;
        at_index = omega arith;
        at_place = omega arith;
        at_next = refl;
        first = rw f refl;
        named = f;
      }
      | inr f ↦
          let s = found-Split name (suc i) next ls (ap (λ b. b || any_name name ls) (sym f) ∙ e) in
          record {
            before = l ∷ s.before;
            line = s.line;
            behind = s.behind;
            all = ap (◌∷◌ l) s.all;
            others = rw f (ap (◌∷◌ l) s.others);
            index = s.index;
            place = s.place;
            next = s.next;
            found_ = rw f s.found_;
            at_index = omega (arith, s.at_index);
            at_place = omega (arith, s.at_place, length-body l s.before);
            at_next = s.at_next;
            first = rw f s.first;
            named = s.named;
          }
    ]

pub found-none :
    (name : Bytes) (i p : ℕ) (ls : List Bytes)
    → any_name name ls ≡ false
    → (found name i p ls ≡ none) × (without_name name ls ≡ ls) × (first_named name ls ≡ none)
unfolding found without_name any_name first_named
found-none name i p [] e = (refl, refl, refl)
found-none name i p (l ∷ ls) e = elim (Bool-cases (has_name name l)) [
  | inl f ↦ absurd (cc (e, f))
  | inr f ↦
      let (a, b, c₁) =
        found-none name (suc i) (p + length l + 2) ls
          (ap (λ c. c || any_name name ls) (sym f) ∙ e) in
      (rw f a, rw f (ap (◌∷◌ l) b), rw f c₁)
]

-- What `ci_headers_remove` comes to.
abbrev pub Removed : Bytes → List Bytes → Checked (Headers × Bool) → Type 0
Removed name ls (done (h, b)) = IsHeaders h (without_name name ls) × (b ≡ any_name name ls)
Removed name ls assertion = ⊥
Removed name ls fault = ⊥

finish_end :
    (name : Bytes) (ls ms : List Bytes) (r : Checked Headers)
    → without_name name ls ≡ ms
    → any_name name ls ≡ true
    → Comes ms r
    → Removed name ls (r >>= λ h. done (h, true))
finish_end name ls ms (done h) e f c = (subst (IsHeaders h) (sym e) c, sym f)
finish_end name ls ms assertion e f c = c
finish_end name ls ms fault e f c = c

finish :
    (name : Bytes) (ls ms : List Bytes) (r : Checked Headers)
    → without_name name ls ≡ ms
    → any_name name ls ≡ true
    → Comes ms (r >>= headers_terminate)
    → Removed name ls (r >>= λ h. headers_terminate h >>= λ h'. done (h', true))
finish name ls ms (done h) e f c = finish_end name ls ms (headers_terminate h) e f c
finish name ls ms assertion e f c = c
finish name ls ms fault e f c = c

remove_at-Comes :
    (h : Headers) (bs : List Bytes) (l : Bytes) (cs : List Bytes) (p q : ℕ)
    → IsHeaders h (bs ++ (l ∷ cs))
    → p ≡ length (body bs)
    → q ≡ p + length l + 2
    → Comes (bs ++ cs) (remove_at h (length bs) p (offsets q cs) >>= headers_terminate)
remove_at-Comes h bs l [] p q v at at_next = rw (append-nil bs) (remove_last-Comes h bs l p v at)
remove_at-Comes h bs l (m ∷ cs) p q v at at_next = remove_inner-Comes h bs l m cs p q v at at_next

remove_named-Removed :
    (h : Headers) (ls : List Bytes) (name : Bytes)
    → IsHeaders h ls
    → IsName name
    → Removed name ls (remove_named h name)
unfolding remove_named
remove_named-Removed h ls name v valid =
    let search_ = find_header-IsHeaders h name ls v valid in
    elim (Bool-cases (any_name name ls)) [
      | inl e ↦
          let s = found-Split name 0 0 ls e in
          let i : s.index ≡ length s.before = omega (arith, s.at_index) in
          let c =
            remove_at-Comes h s.before s.line s.behind s.place s.next (subst (IsHeaders h) s.all v)
              (omega (arith, s.at_place)) s.at_next in
          rw (search_, s.found_, i)
            (finish name ls (s.before ++ s.behind)
              (remove_at h (length s.before) s.place (offsets s.next s.behind)) s.others e c)
      | inr e ↦
          let (f, g, _) = found-none name 0 0 ls e in
          rw (search_, f) (subst (IsHeaders h) (sym g) v, sym e)
    ]

-- `ci_headers_remove` takes the first line with the name out, and says whether there was one.
pub headers_remove-Removed :
    (a : Allocator) (room : Bool) (h : Headers) (ls : List Bytes) (name : Bytes)
    → IsHeaders h ls
    → IsName name
    → Removed name ls (headers_remove a room h name)
unfolding headers_remove
headers_remove-Removed a room h ls name v valid =
    let h₁ = (headers_check_space a room h 0 0).0 in
    let v₁ = (headers_check_space-Checks a room h ls 0 0 v).0 in
    simp v.edit (
      subst (λ r. Removed name ls (r >>= λ h₂. remove_named h₂ name))
        (sym (headers_terminate-IsHeaders h₁ ls v₁)) (remove_named-Removed h₁ ls name v₁ valid))
