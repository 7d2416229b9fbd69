-- ===== src/Vector/Stored.antt =====
-- What a vector holds: its values, each below the one before it.
use c_icap_server.Common.{
  ℕ, zero, suc, ◌+◌, ◌*◌, ◌≤◌, ◌<◌, ◌≡◌, refl, sym, ap, ◌∙◌, true, false, Option, none, some, List,
  [], ◌∷◌, ◌++◌, ◌==◌, length, get_elem?, Bytes, slice, arith,
}
use c_icap_server.Vector.{Vector, put}

-- From the place `a` on, the pointers to these values, which stand below `top` and from `low` on.
abbrev pub Stored : (ℕ → Option ℕ) → Bytes → ℕ → ℕ → List Bytes → ℕ → Type 0
Stored cells mem a top [] low = low ≡ top
Stored cells mem a top (x ∷ xs) low =
    (p : ℕ) × (cells a ≡ some p)
    × (p + length x ≤ top)
    × (slice mem p (length x) ≡ x)
    × Stored cells mem (a + 8) p xs low

-- A vector with these values, and `gap` pointers behind the last one that are in no use.
pub record IsVector (v : Vector) (xs : List Bytes) (gap : ℕ) : Type 0 where
  pub low : ℕ
  pub stored : Stored v.cells v.mem v.items v.pack.end xs low
  pub size : v.count ≡ length xs
  pub at_last : v.last ≡ v.items + 8 * length xs
  pub null : v.cells v.last ≡ none
  pub start : v.pack.curpos ≡ v.last + 8 + 8 * gap
  pub free : v.pack.curpos ≤ v.pack.endpos
  pub room : v.pack.endpos ≤ low
  pub within : v.pack.end ≤ length v.mem

pub Stored-low :
    (cells : ℕ → Option ℕ) (mem : Bytes) (a top : ℕ) (xs : List Bytes) (low : ℕ)
    → Stored cells mem a top xs low
    → low ≤ top
Stored-low cells mem a top [] low s = omega arith
Stored-low cells mem a top (x ∷ xs) low (p, e, le, c, s) =
    omega (arith, Stored-low cells mem (a + 8) p xs low s)

-- A value is stored behind the others: no pointer and no value before it changes.
pub Stored-snoc :
    (cells cells' : ℕ → Option ℕ) (mem mem' : Bytes) (a top : ℕ) (xs : List Bytes) (low : ℕ)
    (x : Bytes) (t : ℕ)
    → Stored cells mem a top xs low
    → ((b : ℕ) → b < a + 8 * length xs → cells' b ≡ cells b)
    → ((q n : ℕ) → low ≤ q → slice mem' q n ≡ slice mem q n)
    → cells' (a + 8 * length xs) ≡ some t
    → t + length x ≤ low
    → slice mem' t (length x) ≡ x
    → Stored cells' mem' a top (xs ++ (x ∷ [])) t
Stored-snoc cells cells' mem mem' a top [] low x t s same kept e le c =
    let f : a + 8 * 0 ≡ a = omega arith in (t, ap cells' (sym f) ∙ e, omega arith, c, refl)
Stored-snoc cells cells' mem mem' a top (y ∷ xs) low x t (p, f, le', d, s) same kept e le c =
    let n = length xs in
    let g : a + 8 * suc n ≡ a + 8 + 8 * n = omega arith in
    (
      p,
      same a (omega arith) ∙ f,
      le',
      kept p (length y) (Stored-low cells mem (a + 8) p xs low s) ∙ d,
      Stored-snoc cells cells' mem mem' (a + 8) p xs low x t s (λ b less. same b (omega arith)) kept
          (ap cells' (sym g) ∙ e) le c,
    )

-- The last value of several.
pub Stored-unsnoc :
    (cells : ℕ → Option ℕ) (mem : Bytes) (a top : ℕ) (xs : List Bytes) (x : Bytes) (low : ℕ)
    → Stored cells mem a top (xs ++ (x ∷ [])) low
    → (low' : ℕ) × Stored cells mem a top xs low'
      × (cells (a + 8 * length xs) ≡ some low)
      × (low + length x ≤ low')
      × (slice mem low (length x) ≡ x)
Stored-unsnoc cells mem a top [] x low (p, e, le, c, s) =
    let f : a + 8 * 0 ≡ a = omega arith in
    (
      top,
      refl,
      ap cells f ∙ e ∙ ap some (sym s),
      omega arith,
      ap (λ q. slice mem q (length x)) s ∙ c,
    )
Stored-unsnoc cells mem a top (y ∷ xs) x low (p, e, le, c, s) =
    let (low', s', e', le', c') = Stored-unsnoc cells mem (a + 8) p xs x low s in
    let f : a + 8 * suc (length xs) ≡ a + 8 + 8 * length xs = omega arith in
    (low', (p, e, le, c, s'), ap cells f ∙ e', le', c')

-- The pointers before a place can be changed from there on.
pub Stored-cells :
    (cells cells' : ℕ → Option ℕ) (mem : Bytes) (a top : ℕ) (xs : List Bytes) (low : ℕ)
    → Stored cells mem a top xs low
    → ((b : ℕ) → b < a + 8 * length xs → cells' b ≡ cells b)
    → Stored cells' mem a top xs low
Stored-cells cells cells' mem a top [] low s same = s
Stored-cells cells cells' mem a top (x ∷ xs) low (p, e, le, c, s) same = (
  p,
  same a (omega arith) ∙ e,
  le,
  c,
  Stored-cells cells cells' mem (a + 8) p xs low s (λ b less. same b (omega arith)),
)

-- The value `i`.
pub Stored-get :
    (cells : ℕ → Option ℕ) (mem : Bytes) (a top : ℕ) (xs : List Bytes) (low i : ℕ)
    → Stored cells mem a top xs low
    → i < length xs
    → (p : ℕ) × (x : Bytes) × (cells (a + 8 * i) ≡ some p)
      × (get_elem? xs i ≡ some x)
      × (slice mem p (length x) ≡ x)
Stored-get cells mem a top [] low i s less = absurd (omega arith)
Stored-get cells mem a top (x ∷ xs) low zero (p, e, le, c, s) less =
    let f : a + 8 * 0 ≡ a = omega arith in (p, x, ap cells f ∙ e, refl, c)
Stored-get cells mem a top (x ∷ xs) low (suc i) (p, e, le, c, s) less =
    let (q, y, e', g, c') = Stored-get cells mem (a + 8) p xs low i s (omega arith) in
    let f : a + 8 * suc i ≡ a + 8 + 8 * i = omega arith in (q, y, ap cells f ∙ e', g, c')

pub put_self : (cells : ℕ → Option ℕ) (at : ℕ) (q : Option ℕ) → put cells at q at ≡ q
unfolding put
put_self cells at q = let e : (at == at) ≡ true = ground arith in rw e refl

pub put_before :
    (cells : ℕ → Option ℕ) (at : ℕ) (q : Option ℕ) (b : ℕ) → b < at → put cells at q b ≡ cells b
unfolding put
put_before cells at q b less = let e : (b == at) ≡ false = ground arith in rw e refl

pub put_behind :
    (cells : ℕ → Option ℕ) (at : ℕ) (q : Option ℕ) (b : ℕ) → at < b → put cells at q b ≡ cells b
unfolding put
put_behind cells at q b less = let e : (b == at) ≡ false = ground arith in rw e refl
