-- ===== src/Tests/Vector.antt =====
-- `ci_vector_t` at concrete inputs.
use c_icap_server.Common.{
  ℕ, ◌≡◌, refl, false, Option, none, some, [], ◌∷◌, ◌++◌, replicate, codes, arith, slice, ◌==◌,
  if◌then◌else◌,
}
use c_icap_server.Vector.{Vector, item_at, vector_get, vector_add, vector_pop}
use c_icap_server.Vector.Stored.{IsVector}
use c_icap_server.Vector.Values.{Adds, vector_add-Adds}
use c_icap_server.Vector.Popping.{Pops, Gets, vector_pop-Pops, vector_get-Gets}
use c_icap_server.Vector.Gaps.{vector_get_lost}

-- A vector of strings with one value, in a block of 48 bytes behind its structs.
abbrev cells : ℕ → Option ℕ
cells n = if n == 0 then some 46 else if n == 16 then some 7 else none

abbrev one : Vector
one = record {
  items = 0;
  last = 8;
  max_size = 144;
  count = 1;
  pack = record { curpos = 16; endpos = 46; end = 48 };
  aligned = false;
  cells = cells;
  mem = replicate 46 0 ++ codes "ab";
}

one-IsVector : IsVector one (codes "ab" ∷ []) 0
unfolding slice
one-IsVector = record {
  low = 46;
  stored = (46, refl, omega arith, refl, refl);
  size = refl;
  at_last = refl;
  null = refl;
  start = refl;
  free = omega arith;
  room = omega arith;
  within = omega arith;
}

vector_add_example : Adds one (codes "ab" ∷ []) (codes "c") (vector_add one (codes "c"))
vector_add_example = vector_add-Adds one (codes "ab" ∷ []) (codes "c") one-IsVector

vector_pop_example : Pops [] (codes "ab") (vector_pop one)
vector_pop_example = vector_pop-Pops one [] (codes "ab") 0 one-IsVector

vector_get_example : Gets one (some (codes "ab")) (vector_get one 0)
vector_get_example = vector_get-Gets one (codes "ab" ∷ []) 0 0 one-IsVector

-- The same vector after a value that was too large: the free space starts one pointer further.
abbrev lost : Vector
lost = record one { pack = record { curpos = 24; endpos = 46; end = 48 } }

lost-IsVector : IsVector lost (codes "ab" ∷ []) 1
unfolding slice
lost-IsVector = record {
  low = 46;
  stored = (46, refl, omega arith, refl, refl);
  size = refl;
  at_last = refl;
  null = refl;
  start = refl;
  free = omega arith;
  room = omega arith;
  within = omega arith;
}

vector_get_lost_example :
    vector_get (vector_add (vector_add lost (codes "c")).0 (codes "d")).0 2 ≡ some 7
unfolding vector_add item_at
vector_get_lost_example =
    vector_get_lost lost (vector_add lost (codes "c")).0
      (vector_add (vector_add lost (codes "c")).0 (codes "d")).0 (codes "ab" ∷ []) (codes "c")
      (codes "d") 45 44 lost-IsVector refl refl
