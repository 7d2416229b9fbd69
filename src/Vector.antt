-- ===== src/Vector.antt =====
-- array.c: `ci_vector_t`, a NULL-terminated array of pointers at the start of a block, with the
-- values that they point to at its end. The block's memory has two views: `cells` are the pointers,
-- by their place, and `mem` the bytes. A pointer is an offset into the block, none is NULL.
pub mod Stored
pub mod Values
pub mod Popping
pub mod Gaps
use c_icap_server.Common.{
  ℕ, zero, suc, ◌+◌, ◌-◌, ◌*◌, Bool, true, false, ◌||◌, Option, none, some, List, [], ◌∷◌, ltb, leb,
  ◌==◌, if◌then◌else◌, length, drop, Bytes, memcpy, Allocator,
}
use c_icap_server.Pack.{
  Pack, init_pack_allocator, alloc_unaligned, pack_alloc, alloc_from_rear2, set_start_pos,
  set_end_pos,
}

pub record Vector : Type 0 where
  pub items : ℕ
  pub last : ℕ
  pub max_size : ℕ
  pub count : ℕ
  pub pack : Pack
  pub aligned : Bool
  pub cells : ℕ → Option ℕ
  pub mem : Bytes

-- The bytes of the allocator's structs at the start of a block, of `ci_vector_t`, and of a pointer.
abbrev pub pack_required_size : ℕ
pack_required_size = 96

abbrev pub sizeof_vector : ℕ
sizeof_vector = 56

abbrev pub sizeof_pointer : ℕ
sizeof_pointer = 8

-- A pointer is stored.
unfoldable pub put : (ℕ → Option ℕ) → ℕ → Option ℕ → ℕ → Option ℕ
put cells at q x = if x == at then q else cells x

-- The place of the pointer `i`.
unfoldable pub item_at : Vector → ℕ → ℕ
item_at v i = v.items + sizeof_pointer * i

-- `ci_vector_create`; `fresh` are the pointers that a new block happens to hold.
unfoldable pub vector_create : Allocator → (ℕ → Option ℕ) → ℕ → Option Vector
unfolding put init_pack_allocator pack_alloc alloc_unaligned
vector_create a fresh max_size = elim (a.alloc max_size) [
  | none ↦ none
  | some block ↦
      if leb max_size pack_required_size
      then none
      else let (p₁, vector) =
          pack_alloc (init_pack_allocator (max_size - pack_required_size)) sizeof_vector in
        let (p₂, indx) = alloc_unaligned p₁ sizeof_pointer in
        elim vector [
          | none ↦ none
          | some at ↦ elim indx [
            | none ↦ none
            | some i ↦ some (record {
              items = i;
              last = i;
              max_size = max_size;
              count = 0;
              pack = p₂;
              aligned = true;
              cells = put fresh i none;
              mem = drop pack_required_size block;
            })
          ]
        ]
]

unfoldable pub vector_set_align : Vector → Bool → Vector
vector_set_align v onoff = record v { aligned = onoff }

unfoldable pub vector_get : Vector → ℕ → Option ℕ
unfolding item_at
vector_get v i = if ltb i v.count then v.cells (item_at v i) else none

-- The value and its place are stored once both allocations are there.
unfoldable pub store_value : Vector → Bytes → Option ℕ → Option ℕ → Vector × Option ℕ
unfolding put
store_value v value none item = (v, none)
store_value v value (some indx) none = (v, none)
store_value v value (some indx) (some item) = (
  record v {
    mem = memcpy v.mem item value;
    cells = put (put v.cells v.last (some item)) indx none;
    last = indx;
    count = suc v.count;
  },
  some item,
)

-- `ci_vector_add`: the vector, and where the value is or none.
unfoldable pub vector_add : Vector → Bytes → Vector × Option ℕ
unfolding store_value alloc_unaligned alloc_from_rear2
vector_add v value =
    let (p₁, indx) = alloc_unaligned v.pack sizeof_pointer in
    let (p₂, item) = alloc_from_rear2 p₁ (length value) v.aligned in
    store_value (record v { pack = p₂ }) value indx item

-- The end of the free space, once `n` values are left.
unfoldable pub end_with : Vector → ℕ → Option ℕ
unfolding item_at
end_with v zero = none
end_with v (suc n) = v.cells (item_at v n)

-- `ci_vector_pop`: the vector, and the value's place. The result none is an assertion that fails.
unfoldable pub vector_pop : Vector → Option (Vector × Option ℕ)
unfolding put item_at end_with set_start_pos set_end_pos
vector_pop v =
    if v.count == 0
    then some (v, none)
    else let n = v.count - 1 in
      elim (set_end_pos (set_start_pos v.pack v.last) (end_with v n)) [
        | none ↦ none
        | some p ↦ some (
          record v {
            pack = p;
            count = n;
            last = item_at v n;
            cells = put v.cells (item_at v n) none;
          },
          v.cells (item_at v n),
        )
      ]

-- `ci_vector_get2`: the value's place and its size.
unfoldable pub vector_get2 : Vector → ℕ → Option (ℕ × ℕ)
unfolding item_at end_with
vector_get2 v i = if leb v.count i then none else elim (v.cells (item_at v i)) [
  | none ↦ none
  | some item ↦ elim (end_with v i) [
    | none ↦ some (item, v.max_size - pack_required_size - item)
    | some behind ↦ some (item, behind - item)
  ]
]

-- `ci_vector_iterate` from the place `i` on, up to NULL or until the callback stops; the fuel is more
-- than the pointers that are left.
unfoldable pub iterate_from {ℓ} : {D : Type ℓ} → ℕ → (D → ℕ → D × Bool) → Vector → ℕ → D → D
unfolding item_at
iterate_from zero fn v i state = state
iterate_from (suc fuel) fn v i state = elim (v.cells (item_at v i)) [
  | none ↦ state
  | some item ↦
      let (state', stop) = fn state item in
      let rest = iterate_from fuel fn v (suc i) state' in if stop then state' else rest
]

unfoldable pub vector_data_size : Vector → Option ℕ
unfolding end_with
vector_data_size v = elim (end_with v v.count) [
  | none ↦ none
  | some start ↦ some (v.max_size - pack_required_size - start)
]
