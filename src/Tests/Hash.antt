-- ===== src/Tests/Hash.antt =====
-- Instances of the theorems of Hash, at a table whose keys are texts with their lengths.
use c_icap_server.Common.{
  ℕ, ◌++◌, List, length-append, ◌≡◌, refl, ap, ◌∙◌, ◌&&◌, Bool, true, false, some, [], ◌∷◌, Bytes,
  length, codes, arith, ◌==◌, replicate,
}
use c_icap_server.Hash.{
  TypeOps, Table, hash_search, hash_build, hash_compute, hash_counted, hash_step, mask,
}
use c_icap_server.Hash.Bounds.{IsTable, IsBuilt, hash_build-IsBuilt}
use c_icap_server.Hash.Sequence.{Readable, add_all, latest, search-add_all}
use c_icap_server.Hash.Lookup.{Respects}

abbrev same_text : Bytes → Bytes → Bool
same_text [] [] = true
same_text [] (c ∷ s) = false
same_text (c ∷ s) [] = false
same_text (c ∷ s) (d ∷ s') = (c == d) && same_text s s'

abbrev text_ops : TypeOps Bytes
text_ops = record { bytes = λ s. s; size = length; matches = same_text }

same_text-eq : (s s' : Bytes) → same_text s s' ≡ true → s ≡ s'
same_text-eq [] [] h = refl
same_text-eq [] (c ∷ s) h = absurd (cc h)
same_text-eq (c ∷ s) [] h = absurd (cc h)
same_text-eq (c ∷ s) (d ∷ s') h =
    let head : c ≡ d = ground arith in
    let tail : same_text s s' ≡ true = ground arith in
    ap (λ x. x ∷ s) head ∙ ap (λ xs. d ∷ xs) (same_text-eq s s' tail)

text_ops-Respects : Respects text_ops
text_ops-Respects s s' h = (same_text-eq s s' h, ap length (same_text-eq s s' h))

abbrev empty_table : Table Bytes ℕ
empty_table = record { hash_table = replicate 64 []; hash_table_size = 63 }

hash_build-IsBuilt_example : IsBuilt 1000 (hash_build {K = Bytes} {V = ℕ} true true 1000)
hash_build-IsBuilt_example = hash_build-IsBuilt Bytes ℕ 1000

-- Keys that are texts with their NUL.
abbrev string_ops : TypeOps Bytes
string_ops = record {
  bytes = λ s. s ++ (0 ∷ []);
  size = λ s. length (s ++ (0 ∷ []));
  matches = same_text;
}

hash_counted-length : (s : Bytes) (hash : ℕ) → (h : ℕ) × (hash_counted (length s) hash s ≡ some h)
unfolding hash_counted
hash_counted-length [] hash = (hash, refl)
hash_counted-length (c ∷ s) hash = hash_counted-length s (hash_step hash c)

string_ops-Readable : Readable string_ops
unfolding hash_compute
string_ops-Readable s m =
    let (h, e) = hash_counted-length (s ++ (0 ∷ [])) 5381 in
    let some_ : (length (s ++ (0 ∷ [])) == 0) ≡ false = ground (arith, length-append s (0 ∷ [])) in
    (mask m h, rw (hash_compute, some_, e) refl)

string_ops-Respects : Respects string_ops
string_ops-Respects s s' h = (
  ap (λ t. t ++ (0 ∷ [])) (same_text-eq s s' h),
  ap (λ t. length (t ++ (0 ∷ []))) (same_text-eq s s' h),
)

abbrev two_pairs : List (Bytes × ℕ)
two_pairs = (codes "a", 7) ∷ (codes "a", 8) ∷ []

search-add_all_example :
    (t' : Table Bytes ℕ) × (add_all string_ops empty_table two_pairs ≡ some t')
    × IsTable t'
    × ((key : Bytes)
        → hash_search string_ops t' key
          ≡ latest string_ops key two_pairs (hash_search string_ops empty_table key))
search-add_all_example =
    search-add_all string_ops empty_table two_pairs string_ops-Respects string_ops-Readable refl
