-- ===== src/Tests/Pairs.antt =====
-- A table with strings for keys: a list of pairs, each key in one of them.
use earport_handoff.Base.{
  ◌≤◌, ◌≡◌, refl, sym, ap, ◌∙◌, inl, inr, Bool, none, some, List, [], ◌∷◌, arith, count,
  bytes_equal, bytes_equal-eq, Bool-cases, if◌then◌else◌,
}
use earport_handoff.Base.Text.{Bytes}
use earport_handoff.HashTable.{StringTable, StringTableLaws, has_key, find, without}

pub record Pairs (V : Type 0) : Type 0 where
  pub pairs : List (Bytes × V)
  pub distinct : (k : Bytes) → count (has_key k) pairs ≤ 1

pub without-le :
    {V : Type 0} (test : Bytes × V → Bool) (k : Bytes) (es : List (Bytes × V))
    → count test (without k es) ≤ count test es
without-le test k [] = omega arith
without-le test k ((key, value) ∷ es) = ground (arith, without-le test k es)

without-key :
    {V : Type 0} (k : Bytes) (es : List (Bytes × V)) → count (has_key k) (without k es) ≡ 0
without-key k [] = refl
without-key k ((key, value) ∷ es) = ground (arith, without-key k es)

pub put-distinct :
    {V : Type 0} (k j : Bytes) (v : V) (es : List (Bytes × V))
    → count (has_key j) es ≤ 1
    → count (has_key j) ((k, v) ∷ without k es) ≤ 1
put-distinct k j v es h = elim (Bool-cases (bytes_equal k j)) [
  | inl same ↦
      let e : count (has_key j) (without k es) ≡ 0 =
        ap (λ n. count (has_key j) (without n es)) (bytes_equal-eq k j same) ∙ without-key j es in
      ground arith
  | inr other ↦ ground (arith, without-le (has_key j) k es)
]

pub find-without :
    {V : Type 0} (k j : Bytes) (es : List (Bytes × V))
    → find j (without k es) ≡ (if bytes_equal k j then none else find j es)
find-without k j [] = elim (Bool-cases (bytes_equal k j)) [ inl e ↦ rw e | inr e ↦ rw e ]
find-without k j ((key, value) ∷ es) = elim (Bool-cases (bytes_equal key k)) [
  | inl same ↦
      let e : bytes_equal key j ≡ bytes_equal k j =
        ap (λ n. bytes_equal n j) (bytes_equal-eq key k same) in
      ground (arith, find-without k j es)
  | inr other ↦ elim (Bool-cases (bytes_equal k j)) [
    | inl here ↦
        let e : bytes_equal key j ≡ bytes_equal key k =
          ap (bytes_equal key) (sym (bytes_equal-eq k j here)) in
        ground (arith, find-without k j es)
    | inr away ↦ ground (arith, find-without k j es)
  ]
]

pub find-put :
    {V : Type 0} (k : Bytes) (v : V) (j : Bytes) (es : List (Bytes × V))
    → find j ((k, v) ∷ without k es) ≡ (if bytes_equal k j then some v else find j es)
find-put k v j es = elim (Bool-cases (bytes_equal k j)) [
  | inl e ↦ rw e
  | inr e ↦ rw e (find-without k j es ∙ rw e)
]

abbrev pub pairs_table : (V : Type 0) → StringTable V
pairs_table V = record {
  Table = Pairs V;
  new = record { pairs = []; distinct = λ k. omega arith };
  lookup = λ t k. find k t.pairs;
  replace = λ t k v. record {
    pairs = (k, v) ∷ without k t.pairs;
    distinct = λ j. put-distinct k j v t.pairs (t.distinct j);
  };
  remove = λ t k. record {
    pairs = without k t.pairs;
    distinct = λ j. omega (arith, without-le (has_key j) k t.pairs, t.distinct j);
  };
  entries = λ t. t.pairs;
}

abbrev pub pairs_table_laws : (V : Type 0) → StringTableLaws (pairs_table V)
pairs_table_laws V = record {
  entries-new = refl;
  lookup-find = λ t k. refl;
  lookup-replace = λ t k v j. find-put k v j t.pairs;
  lookup-remove = λ t k j. find-without k j t.pairs;
  keys_distinct = λ t k. t.distinct k;
  entries-replace = λ t k v test. refl;
  entries-remove = λ t k test. refl;
}
