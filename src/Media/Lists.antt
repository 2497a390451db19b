-- ===== src/Media/Lists.antt =====
-- Lists of players, and tables of serials.
use earport_handoff.Base.{
  ℕ, ◌+◌, ◌≤◌, ◌<◌, ◌≡◌, refl, ap, Bool, true, not, ◌&&◌, ◌||◌, List, [], ◌∷◌, ◌++◌, arith, count,
  bytes_equal, bytes_equal-eq, if◌then◌else◌, ltb,
}
use earport_handoff.Base.Text.{Bytes}
use earport_handoff.HashTable.{find}
use earport_handoff.Media.{
  player_list_contains, player_list_add_unique, player_list_remove, is_some, add_unseen, keys,
  next_serial,
}

-- how often a player stands in a list
abbrev pub occurrences : Bytes → List Bytes → ℕ
occurrences k = count (λ j. bytes_equal j k)

abbrev pub one_if : Bool → ℕ
one_if b = if b then 1 else 0

pub contains-occurrences :
    (l : List Bytes) (k : Bytes) → player_list_contains l k ≡ ltb 0 (occurrences k l)
contains-occurrences [] k = refl
contains-occurrences (p ∷ l) k = ground (arith, contains-occurrences l k)

pub occurrences-append :
    (l : List Bytes) (n k : Bytes)
    → occurrences k (l ++ (n ∷ [])) ≡ occurrences k l + one_if (bytes_equal n k)
occurrences-append [] n k = omega arith
occurrences-append (p ∷ l) n k = omega (arith, occurrences-append l n k)

pub occurrences-key :
    (l : List Bytes) (n k : Bytes) → bytes_equal n k ≡ true → occurrences n l ≡ occurrences k l
occurrences-key l n k h = ap (λ j. occurrences j l) (bytes_equal-eq n k h)

pub occurrences-add_unique :
    (l : List Bytes) (n k : Bytes)
    → occurrences k (player_list_add_unique l n)
      ≡ occurrences k l + (if player_list_contains l n then 0 else one_if (bytes_equal n k))
occurrences-add_unique l n k = ground (arith, occurrences-append l n k)

pub contains-add_unique :
    (l : List Bytes) (n k : Bytes)
    → player_list_contains (player_list_add_unique l n) k
      ≡ (player_list_contains l k || bytes_equal n k)
contains-add_unique l n k = ground (
  arith,
  contains-occurrences (player_list_add_unique l n) k,
  contains-occurrences l k,
  contains-occurrences l n,
  occurrences-add_unique l n k,
  occurrences-key l n k,
)

pub add_unique-le :
    (l : List Bytes) (n k : Bytes)
    → occurrences k l ≤ 1
    → occurrences k (player_list_add_unique l n) ≤ 1
add_unique-le l n k h =
    ground (arith, contains-occurrences l n, occurrences-add_unique l n k, occurrences-key l n k)

pub bytes_equal_trans : (a b c : Bytes) → bytes_equal a b ≡ true → bytes_equal a c ≡ bytes_equal b c
bytes_equal_trans a b c h = ap (λ x. bytes_equal x c) (bytes_equal-eq a b h)

pub occurrences-remove :
    (l : List Bytes) (n k : Bytes)
    → occurrences k (player_list_remove l n)
        + (if player_list_contains l n then one_if (bytes_equal n k) else 0)
      ≡ occurrences k l
occurrences-remove [] n k = omega arith
occurrences-remove (p ∷ l) n k = ground (arith, occurrences-remove l n k, bytes_equal_trans p n k)

pub contains-remove :
    (l : List Bytes) (n k : Bytes)
    → occurrences k l ≤ 1
    → player_list_contains (player_list_remove l n) k
      ≡ (player_list_contains l k && not (bytes_equal n k))
contains-remove l n k h = ground (
  arith,
  contains-occurrences (player_list_remove l n) k,
  contains-occurrences l k,
  contains-occurrences l n,
  occurrences-remove l n k,
  occurrences-key l n k,
)

-- every name of the two lists, once
pub contains-add_unseen :
    (names l : List Bytes) (k : Bytes)
    → player_list_contains (add_unseen l names) k
      ≡ (player_list_contains l k || player_list_contains names k)
contains-add_unseen [] l k = ground arith
contains-add_unseen (n ∷ names) l k =
    ground
      (arith, contains-add_unseen names (player_list_add_unique l n) k, contains-add_unique l n k)

pub add_unseen-le :
    (names l : List Bytes) (k : Bytes)
    → occurrences k l ≤ 1
    → occurrences k (add_unseen l names) ≤ 1
add_unseen-le [] l k h = h
add_unseen-le (n ∷ names) l k h =
    add_unseen-le names (player_list_add_unique l n) k (add_unique-le l n k h)

-- An iteration visits the keys that a lookup finds.
pub contains-keys :
    (es : List (Bytes × ℕ)) (k : Bytes) → player_list_contains (keys es) k ≡ is_some (find k es)
contains-keys [] k = refl
contains-keys ((key, value) ∷ es) k = ground (arith, contains-keys es k)

pub next_serial-ne_zero : (n : ℕ) → 0 < next_serial n
next_serial-ne_zero n = ground arith

pub contains-key :
    (l : List Bytes) (n k : Bytes)
    → bytes_equal n k ≡ true
    → player_list_contains l n ≡ player_list_contains l k
contains-key l n k h = ap (player_list_contains l) (bytes_equal-eq n k h)
