-- ===== src/Serializer/Tagged/RoundTrip.antt =====
-- addTaggedList, getTaggedList and getTaggedListLength of shared/Serializer.cpp together.
use bytev.Prelude.{
  ℕ, ◌+◌, ◌-◌, ◌≤◌, ◌≡◌, refl, ◌∙◌, Bool, true, false, some, List, [], ◌∷◌, ◌++◌, append_assoc,
  length, All, length-append, arith, ok,
}
use bytev.Serializer.Buffer.{Bytes, byte, add8, get8}
use bytev.Serializer.Buffer.RoundTrip.{get8-add8}
use bytev.Serializer.Vl.{encode_length_length}
use bytev.Serializer.Vl.RoundTrip.{code_length}
use bytev.Serializer.Tagged.{
  TaggedListItem, add_items, add_tagged_list, sum_items, get_tagged_list_length, get_items,
  get_tagged_list,
}
use bytev.Serializer.Tagged.Items.{
  Fits, IsItem, items_length, add_items-ok, add_items-extends, get_items-add_items,
  length-add_items,
}

-- A list is read from where its count stands.
count_read :
    (b : Bytes) (o n : ℕ) (l : List TaggedListItem) (stop : ℕ)
    → get8 b o ≡ some n
    → get_items n b [] (o + 1) ≡ ok (some (l, stop))
    → get_tagged_list b o ≡ ok (some (l, stop - o))
unfolding get_tagged_list
count_read b o n l stop e e' = rw (e, get_tagged_list) (rw e')

module _ (asserts : Bool) (d t : Bytes) (l : List TaggedListItem) (h : length l ≤ 255)
    (v : All (IsItem asserts) l) where
  start : Bytes
  start = (add8 d (length l)).1

  length-start : length start ≡ length d + 1
  unfolding start add8
  length-start = omega (arith, length-append d (byte (length l) ∷ []))

  count_written : get8 ((add_items asserts start l).0 ++ t) (length d) ≡ some (length l)
  unfolding start
  count_written =
      let (s, e) = add_items-extends asserts start l v in
      rw (e, append_assoc) (get8-add8 d (s ++ t) (length l) (omega arith))

  list_written :
      get_tagged_list ((add_items asserts start l).0 ++ t) (length d)
      ≡ ok (some (l, 1 + items_length l))
  list_written =
      count_read ((add_items asserts start l).0 ++ t) (length d) (length l) l
        (length start + items_length l) count_written
        (rw (← length-start)
          (get_items-add_items asserts start l [] ((add_items asserts start l).0 ++ t) t v refl))
      ∙ ground (arith, length-start)

add_tagged_list-result :
    (asserts : Bool) (d : Bytes) (l : List TaggedListItem)
    → length l ≤ 255
    → All (IsItem asserts) l
    → add_tagged_list asserts d l
      ≡ ((add_items asserts (add8 d (length l)).1 l).0, ok (some (length d)))
unfolding add_tagged_list add_items add8
add_tagged_list-result asserts d [] h v = refl
add_tagged_list-result asserts d (x ∷ l) h v =
    ground (arith, add_items-ok asserts (add8 d (length (x ∷ l))).1 (x ∷ l) v)

-- A list of at most 255 items whose tags are bytes and whose sizes addVL accepts: addTaggedList
-- returns the old size, getTaggedList reads the same list back there with the number of bytes that
-- it takes, whatever stands before it and is appended later, and that is the number of bytes that
-- the buffer has grown by.
pub get_tagged_list-add_tagged_list :
    (asserts : Bool) (d t : Bytes) (l : List TaggedListItem)
    → length l ≤ 255
    → All (IsItem asserts) l
    → let n = 1 + items_length l in
      let (d', r) = add_tagged_list asserts d l in
      (r ≡ ok (some (length d)))
      × (get_tagged_list (d' ++ t) (length d) ≡ ok (some (l, n)))
      × (length d' ≡ length d + n)
get_tagged_list-add_tagged_list asserts d t l h v = rw (add_tagged_list-result asserts d l h v) (
  refl,
  unfold start in list_written asserts d t l h v,
  unfold start in
      omega
        (arith, length-add_items asserts (add8 d (length l)).1 l v, length-start asserts d t l h v),
)

encode_length_length-Fits : (n : ℕ) → Fits true n → encode_length_length n ≡ ok (code_length n)
unfolding encode_length_length
encode_length_length-Fits n h = ground arith

sum_items_lem :
    (ret : ℕ) (l : List TaggedListItem)
    → All (IsItem true) l
    → sum_items ret l ≡ ok (ret + items_length l)
unfolding sum_items
sum_items_lem ret [] h = ground arith
sum_items_lem ret ((tag, v) ∷ l) h =
    let m = code_length (length v) in
    ground (arith, encode_length_length-Fits (length v), sum_items_lem (ret + (1 + length v + m)) l)

weaken : (asserts : Bool) (l : List TaggedListItem) → All (IsItem true) l → All (IsItem asserts) l
weaken true l h = h
weaken false [] h = tt
weaken false (x ∷ l) h = ((h.0.0, omega arith), weaken false l h.1)

length_measured :
    (l : List TaggedListItem)
    → length l ≤ 255
    → All (IsItem true) l
    → get_tagged_list_length l ≡ ok (some (1 + items_length l))
unfolding get_tagged_list_length
length_measured [] h v = refl
length_measured (x ∷ l) h v = ground (arith, sum_items_lem 1 (x ∷ l) v)

-- getTaggedListLength gives the number of bytes that addTaggedList appends, with or without
-- assertions, for a list of at most 255 items whose tags are bytes and whose sizes the assert of
-- addVL accepts.
pub get_tagged_list_length-add_tagged_list :
    (asserts : Bool) (d : Bytes) (l : List TaggedListItem)
    → length l ≤ 255
    → All (IsItem true) l
    → (n : ℕ) × (get_tagged_list_length l ≡ ok (some n))
      × (length (add_tagged_list asserts d l).0 ≡ length d + n)
get_tagged_list_length-add_tagged_list asserts d l h v = (
  1 + items_length l,
  length_measured l h v,
  (get_tagged_list-add_tagged_list asserts d [] l h (weaken asserts l v)).2,
)

pub add_tagged_list-extends :
    (asserts : Bool) (d : Bytes) (l : List TaggedListItem)
    → length l ≤ 255
    → All (IsItem asserts) l
    → (s : Bytes) × ((add_tagged_list asserts d l).0 ≡ d ++ s)
unfolding add8
add_tagged_list-extends asserts d l h v =
    let (s, e) = add_items-extends asserts (add8 d (length l)).1 l v in
    (
      byte (length l) ∷ s,
      rw (add_tagged_list-result asserts d l h v) (e ∙ append_assoc d (byte (length l) ∷ []) s),
    )
