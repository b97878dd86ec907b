-- ===== src/Serializer/Tagged.antt =====
-- shared/Serializer.cpp: lists of tagged values. The two overloads, over std::list and std::vector,
-- have the same body. A tag is a C++ int that is not negative.
pub mod Items
pub mod RoundTrip
use bytev.Prelude.{
  ℕ, zero, suc, ◌+◌, ◌-◌, Bool, Option, none, some, List, [], ◌∷◌, ◌++◌, length, ltb, ◌==◌,
  if◌then◌else◌, Result, ok, throws, ◌>>=◌,
}
use bytev.Serializer.Buffer.{Bytes, add8, get8}
use bytev.Serializer.Vl.{add_vl, get_vl, encode_length_length}

abbrev pub TaggedListItem : Type 0
TaggedListItem = ℕ × Bytes

-- The loop of addTaggedList; an exception of addVL leaves it.
unfoldable pub add_items : Bool → Bytes → List TaggedListItem → Bytes × Result (Unit {0})
add_items asserts d [] = (d, ok tt)
add_items asserts d ((tag, v) ∷ l) =
    let (d', r) = add_vl asserts (add8 d tag).1 v in
    elim r [ throws e ↦ (d', throws e) | ok ret ↦ add_items asserts d' l ]

-- `none` is the result -1. The buffer is what is left in `mData`, also when the call throws.
unfoldable pub add_tagged_list : Bool → Bytes → List TaggedListItem → Bytes × Result (Option ℕ)
add_tagged_list asserts d l =
    if ltb 255 (length l)
    then (d, ok none)
    else (let (ret, d') = add8 d (length l) in
        if length l == 0
        then (d', ok (some ret))
        else (let (d'', r) = add_items asserts d' l in (d'', (do u ← r; ok (some ret)))))

-- The loop of getTaggedListLength, from the sum so far.
unfoldable pub sum_items : ℕ → List TaggedListItem → Result ℕ
sum_items ret [] = ok ret
sum_items ret ((tag, v) ∷ l) = do
  m ← encode_length_length (length v)
  sum_items (ret + (1 + length v + m)) l

unfoldable pub get_tagged_list_length : List TaggedListItem → Result (Option ℕ)
get_tagged_list_length l =
    if ltb 255 (length l)
    then ok none
    else if length l == 0
    then ok (some 1)
    else do ret ← sum_items 1 l; ok (some ret)

-- The loop of getTaggedList, with the rounds left, the list so far and the offset.
unfoldable pub get_items :
    ℕ → Bytes → List TaggedListItem → ℕ → Result (Option (List TaggedListItem × ℕ))
get_items zero d l o = ok (some (l, o))
get_items (suc n) d l o = elim (get8 d o) [
  | none ↦ ok none
  | some tag ↦ do
    r ← get_vl d (o + 1)
    elim r [ none ↦ ok none | some (v, len) ↦ get_items n d (l ++ ((tag, v) ∷ [])) (o + 1 + len) ]
]

-- The pair is what goes out through `list` and `length`.
unfoldable pub get_tagged_list : Bytes → ℕ → Result (Option (List TaggedListItem × ℕ))
get_tagged_list d o = elim (get8 d o) [
  | none ↦ ok none
  | some count ↦ do
    r ← get_items count d [] (o + 1)
    ok (elim r [ none ↦ none | some (l, end) ↦ some (l, end - o) ])
]
