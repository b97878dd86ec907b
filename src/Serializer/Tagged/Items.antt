-- ===== src/Serializer/Tagged/Items.antt =====
-- The items of a tagged list of shared/Serializer.cpp, one after another.
use bytev.Prelude.{
  ℕ, suc, ◌+◌, ◌≤◌, ◌<◌, ◌≡◌, refl, ap, ◌∙◌, ◌⊎◌, Bool, true, false, some, List, [], ◌∷◌, ◌++◌,
  append_assoc, append-nil, length, All, length-append, arith, ok,
}
use bytev.Serializer.Buffer.{Bytes, byte, add8, get8}
use bytev.Serializer.Buffer.RoundTrip.{get8-add8}
use bytev.Serializer.Vl.{add_vl, get_vl}
use bytev.Serializer.Vl.RoundTrip.{
  code_length, get_vl-add_vl, add_vl-extends, add_vl-asserts_iff, add_vl-release_iff,
}
use bytev.Serializer.Tagged.{TaggedListItem, add_items, get_items}

-- The sizes at which addVL does not throw.
abbrev pub Fits : Bool → ℕ → Type 0
Fits true n = (n ≤ 12480) ⊎ (n ≡ 918744)
Fits false n = n ≤ 918744

-- A tag is a byte, and the value fits.
abbrev pub IsItem : Bool → TaggedListItem → Type 0
IsItem asserts (tag, v) = (tag < 256) × Fits asserts (length v)

-- The bytes that the items take.
abbrev pub items_length : List TaggedListItem → ℕ
items_length [] = 0
items_length ((tag, v) ∷ l) = 1 + (code_length (length v) + length v) + items_length l

add_vl-Fits :
    (asserts : Bool) (d v : Bytes)
    → Fits asserts (length v)
    → (add_vl asserts d v).1 ≡ ok (length d)
add_vl-Fits true d v h = (add_vl-asserts_iff d v).0.1 h
add_vl-Fits false d v h = (add_vl-release_iff d v).1 h

Fits-le : (asserts : Bool) (n : ℕ) → Fits asserts n → n ≤ 918744
Fits-le true n h = omega arith
Fits-le false n h = h

pub add_items-ok :
    (asserts : Bool) (d : Bytes) (l : List TaggedListItem)
    → All (IsItem asserts) l
    → (add_items asserts d l).1 ≡ ok tt
unfolding add_items
add_items-ok asserts d [] h = refl
add_items-ok asserts d ((tag, v) ∷ l) h =
    rw (add_vl-Fits asserts (add8 d tag).1 v h.0.1, add_items)
      (add_items-ok asserts (add_vl asserts (add8 d tag).1 v).0 l h.1)

chain :
    {x y : Bytes} (d b s s' : Bytes) → x ≡ d ++ (b ++ s) → y ≡ x ++ s' → y ≡ d ++ (b ++ (s ++ s'))
chain d b s s' e e' = e' ∙ rw e (append_assoc d (b ++ s) s' ∙ rw (append_assoc b s s') refl)

chain_two : {x : Bytes} (d b s : Bytes) → x ≡ (d ++ b) ++ s → x ≡ d ++ (b ++ s)
chain_two d b s e = e ∙ append_assoc d b s

-- A call only appends to the buffer.
module _ (asserts : Bool) where
  pub add_items-extends :
      (d : Bytes) (l : List TaggedListItem)
      → All (IsItem asserts) l
      → (s : Bytes) × ((add_items asserts d l).0 ≡ d ++ s)
  unfolding add_items add8
  add_items-extends d [] h = ([], rw append-nil)
  add_items-extends d ((tag, v) ∷ l) h =
      let (s, e) = add_vl-extends asserts (add8 d tag).1 v in
      let (s', e') = add_items-extends (add_vl asserts (add8 d tag).1 v).0 l h.1 in
      (
        byte tag ∷ (s ++ s'),
        rw (add_vl-Fits asserts (add8 d tag).1 v h.0.1, add_items)
            (chain d (byte tag ∷ []) s s' (chain_two d (byte tag ∷ []) s e) e'),
      )

get_items-step :
    (n o tag len : ℕ) (d v : Bytes) (read : List TaggedListItem)
    → get8 d o ≡ some tag
    → get_vl d (o + 1) ≡ ok (some (v, len))
    → get_items (suc n) d read o ≡ get_items n d (read ++ ((tag, v) ∷ [])) (o + 1 + len)
unfolding get_items
get_items-step n o tag len d v read e e' = rw (e, get_items) (rw e')

abbrev pub written : Bool → Bytes → ℕ → Bytes → Bytes
written asserts d tag v = (add_vl asserts (add8 d tag).1 v).0

-- One item in the buffer, whatever the calls that follow append.
module _ (asserts : Bool) (d : Bytes) (tag : ℕ) (v s : Bytes) (h : IsItem asserts (tag, v)) where
  length-written :
      length (written asserts d tag v) ≡ length d + 1 + (code_length (length v) + length v)
  unfolding add8
  length-written =
      (get_vl-add_vl asserts (add8 d tag).1 v [] (Fits-le asserts (length v) h.1)).1
      ∙ omega (arith, length-append d (byte tag ∷ []))

  tag-written : get8 (written asserts d tag v ++ s) (length d) ≡ some tag
  tag-written =
      let (x, e) = add_vl-extends asserts (add8 d tag).1 v in
      rw (e, append_assoc) (get8-add8 d (x ++ s) tag h.0)

  value-written :
      get_vl (written asserts d tag v ++ s) (length d + 1)
      ≡ ok (some (v, code_length (length v) + length v))
  unfolding add8
  value-written =
      rw (← length-append d (byte tag ∷ []))
        (get_vl-add_vl asserts (add8 d tag).1 v s (Fits-le asserts (length v) h.1)).0

add_items-cons :
    (asserts : Bool) (d : Bytes) (tag : ℕ) (v : Bytes) (l : List TaggedListItem)
    → IsItem asserts (tag, v)
    → (add_items asserts d ((tag, v) ∷ l)).0 ≡ (add_items asserts (written asserts d tag v) l).0
unfolding add_items
add_items-cons asserts d tag v l h = rw (add_vl-Fits asserts (add8 d tag).1 v h.1, add_items)

-- The loop of getTaggedList reads the items that the loop of addTaggedList has appended.
pub get_items-add_items :
    (asserts : Bool) (d : Bytes) (l : List TaggedListItem) (read : List TaggedListItem)
    (b t : Bytes)
    → All (IsItem asserts) l
    → b ≡ (add_items asserts d l).0 ++ t
    → get_items (length l) b read (length d) ≡ ok (some (read ++ l, length d + items_length l))
unfolding get_items
get_items-add_items asserts d [] read b t h e = rw append-nil (ground arith)
get_items-add_items asserts d ((tag, v) ∷ l) read b t h e =
    get_items-step (length l) (length d) tag n b v read
      (rw behind (tag-written asserts d tag v (s ++ t) h.0))
      (rw behind (value-written asserts d tag v (s ++ t) h.0))
    ∙ rw (← length-written asserts d tag v [] h.0) (
        get_items-add_items asserts (written asserts d tag v) l (read ++ ((tag, v) ∷ [])) b t h.1
          (e ∙ ap (λ x. x ++ t) (add_items-cons asserts d tag v l h.0))
        ∙ ground
            (arith, append_assoc read ((tag, v) ∷ []) l, length-written asserts d tag v [] h.0))
  where
    n : ℕ
    n = code_length (length v) + length v

    s : Bytes
    s = (add_items-extends asserts (written asserts d tag v) l h.1).0

    behind : b ≡ written asserts d tag v ++ (s ++ t)
    behind =
        e
        ∙ ap (λ x. x ++ t)
            (add_items-cons asserts d tag v l h.0
              ∙ (add_items-extends asserts (written asserts d tag v) l h.1).1)
        ∙ append_assoc _ s t

pub length-add_items :
    (asserts : Bool) (d : Bytes) (l : List TaggedListItem)
    → All (IsItem asserts) l
    → length (add_items asserts d l).0 ≡ length d + items_length l
unfolding add_items
length-add_items asserts d [] h = omega arith
length-add_items asserts d ((tag, v) ∷ l) h = rw (add_items-cons asserts d tag v l h.0) (
    omega (
      arith,
      length-add_items asserts (add_vl asserts (add8 d tag).1 v).0 l h.1,
      length-written asserts d tag v [] h.0,
    ))
