-- ===== src/Serializer/Iterator/Messages.antt =====
-- A client of shared/Serializer.cpp: a message of typed fields, written field by field into a
-- Serializer and read field by field through a SerializerIterator.
use bytev.Prelude.{
  ℕ, ◌+◌, ◌^◌, ◌≤◌, ◌<◌, ◌≡◌, refl, ap, subst, sym, ◌∙◌, Bool, List, [], ◌∷◌, ◌++◌, map,
  append_assoc, append-nil, length, All, length-append, arith, Result, ok, ◌>>=◌,
}
use bytev.Serializer.Buffer.{Bytes, add8, add16, add32, add64, add128, add160, add256}
use bytev.Serializer.Buffer.RoundTrip.{
  get8-add8, get16-add16, get32-add32, get64-add64, get128-add128, get160-add160, get256-add256,
}
use bytev.Serializer.Vl.{add_vl}
use bytev.Serializer.Vl.RoundTrip.{get_vl-add_vl, add_vl-extends}
use bytev.Serializer.Tagged.{TaggedListItem, add_tagged_list}
use bytev.Serializer.Tagged.Items.{IsItem}
use bytev.Serializer.Tagged.RoundTrip.{get_tagged_list-add_tagged_list, add_tagged_list-extends}
use bytev.Serializer.Iterator.{
  next8, next16, next32, next64, next128, next160, next256, next_vl, next_tagged_list,
}

pub data Field : Type 0 where
  u8 u16 u32 u64 : ℕ → Field
  u128 u160 u256 vl : Bytes → Field
  tagged : List TaggedListItem → Field

pub data Kind : Type 0 where
  k8 k16 k32 k64 k128 k160 k256 kvl ktagged : Kind

abbrev pub kind : Field → Kind
kind (u8 i) = k8
kind (u16 i) = k16
kind (u32 i) = k32
kind (u64 i) = k64
kind (u128 v) = k128
kind (u160 v) = k160
kind (u256 v) = k256
kind (vl v) = kvl
kind (tagged l) = ktagged

-- The values that each writer takes whole.
abbrev pub IsField : Bool → Field → Type 0
IsField asserts (u8 i) = i < 256
IsField asserts (u16 i) = i < 2 ^ 16
IsField asserts (u32 i) = i < 2 ^ 32
IsField asserts (u64 i) = i < 2 ^ 64
IsField asserts (u128 v) = length v ≡ 16
IsField asserts (u160 v) = length v ≡ 20
IsField asserts (u256 v) = length v ≡ 32
IsField asserts (vl v) = length v ≤ 918744
IsField asserts (tagged l) = (length l ≤ 255) × All (IsItem asserts) l

-- The buffer after the writer of the field.
unfoldable pub put : Bool → Bytes → Field → Bytes
put asserts d (u8 i) = (add8 d i).1
put asserts d (u16 i) = (add16 d i).1
put asserts d (u32 i) = (add32 d i).1
put asserts d (u64 i) = (add64 d i).1
put asserts d (u128 v) = (add128 d v).1
put asserts d (u160 v) = (add160 d v).1
put asserts d (u256 v) = (add256 d v).1
put asserts d (vl v) = (add_vl asserts d v).0
put asserts d (tagged l) = (add_tagged_list asserts d l).0

unfoldable pub put_all : Bool → Bytes → List Field → Bytes
put_all asserts d [] = d
put_all asserts d (f ∷ fs) = put_all asserts (put asserts d f) fs

abbrev as_field {ℓ} : {A : Type ℓ} → (A → Field) → Result (A × ℕ) → Result (Field × ℕ)
as_field f r = do (a, pos) ← r; ok (f a, pos)

unfoldable pub next : Kind → Bytes → ℕ → Result (Field × ℕ)
next k8 d pos = as_field u8 (next8 d pos)
next k16 d pos = as_field u16 (next16 d pos)
next k32 d pos = as_field u32 (next32 d pos)
next k64 d pos = as_field u64 (next64 d pos)
next k128 d pos = as_field u128 (next128 d pos)
next k160 d pos = as_field u160 (next160 d pos)
next k256 d pos = as_field u256 (next256 d pos)
next kvl d pos = as_field vl (next_vl d pos)
next ktagged d pos = as_field tagged (next_tagged_list d pos)

unfoldable pub next_all : List Kind → Bytes → ℕ → Result (List Field × ℕ)
next_all [] d pos = ok ([], pos)
next_all (k ∷ ks) d pos = do
  (f, pos') ← next k d pos
  (fs, stop) ← next_all ks d pos'
  ok (f ∷ fs, stop)

-- A writer only appends.
put-extends :
    (asserts : Bool) (d : Bytes) (f : Field)
    → IsField asserts f
    → (s : Bytes) × (put asserts d f ≡ d ++ s)
unfolding put add8 add16 add32 add64 add128 add160 add256
put-extends asserts d (u8 i) h = (_, refl)
put-extends asserts d (u16 i) h = (_, refl)
put-extends asserts d (u32 i) h = (_, refl)
put-extends asserts d (u64 i) h = (_, refl)
put-extends asserts d (u128 v) h = (v, refl)
put-extends asserts d (u160 v) h = (v, refl)
put-extends asserts d (u256 v) h = (v, refl)
put-extends asserts d (vl v) h = add_vl-extends asserts d v
put-extends asserts d (tagged l) h = add_tagged_list-extends asserts d l h.0 h.1

put_all-extends :
    (asserts : Bool) (d : Bytes) (fs : List Field)
    → All (IsField asserts) fs
    → (s : Bytes) × (put_all asserts d fs ≡ d ++ s)
unfolding put_all
put_all-extends asserts d [] h = ([], rw append-nil)
put_all-extends asserts d (f ∷ fs) h =
    let (s, e) = put-extends asserts d f h.0 in
    let (s', e') = put_all-extends asserts (put asserts d f) fs h.1 in
    (s ++ s', e' ∙ ap (λ x. x ++ s') e ∙ append_assoc d s s')

end-append : (d s : Bytes) (n : ℕ) → length s ≡ n → length d + n ≡ length (d ++ s)
end-append d s n h = omega (arith, length-append d s)

-- The reader of the field's kind reads what its writer has appended.
next-put :
    (asserts : Bool) (d t : Bytes) (f : Field)
    → IsField asserts f
    → next (kind f) (put asserts d f ++ t) (length d) ≡ ok (f, length (put asserts d f))
unfolding put next next8 next16 next32 next64 next128 next160 next256 next_vl next_tagged_list add8
    add16 add32 add64 add128 add160 add256
next-put asserts d t (u8 i) h =
    rw (get8-add8 d t i h) (ground (arith, end-append d (add8 [] i).1 1))
next-put asserts d t (u16 i) h =
    rw (get16-add16 d t i h) (ground (arith, end-append d (add16 [] i).1 2))
next-put asserts d t (u32 i) h =
    rw (get32-add32 d t i h) (ground (arith, end-append d (add32 [] i).1 4))
next-put asserts d t (u64 i) h =
    rw (get64-add64 d t i h) (ground (arith, end-append d (add64 [] i).1 8))
next-put asserts d t (u128 v) h = rw (get128-add128 d t v h) (ground (arith, end-append d v 16))
next-put asserts d t (u160 v) h = rw (get160-add160 d t v h) (ground (arith, end-append d v 20))
next-put asserts d t (u256 v) h = rw (get256-add256 d t v h) (ground (arith, end-append d v 32))
next-put asserts d t (vl v) h = let (e, e') = get_vl-add_vl asserts d v t h in rw e (ground arith)
next-put asserts d t (tagged l) h =
    let (r, e, e') = get_tagged_list-add_tagged_list asserts d t l h.0 h.1 in rw e (ground arith)

next_all-after :
    (asserts : Bool) (d t b : Bytes) (fs : List Field)
    → All (IsField asserts) fs
    → b ≡ put_all asserts d fs ++ t
    → next_all (map kind fs) b (length d) ≡ ok (fs, length (put_all asserts d fs))
unfolding next_all put_all
next_all-after asserts d t b [] h e = refl
next_all-after asserts d t b (f ∷ fs) h e =
    let (s, e') = put_all-extends asserts (put asserts d f) fs h.1 in
    let behind : b ≡ put asserts d f ++ (s ++ t) =
      e ∙ ap (λ x. x ++ t) e' ∙ append_assoc (put asserts d f) s t in
    ground (
      arith,
      subst (λ x. next (kind f) x (length d) ≡ ok (f, length (put asserts d f))) (sym behind)
          (next-put asserts d (s ++ t) f h.0),
      next_all-after asserts (put asserts d f) t b fs h.1 e,
    )

-- A message of any number of fields whose values their writers take whole is read back field by
-- field, by the readers of the same kinds in the same order: every value returns, no reader
-- throws, and the position ends where the message ends, whatever stands before the message and is
-- appended later.
pub next_all-put_all :
    (asserts : Bool) (d t : Bytes) (fs : List Field)
    → All (IsField asserts) fs
    → let d' = put_all asserts d fs in
      next_all (map kind fs) (d' ++ t) (length d) ≡ ok (fs, length d')
next_all-put_all asserts d t fs h = next_all-after asserts d t (put_all asserts d fs ++ t) fs h refl
