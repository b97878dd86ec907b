-- ===== src/Prelude/Reverse.antt =====
-- A list turned round: its values, what is repeated in it, and what holds of all of it.
use Prim.Native.Nat.{ℕ, zero, suc}
use mathlib.Core.Path.{◌≡◌, refl, sym, ap, subst, ◌∙◌}
use mathlib.Core.List.{List, [], ◌∷◌, ◌++◌, map, append-nil, reverse, reverse-cons, map-append}
use native.Mathlib.Omega.{arith}
use bytev.Prelude.Lists.{replicate, length, length-append, All, All-append}

module _ {ℓ} {A : Type ℓ} where
  replicate-snoc :
      (z : ℕ) (a : A) (xs : List A) → replicate z a ++ (a ∷ xs) ≡ a ∷ (replicate z a ++ xs)
  replicate-snoc zero a xs = refl
  replicate-snoc (suc z) a xs = ap (◌∷◌ a) (replicate-snoc z a xs)

  pub reverse-replicate : (z : ℕ) (a : A) → reverse (replicate z a) ≡ replicate z a
  reverse-replicate zero a = refl
  reverse-replicate (suc z) a =
      reverse-cons a (replicate z a)
      ∙ ap (λ (xs : List A). xs ++ (a ∷ [])) (reverse-replicate z a)
      ∙ replicate-snoc z a []
      ∙ ap (◌∷◌ a) (append-nil (replicate z a))

  pub All-reverse {κ} : (P : A → Type κ) (xs : List A) → All P xs → All P (reverse xs)
  All-reverse P [] h = tt
  All-reverse P (x ∷ xs) h =
      subst (All P) (sym (reverse-cons x xs))
        (All-append P (reverse xs) (x ∷ []) (All-reverse P xs h.1) (h.0, tt))

  pub All-replicate {κ} : (P : A → Type κ) (z : ℕ) (a : A) → P a → All P (replicate z a)
  All-replicate P zero a h = tt
  All-replicate P (suc z) a h = (h, All-replicate P z a h)

  pub length-reverse : (xs : List A) → length (reverse xs) ≡ length xs
  length-reverse [] = refl
  length-reverse (x ∷ xs) =
      omega (
        arith,
        ap length (reverse-cons x xs),
        length-append (reverse xs) (x ∷ []),
        length-reverse xs,
      )

module _ {ℓ κ} {A : Type ℓ} {B : Type κ} (f : A → B) where
  pub map-reverse : (xs : List A) → reverse (map f xs) ≡ map f (reverse xs)
  map-reverse [] = refl
  map-reverse (x ∷ xs) =
      reverse-cons (f x) (map f xs)
      ∙ ap (λ (ys : List B). ys ++ (f x ∷ [])) (map-reverse xs)
      ∙ sym (map-append f (reverse xs) (x ∷ []))
      ∙ ap (map f) (sym (reverse-cons x xs))

  pub map-replicate : (z : ℕ) (a : A) → replicate z (f a) ≡ map f (replicate z a)
  map-replicate zero a = refl
  map-replicate (suc z) a = ap (◌∷◌ (f a)) (map-replicate z a)
