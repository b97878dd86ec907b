-- ===== src/Unl/Sites/Refused.antt =====
-- The entries that processValidators of src/UniqueNodeList/UniqueNodeList.cpp refuses.
use Prim.Native.String.{String}
use bytev.Prelude.{
  ℕ, ◌≡◌, refl, ap, subst, ◌∙◌, inl, inr, true, false, not, Option, none, some, List, [], ◌∷◌, ◌==◌,
  All, Bool-cases, Option-cases,
}
use bytev.Address.{cleared, is_other}
use bytev.Address.Texts.{set_seed_generic-not_other}
use bytev.Unl.Sources.{Source}
use bytev.Unl.State.{Tables, Reader, is_seed, NodeList}
use bytev.Unl.Sites.{add_validators, referral_max}

module _ (rd : Reader) where
  -- An entry whose first word is no address, such as the name of a domain.
  abbrev pub NamesNoAddress : Option (String × String) → Type 0
  NamesNoAddress none = Unit
  NamesNoAddress (some (refered, comment)) = is_other rd.decode rd.encode refered ≡ false

  abbrev pub IsNoAddress : String → Type 0
  IsNoAddress text = NamesNoAddress (rd.referral text)

  refuses :
      (refered : String) → is_other rd.decode rd.encode refered ≡ false → is_seed rd refered ≡ true
  refuses refered h =
      set_seed_generic-not_other rd.decode rd.encode rd.seed_of_words rd.seed_of_phrase cleared
        refered
      ∙ ap not h

module _ {Db : Type 0} (t : Tables Db) (rd : Reader) (now : ℕ) where
  -- Entries of which none names an address, as the names of domains do not, change nothing: no
  -- domain is added, no row is inserted and nothing is started.
  pub add_validators-refused :
      (why : Source) (i : ℕ) (texts : List String) (p : NodeList Db)
      → All (IsNoAddress rd) texts
      → add_validators t rd now why i texts p ≡ ((p, []), [], i)
  unfolding add_validators
  add_validators-refused why i [] p h = refl
  add_validators-refused why i (text ∷ texts) p h = elim (Bool-cases (i == referral_max)) [
    | inl e ↦ rw (e, add_validators) refl
    | inr e ↦ elim (Option-cases (rd.referral text)) [
      | inl e' ↦ rw (e, add_validators, e') (add_validators-refused why i texts p h.1)
      | inr ((refered, comment), e') ↦
          rw (e, add_validators, e', refuses rd refered (subst (NamesNoAddress rd) e' h.0))
            (add_validators-refused why i texts p h.1)
    ]
  ]
