-- ===== src/Checks/Wallets.antt =====
-- src/Wallet/Wallet.cpp on a table of identities, of which the first row is read.
use mathlib.Core.Option.{some-ne-none}
use bytev.Prelude.{Option, none, some, List, [], ◌∷◌, ◌++◌, ◌≡◌, ◌%◌, length, refl, ok, arith}
use bytev.Serializer.Buffer.{Bytes}
use bytev.Address.{cleared}
use bytev.Base58.{decode_check, encode_check}
use bytev.Base58.Checksum.{IsHash}
use bytev.Wallet.{Wallet, IdentityRow, IdentityTable, start}
use bytev.Wallet.Identity.{created_row, kept}
use bytev.Wallet.Restart.{start-start_check}

abbrev first : List IdentityRow → Option IdentityRow
first [] = none
first (row ∷ db) = some row

-- A new row comes behind the rows that are there.
abbrev rows : IdentityTable (List IdentityRow)
rows = record { identity = first; insert_identity = λ db row. db ++ (row ∷ []) }

first-append :
    (db : List IdentityRow) (row : IdentityRow)
    → first db ≡ none
    → first (db ++ (row ∷ [])) ≡ some row
first-append [] row h = refl
first-append (row' ∷ db) row h = absurd (some-ne-none row' h)

abbrev dh_of : Bytes → Option Bytes
dh_of der = some der

abbrev sum : Bytes → Bytes
sum bytes = (length bytes % 256) ∷ 4 ∷ 3 ∷ 2 ∷ 1 ∷ []

sum-IsHash : IsHash sum
sum-IsHash bytes =
    (omega arith, (omega arith, (omega arith, (omega arith, (omega arith, (omega arith, tt))))))

abbrev unset : Wallet Bytes
unset = record { node_public = cleared; node_private = cleared; dh512 = none; dh1024 = none }

start-start_check_example :
    let read = decode_check sum in
    let write = encode_check sum in
    let db = created_row rows dh_of read write (1 ∷ []) (2 ∷ []) (3 ∷ []) ∷ [] in
    let made = kept rows dh_of read write (1 ∷ []) (2 ∷ []) (3 ∷ []) in
    (start rows dh_of read write (1 ∷ []) (2 ∷ []) (3 ∷ []) unset [] ≡ ok (made, db))
    × (start rows dh_of read write (7 ∷ []) (8 ∷ []) (9 ∷ []) unset db ≡ ok (made, db))
start-start_check_example =
    start-start_check rows dh_of sum sum-IsHash (1 ∷ []) (2 ∷ []) (3 ∷ []) unset [] (7 ∷ [])
      (8 ∷ []) (9 ∷ []) unset (omega arith, tt) (omega arith, tt) refl first-append
