-- ===== src/Wallet/Restart.antt =====
-- The identity of src/Wallet/Wallet.cpp over the base 58 code of shared/base58.h.
use bytev.Prelude.{◌≡◌, Option, none, some, ◌∷◌, ok, arith}
use bytev.Serializer.Buffer.{Bytes}
use bytev.Address.{ver_node_public, ver_node_private}
use bytev.Base58.{decode_check, encode_check}
use bytev.Base58.Checksum.{IsBytes, IsHash, decode_check-encode_check}
use bytev.Wallet.{Wallet, IdentityRow, IdentityTable, start}
use bytev.Wallet.Identity.{created_row, kept, start-start}

module _ {Db Dh : Type 0} (t : IdentityTable Db) (dh_load : Bytes → Option Dh)
    (sha256 : Bytes → Bytes) (hash : IsHash sha256) where
  -- A start on a database without an identity stores one and leaves the wallet with the very keys
  -- that were made, and a start on that database, from any wallet and with any new keys at hand,
  -- gives the same wallet and changes nothing, if the keys are bytes; a table without a row is taken
  -- to give the row that is stored in it, and the hash to give bytes, at least four.
  pub start-start_check :
      (public private der : Bytes) (w : Wallet Dh) (db : Db) (public' private' der' : Bytes)
      (w' : Wallet Dh)
      → IsBytes public
      → IsBytes private
      → t.identity db ≡ none
      → ((db' : Db) (row : IdentityRow)
          → t.identity db' ≡ none
          → t.identity (t.insert_identity db' row) ≡ some row)
      → let read = decode_check sha256 in
        let write = encode_check sha256 in
        let db' = t.insert_identity db (created_row t dh_load read write public private der) in
        let made = kept t dh_load read write public private der in
        (start t dh_load read write public private der w db ≡ ok (made, db'))
        × (start t dh_load read write public' private' der' w' db' ≡ ok (made, db'))
  start-start_check public private der w db public' private' der' w' low low' absent stored =
      start-start t dh_load (decode_check sha256) (encode_check sha256) public private der w db
        public' private' der' w' absent stored
        (decode_check-encode_check sha256 hash (ver_node_public ∷ public) (omega arith, low))
        (decode_check-encode_check sha256 hash (ver_node_private ∷ private) (omega arith, low'))
