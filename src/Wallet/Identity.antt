-- ===== src/Wallet/Identity.antt =====
-- The identity that src/Wallet/Wallet.cpp makes at the first start.
use Prim.Native.String.{String}
use bytev.Prelude.{◌≡◌, refl, ap₂, Bool, Option, none, some, true, false, ◌∷◌, ok}
use bytev.Serializer.Buffer.{Bytes}
use bytev.Address.Texts.{set_string-to_string}
use bytev.Address.{
  Address, set_data, to_string, set_node_public, set_node_private, human_node_public,
  human_node_private, ver_node_public, ver_node_private,
}
use bytev.Wallet.{
  Wallet, IdentityRow, IdentityTable, node_identity_load, node_identity_create, started, start,
}

module _ {Db Dh : Type 0} (t : IdentityTable Db) (dh_load : Bytes → Option Dh)
    (decode : String → Bytes) (encode : Bytes → String) where
  -- The row that the first start stores.
  abbrev pub created_row : Bytes → Bytes → Bytes → IdentityRow
  created_row public private der = record {
    public_key = to_string decode encode (set_data ver_node_public public);
    private_key = to_string decode encode (set_data ver_node_private private);
    der512 = der;
    der1024 = der;
  }

  -- The wallet with these keys.
  abbrev pub kept : Bytes → Bytes → Bytes → Wallet Dh
  kept public private der = record {
    node_public = set_data ver_node_public public;
    node_private = set_data ver_node_private private;
    dh512 = dh_load der;
    dh1024 = dh_load der;
  }

  load_absent :
      (w : Wallet Dh) (db : Db)
      → t.identity db ≡ none
      → node_identity_load t dh_load decode encode w db ≡ (w, false)
  unfolding node_identity_load
  load_absent w db h = rw (node_identity_load, h) refl

  load_created :
      (public private der : Bytes) (w : Wallet Dh) (db : Db)
      → t.identity db ≡ some (created_row public private der)
      → decode (encode (ver_node_public ∷ public)) ≡ ver_node_public ∷ public
      → decode (encode (ver_node_private ∷ private)) ≡ ver_node_private ∷ private
      → node_identity_load t dh_load decode encode w db ≡ (kept public private der, true)
  unfolding node_identity_load set_node_public set_node_private set_data
  load_created public private der w db h read read' =
      let public_address = set_data ver_node_public public in
      let private_address = set_data ver_node_private private in
      rw (node_identity_load, h)
        (ap₂
          (λ (x y : Address × Bool).
            let loaded : Wallet Dh = record {
              node_public = x.0;
              node_private = y.0;
              dh512 = dh_load der;
              dh1024 = dh_load der;
            } in
            (loaded, true))
          (set_string-to_string decode encode public_address ver_node_public read)
          (set_string-to_string decode encode private_address ver_node_private read'))

  started-kept :
      (public private der : Bytes) (db : Db)
      → started t dh_load decode encode (kept public private der) db
        ≡ ok (kept public private der, db)
  unfolding started human_node_public set_data
  started-kept public private der db = refl

  -- A start on a database without an identity stores one and leaves the wallet with the very keys
  -- that were made, and a start on that database, from any wallet and with any new keys at hand,
  -- gives the same wallet and changes nothing; a table without a row is taken to give the row that is
  -- stored in it, and the base 58 code to read the two texts that it writes.
  pub start-start :
      (public private der : Bytes) (w : Wallet Dh) (db : Db) (public' private' der' : Bytes)
      (w' : Wallet Dh)
      → t.identity db ≡ none
      → ((db' : Db) (row : IdentityRow)
          → t.identity db' ≡ none
          → t.identity (t.insert_identity db' row) ≡ some row)
      → decode (encode (ver_node_public ∷ public)) ≡ ver_node_public ∷ public
      → decode (encode (ver_node_private ∷ private)) ≡ ver_node_private ∷ private
      → let db' = t.insert_identity db (created_row public private der) in
        (start t dh_load decode encode public private der w db ≡ ok (kept public private der, db'))
        × (start t dh_load decode encode public' private' der' w' db'
            ≡ ok (kept public private der, db'))
  unfolding start node_identity_create human_node_public human_node_private set_data
  start-start public private der w db public' private' der' w' absent stored read read' =
      let row = created_row public private der in
      let first =
        load_created public private der w (t.insert_identity db row) (stored db row absent) read
          read' in
      let second =
        load_created public private der w' (t.insert_identity db row) (stored db row absent) read
          read' in
      let logged = started-kept public private der (t.insert_identity db row) in
      (rw (start, load_absent w db absent, first) logged, rw (start, second) logged)
