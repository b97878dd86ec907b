-- ===== src/Wallet.antt =====
-- src/Wallet/Wallet.cpp: the identity of the node, loaded or made when it starts. After `start`
-- returns the source calls start of the unique node list, in Unl/Startup.
pub mod Identity
pub mod Restart
use Prim.Native.String.{String}
use bytev.Prelude.{
  Bool, true, false, Option, none, some, Result, ok, throws, runtime, ◌>>=◌, if◌then◌else◌,
}
use bytev.Serializer.Buffer.{Bytes}
use bytev.Address.{
  Address, set_data, set_node_public, set_node_private, human_node_public, human_node_private,
  ver_node_public, ver_node_private,
}

-- mNodePublicKey, mNodePrivateKey, mDh512 and mDh1024; a null pointer is none.
pub record Wallet (Dh : Type 0) : Type 0 where
  pub node_public : Address
  pub node_private : Address
  pub dh512 : Option Dh
  pub dh1024 : Option Dh

-- A row of NodeIdentity: PublicKey, PrivateKey, Dh512 and Dh1024.
pub record IdentityRow : Type 0 where
  pub public_key : String
  pub private_key : String
  pub der512 : Bytes
  pub der1024 : Bytes

-- SELECT * FROM NodeIdentity, of which the first row is read, none when it fails or has no row, and
-- INSERT INTO NodeIdentity, a table that has no key.
pub record IdentityTable (Db : Type 0) : Type 0 where
  pub identity : Db → Option IdentityRow
  pub insert_identity : Db → IdentityRow → Db

-- `dh_load` is DH_der_load, `decode` and `encode` are those of base 58.
module _ {Db Dh : Type 0} (t : IdentityTable Db) (dh_load : Bytes → Option Dh)
    (decode : String → Bytes) (encode : Bytes → String) where
  unfoldable pub node_identity_load : Wallet Dh → Db → Wallet Dh × Bool
  node_identity_load w db = elim (t.identity db) [
    | none ↦ (w, false)
    | some row ↦ (
      record {
        node_public = (set_node_public decode encode row.public_key).0;
        node_private = (set_node_private decode encode row.private_key).0;
        dh512 = dh_load row.der512;
        dh1024 = dh_load row.der1024;
      },
      true,
    )
  ]

  -- The keys of a random seed, and what DH_der_gen gives for 512, which both columns get.
  unfoldable pub node_identity_create : Bytes → Bytes → Bytes → Db → Result Db
  node_identity_create public private der db =
      human_node_public decode encode (set_data ver_node_public public) >>= (λ public_key.
        human_node_private decode encode (set_data ver_node_private private) >>= (λ private_key.
          ok (
            t.insert_identity db (record {
              public_key = public_key;
              private_key = private_key;
              der512 = der;
              der1024 = der;
            }))))

  -- The start logs humanNodePublic of the key that was loaded, which throws for a key that could
  -- not be read.
  unfoldable pub started : Wallet Dh → Db → Result (Wallet Dh × Db)
  started w db = human_node_public decode encode w.node_public >>= (λ text. ok (w, db))

  unfoldable pub start : Bytes → Bytes → Bytes → Wallet Dh → Db → Result (Wallet Dh × Db)
  start public private der w db =
      let (w', found) = node_identity_load w db in
      if found
      then started w' db
      else (node_identity_create public private der db >>= (λ db'.
          let (w'', found') = node_identity_load w' db' in
          if found' then started w'' db' else throws runtime))
