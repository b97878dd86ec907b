-- ===== src/Unl/Sources.antt =====
-- The points that src/UniqueNodeList/UniqueNodeList.cpp gives to distribute for each kind of
-- source (src/UniqueNodeList/ValidatorSource.h).
use bytev.Prelude.{ℕ}

-- `validatorSource`; the value of an enum that is none of them does not occur.
pub data Source : Type 0 where
  config inbound manual referral told validator web : Source

-- iSourceScore
unfoldable pub source_score : Source → ℕ
source_score config = 1500
source_score inbound = 0
source_score manual = 1500
source_score referral = 0
source_score told = 0
source_score validator = 1000
source_score web = 200
