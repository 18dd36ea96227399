-- ===== src/Factory/Data.antt =====
-- The state of the factory of sputnikdao-factory2/src/lib.rs, with what it writes to the raw storage
-- beside the contract's own: the codes by their hash, and the values under `OWNER`, `CODE` and
-- `METADATA`. A `Base58CryptoHash` is the number that its 32 bytes spell. The order in which an
-- `UnorderedMap` lists its entries is not modelled.
use sputnik_dao_contract.Base.{ℕ, String, Option, none, List, []}
use sputnik_dao_contract.Map.{Map}

-- `[u8; 2]`
abbrev pub Version : Type 0
Version = ℕ × ℕ

pub record DaoContractMetadata : Type 0 where
  pub version : Version
  pub commit_id : String
  pub changelog_url : Option String

-- The `FactoryManager` has no fields.
pub record SputnikDaoFactory : Type 0 where
  pub daos : List String
  pub codes : Map ℕ (List ℕ)
  pub owner : Option String
  pub default_code_hash : Option ℕ
  pub metadata : Option (Map ℕ DaoContractMetadata)

abbrev pub dao_contract_initial_version : Version
dao_contract_initial_version = (3, 0)

abbrev pub dao_contract_no_data : String
dao_contract_no_data = "no data"

-- The state that `new` starts from.
abbrev pub empty_factory : SputnikDaoFactory
empty_factory = record {
  daos = [];
  codes = [];
  owner = none;
  default_code_hash = none;
  metadata = none;
}
