-- ===== src/Mock/Config.antt =====
-- The records of H2Server_Config_Schema.h that requests and responses are built from.
use h2loadrunner.Base.{ℕ, Bool, List}
use h2loadrunner.Text.{Bytes}
use h2loadrunner.Text.Decimal.{ℤ}

pub record SchemaHeaderMatch : Type 0 where
  pub match_type : Bytes
  pub header : Bytes
  pub input : Bytes

pub record SchemaPayloadMatch : Type 0 where
  pub match_type : Bytes
  pub json_pointer : Bytes
  pub input : Bytes

pub record SchemaRequestMatch : Type 0 where
  pub header_match : List SchemaHeaderMatch
  pub payload_match : List SchemaPayloadMatch
  pub name : Bytes

pub record SchemaArgument : Type 0 where
  pub type_of_value : Bytes
  pub value_identifier : Bytes
  pub substring_start : ℤ
  pub substring_length : ℤ
  pub regex : Bytes

pub record SchemaResponsePayload : Type 0 where
  pub msg_payload : Bytes
  pub placeholder : Bytes
  pub arguments : List SchemaArgument

pub record SchemaResponseHeader : Type 0 where
  pub header : Bytes
  pub placeholder : Bytes
  pub arguments : List SchemaArgument

-- `throttle_ratio` is kept as `is_response_throttled` uses it: whether it is above zero, and the
-- value scaled by 10000 and cut to an integer. The Lua script is left out.
pub record SchemaResponseToReturn : Type 0 where
  pub status_code : ℕ
  pub throttle_positive : Bool
  pub scaled_throttle_ratio : ℕ
  pub payload : SchemaResponsePayload
  pub additonal_headers : List SchemaResponseHeader
  pub weight : ℕ
  pub name : Bytes

pub record SchemaService : Type 0 where
  pub request : SchemaRequestMatch
  pub responses : List SchemaResponseToReturn
