-- ===== src/Registry/Decls.antt =====
-- The declarations of internal/registry/registry.go. `json.RawMessage` is a text; the types of the
-- floating-point numbers and of the handlers are parameters.
use app_module_sdk.Base.{String, Bool, Option, List}
use app_module_sdk.Base.Dict.{Dict}
use app_module_sdk.Base.Int.{ℤ}

pub record Route : Type 0 where
  pub method : String
  pub path : String

pub record Schedule : Type 0 where
  pub name : String
  pub cron : String
  pub path : String

pub record TaskCompute (F : Type 0) : Type 0 where
  pub class : String
  pub vcpu : F
  pub memory_mb : ℤ
  pub instance_type : String

pub record Task (F : Type 0) : Type 0 where
  pub name : String
  pub max_duration : String
  pub max_retries : ℤ
  pub compute : Option (TaskCompute F)
  pub ephemeral_storage_mb : ℤ

pub record Permission : Type 0 where
  pub name : String
  pub roles : List String
  pub default_role : String
  pub labels : Dict String
  pub descriptions : Dict String

pub record Dependency : Type 0 where
  pub id : String
  pub version : String
  pub optional : Bool
  pub tables : List String
  pub events : List String

pub record OutboundContribution : Type 0 where
  pub host : String
  pub constraint : String
  pub slot : String
  pub payload : String

pub record MetricDecl : Type 0 where
  pub name : String
  pub kind : String
  pub aggregation_key : String
  pub unit : String
  pub price : Option ℤ
  pub labels : Dict String
  pub unit_labels : Dict String

pub record McpToolDecl (H : Type 0) : Type 0 where
  pub name : String
  pub description : String
  pub input_schema : String
  pub output_schema : String
  pub permission : String
  pub annotations : String
  pub handler : H
  pub digest : Option H

pub record McpResourceDecl (H : Type 0) : Type 0 where
  pub name : String
  pub description : String
  pub schema : String
  pub handler : H
