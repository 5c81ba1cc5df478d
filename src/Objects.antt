-- ===== src/Objects.antt =====
-- The Kubernetes objects that the reconciler reads and writes, as the vendored API packages declare
-- them. Fields that this code neither reads nor sets are left out.
use net_gateway_api_obsolete.Prelude.{ℕ, String, Bool, Option, List}
use net_gateway_api_obsolete.GoMap.{Map}
pub mod Ingress
pub mod HttpRoute

-- Go's `int` and the fixed widths below are bit patterns: an `int` is a number below 2 ^ 64.
pub record OwnerReference : Type 0 where
  pub api_version : String
  pub kind : String
  pub name : String
  pub uid : String
  pub controller : Bool
  pub block_owner_deletion : Bool

pub record ObjectMeta : Type 0 where
  pub name : String
  pub namespace : String
  pub uid : String
  pub labels : Map String
  pub annotations : Map String
  pub owner_references : List OwnerReference

-- The value of a metav1 condition: only the type and the status are read.
pub record Condition : Type 0 where
  pub type : String
  pub status : String

pub record EndpointAddress : Type 0 where
  pub ip : String

pub record EndpointSubset : Type 0 where
  pub addresses : List EndpointAddress

pub record Endpoints : Type 0 where
  pub subsets : List EndpointSubset
