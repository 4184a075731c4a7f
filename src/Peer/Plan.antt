-- ===== src/Peer/Plan.antt =====
-- tagsyd/src/peer/plan.rs: the data of the reconciliation of two file catalogs. A manifest entry is
-- what a peer says of one file; a plan is what we do about it.
pub mod Manifest
pub mod Decide
pub mod Entry
pub mod Purge
pub mod Tags
pub mod Batches
pub mod Purges
pub mod Agreement
pub mod SelfSync
pub mod Ties
use tagsy.Prelude.{Bool, List, String, [], ℕ, string_eq, nat_eq}
use tagsy.Store.Versions.{HistoryItem, latest_observed_at}

-- `ManifestEntry` of tagsy-core/src/lib.rs.
pub record ManifestEntry : Type 0 where
  pub file_id : ℕ
  pub history : List HistoryItem
  pub latest_observed_at : ℕ
  pub logical_path : String
  pub logical_path_modified_at : ℕ
  pub deleted : Bool
  pub deleted_at : ℕ
  pub restored_at : ℕ

pub data MaterializePlacement : Type 0 where
  create : String → List ℕ → MaterializePlacement
  change : MaterializePlacement

pub record MissingContent : Type 0 where
  pub file_id : ℕ
  pub content_hash : String
  pub size : ℕ
  pub logical_path_modified_at : ℕ
  pub observed_at : ℕ
  pub placement : MaterializePlacement

pub record PeerDeletion : Type 0 where
  pub file_id : ℕ
  pub deleted_at : ℕ

pub record CreateTombstone : Type 0 where
  pub file_id : ℕ
  pub logical_path : String
  pub logical_path_modified_at : ℕ
  pub content_hash : String
  pub size : ℕ
  pub observed_at : ℕ
  pub deleted_at : ℕ
  pub restored_at : ℕ

pub record PeerRestore : Type 0 where
  pub file_id : ℕ
  pub restored_at : ℕ
  pub content_hash : String
  pub size : ℕ

pub record PeerMove : Type 0 where
  pub file_id : ℕ
  pub logical_path : String
  pub modified_at : ℕ

pub record NewerVersion : Type 0 where
  pub file_id : ℕ
  pub content_hash : String
  pub size : ℕ
  pub observed_at : ℕ

pub record SyncPlan : Type 0 where
  pub pulls : List MissingContent
  pub versions : List NewerVersion
  pub deletions : List PeerDeletion
  pub create_tombstones : List CreateTombstone
  pub restores : List PeerRestore
  pub moves : List PeerMove

abbrev pub empty_plan : SyncPlan
empty_plan = record {
  pulls = [];
  versions = [];
  deletions = [];
  create_tombstones = [];
  restores = [];
  moves = [];
}
