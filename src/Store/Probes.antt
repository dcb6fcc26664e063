-- ===== src/Store/Probes.antt =====
-- pkg/services/sqlstore/probe.go: the tables of the probes. A statement is one that the database takes;
-- a table is the list of its rows in the order of their ids, which the database counts up.
pub mod Reads
pub mod Sessions
pub mod Writes
use text.Mathlib.Text.{◌==◌ as str_eq}
use worldping_api.Prelude.{ℕ, zero, suc, String, ◌≡◌, refl, Bool, if◌then◌else◌, arith}

-- m.Probe, without its place on the map.
pub record ProbeRow : Type 0 where
  pub id : ℕ
  pub org_id : ℕ
  pub name : String
  pub slug : String
  pub enabled : Bool
  pub enabled_change : ℕ
  pub public : Bool
  pub online : Bool
  pub online_change : ℕ
  pub created : ℕ
  pub updated : ℕ

-- m.ProbeTag
pub record ProbeTagRow : Type 0 where
  pub org_id : ℕ
  pub probe_id : ℕ
  pub tag : String

-- m.ProbeSession
pub record SessionRow : Type 0 where
  pub id : ℕ
  pub org_id : ℕ
  pub probe_id : ℕ
  pub socket_id : String
  pub version : String
  pub instance_id : String
  pub remote_ip : String
  pub updated : ℕ

-- A struct that is written as an update writes its fields that are not zero.
pub kept_number : ℕ → ℕ → ℕ
kept_number zero old = old
kept_number (suc n) old = suc n

pub kept_string : String → String → String
kept_string new old = if str_eq new "" then old else new

pub kept_number_same : (n : ℕ) → kept_number n n ≡ n
unfolding kept_number
kept_number_same zero = refl
kept_number_same (suc n) = refl

pub kept_string_same : (s : String) → kept_string s s ≡ s
unfolding kept_string
kept_string_same s = ground (arith)
