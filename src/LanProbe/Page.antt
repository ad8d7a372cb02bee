-- ===== src/LanProbe/Page.antt =====
-- preflight and gpu of scripts/lan-probe.js: the rows that they print of the browser.
use dip_distributed_llm_runt.Prelude.{ℕ, Bool, true, false, Option, none, some}
use dip_distributed_llm_runt.LanProbe.Candidates.{Text}

pub record Page : Type 0 where
  pub origin : Text
  pub is_secure_context : Bool
  pub cross_origin_isolated : Bool
  pub has_gpu : Bool
  pub shared_array_buffer : Text

pub record Preflight : Type 0 where
  pub origin : Text
  pub is_secure_context : Bool
  pub cross_origin_isolated : Bool
  pub gpu : Bool
  pub sab : Text

unfoldable pub preflight : Page → Preflight
preflight p = record {
  origin = p.origin;
  is_secure_context = p.is_secure_context;
  cross_origin_isolated = p.cross_origin_isolated;
  gpu = p.has_gpu;
  sab = p.shared_array_buffer;
}

pub record Info : Type 0 where
  pub vendor : Text
  pub architecture : Text
  pub device : Text
  pub description : Text

pub record Adapter : Type 0 where
  pub max_storage_buffer_binding_size : ℕ
  pub max_buffer_size : ℕ
  pub info : Option Info

-- What `requestAdapter` comes to.
pub data Requested : Type 0 where
  thrown : (error : Text) → Requested
  nothing : Requested
  acquired : Adapter → Requested

pub record Row : Type 0 where
  pub api : Bool
  pub adapter : Bool
  pub max_storage_buffer_binding_size : Option ℕ
  pub max_buffer_size : Option ℕ
  pub error : Option Text
  pub info : Option Info

abbrev pub empty_row : Bool → Row
empty_row api = record {
  api = api;
  adapter = false;
  max_storage_buffer_binding_size = none;
  max_buffer_size = none;
  error = none;
  info = none;
}

unfoldable pub fill_row : Requested → Row → Row
fill_row (thrown error) row = record row { error = some error }
fill_row nothing row = row
fill_row (acquired a) row = record row {
  adapter = true;
  max_storage_buffer_binding_size = some a.max_storage_buffer_binding_size;
  max_buffer_size = some a.max_buffer_size;
  info = a.info;
}

-- `none` where the browser has no `navigator.gpu`.
unfoldable pub gpu : Option Requested → Row
gpu none = empty_row false
gpu (some requested) = fill_row requested (empty_row true)
