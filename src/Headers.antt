-- ===== src/Headers.antt =====
-- src/modules/header-security.js: the headers of a response. Node compares the names of headers in small
-- letters. The nonce, `JSON.stringify` of a text and the check of a header are the library's.
pub mod Policies
pub mod Guarantees
pub mod Refusals
mod Tests
use shield_wall.Prelude.{ℕ, Bool, Option, none, some, List, [], ◌∷◌, JsMap, put, Text}
use shield_wall.Fingerprints.{show}

-- The sources of a directive: a list, or one text.
pub data Sources : Type 0 where
  many : List Text → Sources
  one : Text → Sources

abbrev pub Directives : Type 0
Directives = JsMap Sources

pub record Csp : Type 0 where
  pub enabled : Bool
  pub directives : Directives
  pub report_uri : Text

pub record Hsts : Type 0 where
  pub enabled : Bool
  pub max_age : ℕ
  pub include_sub_domains : Bool
  pub preload : Bool

pub record Permissions : Type 0 where
  pub enabled : Bool
  pub features : JsMap (List Text)

-- A setting that is a text or `false`; the empty text counts as `false` but for `xss_protection`.
pub data Setting : Type 0 where
  off : Setting
  value : Text → Setting

pub record Config : Type 0 where
  pub csp : Csp
  pub hsts : Hsts
  pub nosniff : Bool
  pub frame_options : Setting
  pub xss_protection : Setting
  pub referrer_policy : Setting
  pub dns_prefetch_control : Setting
  pub permitted_cross_domain_policies : Setting
  pub download_options : Setting
  pub permissions_policy : Permissions
  pub embedder_policy : Setting
  pub opener_policy : Setting
  pub resource_policy : Setting
  pub remove_headers : List Text

-- What a user sets of it.
pub record UserCsp : Type 0 where
  pub enabled : Option Bool
  pub directives : Option Directives
  pub report_uri : Option Text

pub record UserHsts : Type 0 where
  pub enabled : Option Bool
  pub max_age : Option ℕ
  pub include_sub_domains : Option Bool
  pub preload : Option Bool

pub record UserPermissions : Type 0 where
  pub enabled : Option Bool
  pub features : Option (JsMap (List Text))

pub record User : Type 0 where
  pub csp : Option UserCsp
  pub hsts : Option UserHsts
  pub permissions_policy : Option UserPermissions
  pub nosniff : Option Bool
  pub frame_options : Option Setting
  pub xss_protection : Option Setting
  pub referrer_policy : Option Setting
  pub dns_prefetch_control : Option Setting
  pub permitted_cross_domain_policies : Option Setting
  pub download_options : Option Setting
  pub embedder_policy : Option Setting
  pub opener_policy : Option Setting
  pub resource_policy : Option Setting
  pub remove_headers : Option (List Text)

or_default {ℓ} : {A : Type ℓ} → A → Option A → A
or_default d none = d
or_default d (some a) = a

-- `{ ...a, ...b }`
unfoldable pub spread {ℓ} : {V : Type ℓ} → JsMap V → JsMap V → JsMap V
unfolding put
spread a [] = a
spread a ((k, v) ∷ b) = spread (put k v a) b

spread_or {ℓ} : {V : Type ℓ} → JsMap V → Option (JsMap V) → JsMap V
unfolding spread
spread_or a none = a
spread_or a (some b) = spread a b

csp_of : Csp → Option UserCsp → Csp
unfolding or_default spread_or
csp_of d none = d
csp_of d (some u) = record {
  enabled = or_default d.enabled u.enabled;
  directives = spread_or d.directives u.directives;
  report_uri = or_default d.report_uri u.report_uri;
}

hsts_of : Hsts → Option UserHsts → Hsts
unfolding or_default
hsts_of d none = d
hsts_of d (some u) = record {
  enabled = or_default d.enabled u.enabled;
  max_age = or_default d.max_age u.max_age;
  include_sub_domains = or_default d.include_sub_domains u.include_sub_domains;
  preload = or_default d.preload u.preload;
}

permissions_of : Permissions → Option UserPermissions → Permissions
unfolding or_default spread_or
permissions_of d none = d
permissions_of d (some u) = record {
  enabled = or_default d.enabled u.enabled;
  features = spread_or d.features u.features;
}

-- `applyConfig`
unfoldable pub apply_config : Config → Option User → Config
unfolding csp_of hsts_of permissions_of or_default
apply_config d none = d
apply_config d (some u) = record {
  csp = csp_of d.csp u.csp;
  hsts = hsts_of d.hsts u.hsts;
  nosniff = or_default d.nosniff u.nosniff;
  frame_options = or_default d.frame_options u.frame_options;
  xss_protection = or_default d.xss_protection u.xss_protection;
  referrer_policy = or_default d.referrer_policy u.referrer_policy;
  dns_prefetch_control = or_default d.dns_prefetch_control u.dns_prefetch_control;
  permitted_cross_domain_policies =
      or_default d.permitted_cross_domain_policies u.permitted_cross_domain_policies;
  download_options = or_default d.download_options u.download_options;
  permissions_policy = permissions_of d.permissions_policy u.permissions_policy;
  embedder_policy = or_default d.embedder_policy u.embedder_policy;
  opener_policy = or_default d.opener_policy u.opener_policy;
  resource_policy = or_default d.resource_policy u.resource_policy;
  remove_headers = or_default d.remove_headers u.remove_headers;
}
