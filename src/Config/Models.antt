-- ===== src/Config/Models.antt =====
-- internal/config/models.go: the model registry. A map is the list of its entries in the order in
-- which `range` gives them, which Go leaves open.
pub mod Search
pub mod Resolve
use Prim.Native.Char.{code, Char}
use Prim.Native.String
use pi_go_coding_agent.Base.{
  ℕ, zero, suc, String, Bool, true, false, List, [], ◌∷◌, ◌++◌, Option, none, some, keep, ltb, ◌&&◌,
  ◌||◌, not, ◌==◌, if◌then◌else◌,
}
use pi_go_coding_agent.Base.Text.{trim_space, equal_fold, ◌^^◌, lower_code}
use pi_go_coding_agent.Base.Dict.{Dict, lookup, insert, has_key}
use pi_go_coding_agent.Types.{Fields}
use pi_go_coding_agent.Session.World.{Result, ok, err}

pub record Model : Type 0 where
  pub id : String
  pub name : String
  pub api : String
  pub provider : String
  pub base_url : String
  pub reasoning : Bool
  pub input : List String
  pub context_window : ℕ
  pub max_tokens : ℕ
  pub headers : Dict String
  pub compat : Option Fields

pub record ProviderConfig : Type 0 where
  pub base_url : String
  pub api_key : String
  pub api : String
  pub headers : Dict String
  pub models : List Model

pub record ModelRegistry : Type 0 where
  pub models : List Model
  pub provider_cfg : Dict ProviderConfig
  pub default_model : Dict String

abbrev pub empty_config : ProviderConfig
empty_config = record { base_url = ""; api_key = ""; api = ""; headers = []; models = [] }

abbrev pub or_default : {A : Type 0} → A → Option A → A
or_default a none = a
or_default a (some b) = b

abbrev or_else : String → String → String
or_else s t = if s == "" then t else s

-- m.providerCfg[provider]
unfoldable pub config_of : String → Dict ProviderConfig → ProviderConfig
config_of provider d = or_default empty_config (lookup provider d)

unfoldable pub add_headers : Dict String → Dict String → Dict String
add_headers [] base = base
add_headers ((k, v) ∷ hs) base = add_headers hs (insert k v base)

-- The fields of a configuration over those of the base.
unfoldable pub merge_config : ProviderConfig → ProviderConfig → ProviderConfig
unfolding add_headers
merge_config p base = record base {
  base_url = or_else p.base_url base.base_url;
  api = or_else p.api base.api;
  headers = add_headers p.headers base.headers;
  api_key = or_else p.api_key base.api_key;
}

-- applyProviderOverridesToBuiltIns
unfoldable pub apply_overrides :
    String → ProviderConfig → ProviderConfig → ProviderConfig → List Model → List Model
apply_overrides provider before after override [] = []
apply_overrides provider before after override (m ∷ ms) =
    let rest = apply_overrides provider before after override ms in
    let sets_url = not (override.base_url == "") && not (after.base_url == before.base_url) in
    let sets_api = not (override.api == "") && not (after.api == before.api) in
    (if equal_fold m.provider provider
      then record m {
        base_url = if sets_url then after.base_url else m.base_url;
        api = if sets_api then after.api else m.api;
      }
      else m)
    ∷ rest

-- The place of the last model of the provider with this identifier, in the registry that the
-- update began with.
unfoldable pub index_of : String → String → List Model → Option ℕ
index_of provider id [] = none
index_of provider id (m ∷ ms) = elim (index_of provider id ms) [
  | some i ↦ some (suc i)
  | none ↦ if equal_fold m.provider provider && equal_fold m.id id then some 0 else none
]

abbrev positive_or : ℕ → ℕ → ℕ
positive_or zero n = n
positive_or (suc k) n = suc k

abbrev text_if_empty : List String → List String
text_if_empty [] = "text" ∷ []
text_if_empty (x ∷ xs) = x ∷ xs

-- A model of a configuration, with what it leaves out.
unfoldable pub complete_model : String → ProviderConfig → Model → Model
complete_model provider cfg m = record m {
  provider = or_else m.provider provider;
  api = or_else m.api cfg.api;
  base_url = or_else m.base_url cfg.base_url;
  max_tokens = positive_or m.max_tokens 4096;
  context_window = positive_or m.context_window 200000;
  input = text_if_empty m.input;
}

unfoldable pub set_at : ℕ → Model → List Model → List Model
set_at i m [] = []
set_at zero m (x ∷ xs) = m ∷ xs
set_at (suc i) m (x ∷ xs) = x ∷ set_at i m xs

unfoldable pub upsert_loop :
    String → ProviderConfig → List Model → List Model → List Model → List Model
upsert_loop provider cfg start [] ms = ms
upsert_loop provider cfg start (m ∷ more) ms =
    let m' = complete_model provider cfg m in
    upsert_loop provider cfg start more
      (elim (index_of provider m'.id start) [ some i ↦ set_at i m' ms | none ↦ ms ++ m' ∷ [] ])

-- upsertProviderModels
unfoldable pub upsert_models : String → ProviderConfig → List Model → List Model → List Model
unfolding upsert_loop
upsert_models provider cfg more ms = upsert_loop provider cfg ms more ms

unfoldable pub refresh_provider : String × ProviderConfig → ModelRegistry → ModelRegistry
refresh_provider (provider, p) r =
    let before = config_of provider r.provider_cfg in
    let after = merge_config p before in
    record r {
      provider_cfg = insert provider after r.provider_cfg;
      models =
          upsert_models provider after p.models (apply_overrides provider before after p r.models);
    }

unfoldable pub refresh_all : Dict ProviderConfig → ModelRegistry → ModelRegistry
unfolding refresh_provider
refresh_all [] r = r
refresh_all (p ∷ ps) r = refresh_all ps (refresh_provider p r)

-- builtInModels
unfoldable pub built_in_models : Dict ProviderConfig → Dict String → List Model
built_in_models cfg [] = []
built_in_models cfg ((provider, id) ∷ ds) =
    let rest = built_in_models cfg ds in
    let pc = config_of provider cfg in
    record {
      id = id;
      name = id;
      api = pc.api;
      provider = provider;
      base_url = pc.base_url;
      reasoning = true;
      input = "text" ∷ [];
      context_window = 200000;
      max_tokens = 32768;
      headers = pc.headers;
      compat = none;
    }
    ∷ rest

-- Refresh, where `defaults` are the built-in providers and `file` what the file of models has.
unfoldable pub refresh : Dict ProviderConfig → Dict ProviderConfig → ModelRegistry → ModelRegistry
unfolding refresh_all
refresh defaults file r =
    refresh_all file
      (record r { models = built_in_models defaults r.default_model; provider_cfg = defaults })

-- RegisterProvider
unfoldable pub register_provider : String → ProviderConfig → ModelRegistry → ModelRegistry
register_provider name cfg r =
    let provider = trim_space name in
    let given = record cfg {
      base_url = if trim_space cfg.base_url == "" then "" else cfg.base_url;
      api = if trim_space cfg.api == "" then "" else cfg.api;
      api_key = if trim_space cfg.api_key == "" then "" else cfg.api_key;
    } in
    let after = merge_config given (config_of provider r.provider_cfg) in
    if provider == "" then r else record r {
      provider_cfg = insert provider after r.provider_cfg;
      models = upsert_models provider after cfg.models r.models;
      default_model = elim cfg.models [
        | [] ↦ r.default_model
        | m ∷ ms ↦
            if has_key provider r.default_model
            then r.default_model
            else insert provider m.id r.default_model
      ];
    }
