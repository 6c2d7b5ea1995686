-- ===== src/Config/Models/Search.antt =====
-- internal/config/models.go: ResolveModel and GetAvailable.
use Prim.Native.Char.{code}
use pi_go_coding_agent.Base.{
  String, Bool, true, false, List, [], ◌∷◌, Option, none, some, keep, ltb, ◌&&◌, ◌||◌, not, ◌==◌,
  if◌then◌else◌,
}
use pi_go_coding_agent.Base.Text.{equal_fold, ◌^^◌}
use pi_go_coding_agent.Base.Dict.{lookup}
use pi_go_coding_agent.Session.World.{Result, ok, err}
use pi_go_coding_agent.Config.Models.{Model, ModelRegistry, or_default}

unfoldable pub find_model : (Model → Bool) → List Model → Option Model
find_model p [] = none
find_model p (m ∷ ms) = let rest = find_model p ms in if p m then some m else rest

-- Whether a text begins with another, and strings.Contains, both in lower case
unfoldable pub starts_with_fold : String → String → Bool
starts_with_fold s String.[] = true
starts_with_fold String.[] (String.◌∷◌ d t) = false
starts_with_fold (String.◌∷◌ c s) (String.◌∷◌ d t) =
    let rest = starts_with_fold s t in equal_fold (String.◌∷◌ c "") (String.◌∷◌ d "") && rest

unfoldable pub contains_fold : String → String → Bool
unfolding starts_with_fold
contains_fold String.[] t = starts_with_fold "" t
contains_fold (String.◌∷◌ c s) t =
    let rest = contains_fold s t in starts_with_fold (String.◌∷◌ c s) t || rest

-- Go's `<` on strings
unfoldable pub string_ltb : String → String → Bool
string_ltb s String.[] = false
string_ltb String.[] (String.◌∷◌ d t) = true
string_ltb (String.◌∷◌ c s) (String.◌∷◌ d t) =
    let rest = string_ltb s t in ltb (code c) (code d) || (not (ltb (code d) (code c)) && rest)

-- The first of the models with the least identifier, as the sort puts it first.
unfoldable pub least : Model → List Model → Model
unfolding string_ltb
least m [] = m
least m (x ∷ xs) = least (if string_ltb x.id m.id then x else m) xs

abbrev pub matches_both : String → String → Model → Bool
matches_both provider id m = equal_fold m.provider provider && equal_fold m.id id

abbrev pub matches_part : String → Model → Bool
matches_part id m = contains_fold m.id id || contains_fold m.name id

unfoldable pub result_of : String → Option Model → Result Model
result_of why none = err why
result_of why (some m) = ok m

-- The search with a provider.
unfoldable pub resolve_at : List Model → String → String → Result Model
unfolding result_of
resolve_at ms provider id = elim (find_model (matches_both provider id) ms) [
  | some m ↦ ok m
  | none ↦
      if id == ""
      then result_of ("model not found for provider=" ^^ provider ^^ " model=" ^^ id)
          (find_model (λ m. equal_fold m.provider provider) ms)
      else err ("model not found for provider=" ^^ provider ^^ " model=" ^^ id)
]

-- The search without one.
unfoldable pub resolve_any : List Model → String → Result Model
resolve_any ms id = elim (find_model (λ m. equal_fold m.id id) ms) [
  | some m ↦ ok m
  | none ↦ elim (keep (matches_part id) ms) [
    | [] ↦ err ("model not found: " ^^ id)
    | x ∷ xs ↦ ok (least x xs)
  ]
]

unfoldable pub default_of : ModelRegistry → String → String
default_of r provider = or_default "" (lookup provider r.default_model)

-- ResolveModel
unfoldable pub resolve_model : ModelRegistry → String → String → Result Model
unfolding default_of
resolve_model r provider id =
    if provider == ""
    then if id == ""
      then resolve_at r.models "anthropic" (default_of r "anthropic")
      else resolve_any r.models id
    else resolve_at r.models provider (if id == "" then default_of r provider else id)

-- GetAvailable, with HasAuth
unfoldable pub available_models : (String → Bool) → ModelRegistry → List Model
available_models has_auth r = keep (λ m. has_auth m.provider) r.models
