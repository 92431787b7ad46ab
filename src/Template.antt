-- ===== src/Template.antt =====
-- `resolveTemplateString`, `materialize` and `createDraft` of
-- playground-ui/src/features/workbench/domain.ts.
pub mod Pieces
pub mod Skeleton
use dotnet_web_api_startpack.Prelude.{
  ℕ, zero, suc, ◌+◌, Text, lit, List, [], ◌∷◌, ◌++◌, map, Bool, true, false, ◌&&◌, ◌||◌, not,
  Option, none, some, leb, length, drop, starts_with, member, lookup, if◌then◌else◌,
}
use dotnet_web_api_startpack.Json.{
  Json, null, bool, num, str, arr, obj, Items, nil, cons, Fields, end, field,
}
use dotnet_web_api_startpack.Types.{
  WorkbenchVariables, EndpointDefinition, EndpointParameter, RequestDraft,
}
use dotnet_web_api_startpack.Platform.{Platform, inherited_names}

abbrev pub is_empty : Text → Bool
is_empty [] = true
is_empty (_ ∷ _) = false

-- The class `[a-zA-Z0-9]` of the pattern.
unfoldable pub is_word : ℕ → Bool
is_word c = leb b'a' c && leb c b'z' || (leb b'A' c && leb c b'Z' || (leb b'0' c && leb c b'9'))

-- The longest prefix of letters and digits.
unfoldable pub word : Text → Text
word [] = []
word (c ∷ s) = if is_word c then c ∷ word s else []

-- A match of `\{\{([a-zA-Z0-9]+)\}\}` at the start of the text: the group's text.
unfoldable pub template_name : Text → Option Text
unfolding word starts_with
template_name s =
    let name = word (drop 2 s) in
    if starts_with (lit "{{") s
      && (not (is_empty name) && starts_with (lit "}}") (drop (length name) (drop 2 s)))
    then some name
    else none

abbrev pub braced : Text → Text
braced name = lit "{{" ++ (name ++ lit "}}")

-- The own properties of a `WorkbenchVariables`.
abbrev pub variable_entries : WorkbenchVariables → List (Text × Text)
variable_entries v =
    (lit "accessToken", v.access_token)
    ∷ (lit "refreshToken", v.refresh_token)
    ∷ (lit "apiKey", v.api_key)
    ∷ (lit "csrfToken", v.csrf_token)
    ∷ (lit "totpSecret", v.totp_secret)
    ∷ (lit "totpCode", v.totp_code)
    ∷ (lit "mfaTicket", v.mfa_ticket)
    ∷ (lit "credentialId", v.credential_id)
    ∷ (lit "socialCode", v.social_code)
    ∷ (lit "socialState", v.social_state)
    ∷ (lit "verificationToken", v.verification_token)
    ∷ (lit "passwordResetToken", v.password_reset_token)
    ∷ []

module _ ⦃p : Platform⦄ (v : WorkbenchVariables) where
  -- The callback of `replace`: a property that is missing or empty leaves the match; a property
  -- inherited from `Object.prototype` is a function, which is turned into its text.
  unfoldable pub replacement : Text → Text
  unfolding lookup member
  replacement name = elim (lookup name (variable_entries v)) [
    | some value ↦ if is_empty value then braced name else value
    | none ↦ if member name inherited_names then p.native_source name else braced name
  ]

  -- The global `replace`. The number counts the units of the last match that are still to be passed.
  unfoldable pub replace_from : ℕ → Text → Text
  replace_from n [] = []
  replace_from (suc n) (c ∷ s) = replace_from n s
  replace_from zero (c ∷ s) = elim (template_name (c ∷ s)) [
    | none ↦ c ∷ replace_from zero s
    | some name ↦ replacement name ++ replace_from (length name + 3) s
  ]

  -- `resolveTemplateString(value, variables)`
  unfoldable pub resolve_template_string : Text → Text
  resolve_template_string value = replace_from 0 value

  unfoldable mutual
    pub materialize : Json → Json
    materialize null = null
    materialize (bool b) = bool b
    materialize (num n) = num n
    materialize (str s) = str (resolve_template_string s)
    materialize (arr vs) = arr (materialize_items vs)
    materialize (obj fs) = obj (materialize_fields fs)

    pub materialize_items : Items → Items
    materialize_items nil = nil
    materialize_items (cons x xs) = cons (materialize x) (materialize_items xs)

    pub materialize_fields : Fields → Fields
    materialize_fields end = end
    materialize_fields (field key child fs) = field key (materialize child) (materialize_fields fs)

  abbrev pub initial_values : List EndpointParameter → List (Text × Text)
  initial_values = map (λ parameter. (parameter.name, resolve_template_string parameter.value))

  -- `createDraft(endpoint, variables)`
  unfoldable pub create_draft : EndpointDefinition → RequestDraft
  create_draft endpoint = record {
    path_values = initial_values endpoint.path_params;
    query_values = initial_values endpoint.query;
    body_text = elim endpoint.body [ none ↦ [] | some body ↦ p.json_indent (materialize body) ];
  }
