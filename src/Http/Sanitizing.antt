-- ===== src/Http/Sanitizing.antt =====
-- sanitize, sanitizeList, sanitizeQuestionnaire and sanitizeJSONValue of
-- backend/internal/adapters/http/profile/handler.go. The sanitizer of HTML is a parameter.
use llm_dating_app.Prelude.{
  ℕ, ◌≡◌, refl, Bool, true, ◌&&◌, List, [], ◌∷◌, arith, if◌then◌else◌, Text, is_empty_text,
  trim_space,
}

-- What `encoding/json` reads into `any`; a scalar is a number, a Boolean or null.
mutual
  pub data Json : Type 0 where
    string : Text → Json
    array : Items → Json
    object : Fields → Json
    scalar : ℕ → Json

  pub data Items : Type 0 where
    no_items : Items
    item : Json → Items → Items

  pub data Fields : Type 0 where
    no_fields : Fields
    field : Text → Json → Fields → Fields

module _ (strip : Text → Text) where
  abbrev pub sanitize : Text → Text
  sanitize s = trim_space (strip s)

  -- The values that are empty once sanitized are left out.
  unfoldable pub sanitize_list : List Text → List Text
  sanitize_list [] = []
  sanitize_list (s ∷ ss) =
      let rest = sanitize_list ss in if is_empty_text (sanitize s) then rest else sanitize s ∷ rest

unfoldable mutual
  pub sanitize_json_value : (Text → Text) → Json → Json
  sanitize_json_value strip (string s) = string (trim_space (strip s))
  sanitize_json_value strip (array xs) = array (sanitize_items strip xs)
  sanitize_json_value strip (object fs) = object (sanitize_questionnaire strip fs)
  sanitize_json_value strip (scalar n) = scalar n

  pub sanitize_items : (Text → Text) → Items → Items
  sanitize_items strip no_items = no_items
  sanitize_items strip (item x xs) = item (sanitize_json_value strip x) (sanitize_items strip xs)

  -- The keys stay as they are.
  pub sanitize_questionnaire : (Text → Text) → Fields → Fields
  sanitize_questionnaire strip no_fields = no_fields
  sanitize_questionnaire strip (field k v fs) =
      field k (sanitize_json_value strip v) (sanitize_questionnaire strip fs)

-- Every text of a value passes a test, the keys of its objects apart.
unfoldable mutual
  pub all_texts : (Text → Bool) → Json → Bool
  all_texts p (string s) = p s
  all_texts p (array xs) = all_texts_items p xs
  all_texts p (object fs) = all_texts_fields p fs
  all_texts p (scalar n) = true

  pub all_texts_items : (Text → Bool) → Items → Bool
  all_texts_items p no_items = true
  all_texts_items p (item x xs) = all_texts p x && all_texts_items p xs

  pub all_texts_fields : (Text → Bool) → Fields → Bool
  all_texts_fields p no_fields = true
  all_texts_fields p (field k v fs) = all_texts p v && all_texts_fields p fs

module _ (strip : Text → Text) (p : Text → Bool)
    (stripped : (s : Text) → p (trim_space (strip s)) ≡ true) where
  mutual
    unfolding all_texts sanitize_json_value

    sanitize_json_value-texts : (v : Json) → all_texts p (sanitize_json_value strip v) ≡ true
    sanitize_json_value-texts (string s) = stripped s
    sanitize_json_value-texts (array xs) = sanitize_items-texts xs
    sanitize_json_value-texts (object fs) = sanitize_fields-texts fs
    sanitize_json_value-texts (scalar n) = refl

    sanitize_items-texts : (xs : Items) → all_texts_items p (sanitize_items strip xs) ≡ true
    sanitize_items-texts no_items = refl
    sanitize_items-texts (item x xs) =
        ground (arith, sanitize_json_value-texts x, sanitize_items-texts xs)

    sanitize_fields-texts :
        (fs : Fields) → all_texts_fields p (sanitize_questionnaire strip fs) ≡ true
    sanitize_fields-texts no_fields = refl
    sanitize_fields-texts (field k v fs) =
        ground (arith, sanitize_json_value-texts v, sanitize_fields-texts fs)

  -- What holds of every sanitized text holds of every text of a sanitized questionnaire, however deep.
  pub sanitize_questionnaire-texts :
      (fs : Fields) → all_texts_fields p (sanitize_questionnaire strip fs) ≡ true
  sanitize_questionnaire-texts fs = sanitize_fields-texts fs
