-- ===== src/Ingestion/Schemas/FieldBounds.antt =====
-- What each field of a snapshot satisfies once it is validated.
use platinum_gold_backend.Prelude.{
  ℕ, ◌≤◌, Text, codes, ℤ, pos, negsuc, true, false, leb, ltb, ◌&&◌, ◌||◌, length, any, has_char,
  is_control, is_empty, is_some, Option, none, some, List, ◌≡◌, ◌⊎◌, refl, ap, inl, inr, arith,
  Bool-cases, if◌then◌else◌, text_eq-eq,
}
use platinum_gold_backend.Value.{Value, null, int, str}
use platinum_gold_backend.Core.Platform.{SplitUrl, Platform}
use platinum_gold_backend.Ingestion.Schemas.{
  max_game_id, max_snapshot_items, max_snapshot_string_length, Checked, valid, invalid, crashed,
  ◌>>=◌, require, ItemImport, game_id_of, quality_of, non_empty_string, required_string,
  nullable_string, optional_string, lowered, item_type_of, port_ok, url_accepted,
  validate_image_url, image_url_of, constrained,
}

pub >>=-eq-valid {ℓ κ} :
    {A : Type ℓ} {B : Type κ} (m : Checked A) (f : A → Checked B) {b : B}
    → (m >>= f) ≡ valid b
    → (a : A) × (m ≡ valid a) × (f a ≡ valid b)
>>=-eq-valid (valid a) f h = (a, refl, h)
>>=-eq-valid invalid f h = cc
>>=-eq-valid crashed f h = cc

pub valid-injective {ℓ} : {A : Type ℓ} {a b : A} → valid a ≡ valid b → a ≡ b
valid-injective h = cc

pub in_bounds :
    (n : ℕ) (found items : List ItemImport)
    → (if leb 1 n && leb n max_snapshot_items then valid found else invalid) ≡ valid items
    → ((1 ≤ n) × (n ≤ max_snapshot_items)) × (found ≡ items)
in_bounds n found items h = ((ground arith, ground arith), ground arith)

pub require-eq-valid {ℓ} : {A : Type ℓ} (o : Option A) {a : A} → require o ≡ valid a → o ≡ some a
require-eq-valid none h = cc
require-eq-valid (some a) h = cc

-- A stored string: 1 to 4096 characters, and no NUL.
pub record IsText (t : Text) : Type 0 where
  pub not_empty : 1 ≤ length t
  pub short : length t ≤ max_snapshot_string_length
  pub no_nul : has_char 0 t ≡ false

abbrev pub IsOptionalText : Option Text → Type 0
IsOptionalText none = Unit
IsOptionalText (some t) = IsText t

abbrev pub IsGameId : ℤ → Type 0
IsGameId (pos n) = (1 ≤ n) × (n ≤ max_game_id)
IsGameId (negsuc n) = ⊥

abbrev pub IsQuality : Option ℤ → Type 0
IsQuality none = Unit
IsQuality (some (pos n)) = n ≤ 4
IsQuality (some (negsuc n)) = ⊥

pub game_id_of-IsGameId : (v : Option Value) (n : ℤ) → game_id_of v ≡ some n → IsGameId n
unfolding game_id_of
game_id_of-IsGameId (some (int (pos k))) (pos n) h = ground arith
game_id_of-IsGameId (some (int (pos k))) (negsuc n) h = ground arith
game_id_of-IsGameId (some (int (negsuc k))) n h = ground arith
game_id_of-IsGameId _ n h = ground arith

pub quality_of-IsQuality : (v : Option Value) (q : Option ℤ) → quality_of v ≡ some q → IsQuality q
unfolding quality_of
quality_of-IsQuality v none h = tt
quality_of-IsQuality (some (int (pos k))) (some (pos n)) h = ground arith
quality_of-IsQuality (some (int (pos k))) (some (negsuc n)) h = ground arith
quality_of-IsQuality (some (int (negsuc k))) (some n) h = ground arith
quality_of-IsQuality _ (some n) h = ground arith

module _ (platform : Platform) where
  open platform use {isspace, lower, strip, urlsplit}

  constrained-IsText : (s t : Text) → constrained platform s ≡ some t → IsText t
  constrained-IsText s t h = record {
    not_empty = ground arith;
    short = ground arith;
    no_nul = ground arith;
  }

  non_empty_string-IsText : (v : Value) (t : Text) → non_empty_string platform v ≡ some t → IsText t
  unfolding non_empty_string
  non_empty_string-IsText (str s) t h =
      elim (Bool-cases (ltb max_snapshot_string_length (length s))) [
        | inl long ↦ ground arith
        | inr short ↦ constrained-IsText (strip s) t (rw short at h)
      ]
  non_empty_string-IsText _ t h = ground arith

  pub required_string-IsText :
      (v : Option Value) (t : Text) → required_string platform v ≡ some t → IsText t
  required_string-IsText none t h = ground arith
  required_string-IsText (some v) t h = non_empty_string-IsText v t h

  nullable_string-IsText :
      (v : Value) (o : Option Text) → nullable_string platform v ≡ some o → IsOptionalText o
  nullable_string-IsText v none h = tt
  nullable_string-IsText null (some t) h = ground arith
  nullable_string-IsText v (some t) h = non_empty_string-IsText v t (ground arith)

  pub optional_string-IsText :
      (v : Option Value) (o : Option Text) → optional_string platform v ≡ some o → IsOptionalText o
  unfolding optional_string
  optional_string-IsText none none h = tt
  optional_string-IsText none (some t) h = ground arith
  optional_string-IsText (some v) o h = nullable_string-IsText v o h

  -- a type, if one is given, is a valid string in lower case
  abbrev pub IsItemType : Option Text → Type 0
  IsItemType none = Unit
  IsItemType (some t) = (u : Text) × IsText u × (t ≡ lower u)

  pub item_type_of-IsItemType :
      (v : Option Value) (o : Option Text) → item_type_of platform v ≡ valid o → IsItemType o
  unfolding item_type_of
  item_type_of-IsItemType none none h = tt
  item_type_of-IsItemType none (some t) h = ground arith
  item_type_of-IsItemType (some v) none h = tt
  item_type_of-IsItemType (some v) (some t) h =
      let (o, e, l) = >>=-eq-valid (require (nullable_string platform v)) (lowered platform) h in
      from_lowered o (require-eq-valid _ e) l
    where
      from_lowered :
          (o : Option Text)
          → nullable_string platform v ≡ some o
          → lowered platform o ≡ valid (some t)
          → IsItemType (some t)
      from_lowered none e l = cc
      from_lowered (some u) e l = (u, nullable_string-IsText v (some u) e, ground arith)

  -- An absolute http or https URL with no credentials, no backslash, no space and no control
  -- character, and a port that fits 16 bits if it has one.
  pub record IsImageUrl (value : Text) : Type 0 where
    pub parsed : SplitUrl
    pub splits : urlsplit value ≡ some parsed
    pub scheme : (parsed.scheme ≡ codes "http") ⊎ (parsed.scheme ≡ codes "https")
    pub has_netloc : is_empty parsed.netloc ≡ false
    pub has_hostname : is_some parsed.hostname ≡ true
    pub no_credentials : (is_some parsed.username ≡ false) × (is_some parsed.password ≡ false)
    pub no_backslash : has_char b'\\' value ≡ false
    pub plain : any (λ c. isspace c || is_control c) value ≡ false
    pub port : port_ok platform parsed.port ≡ true

  url_accepted-IsImageUrl :
      (value : Text) (o : Option SplitUrl)
      → urlsplit value ≡ o
      → url_accepted platform value o ≡ true
      → IsImageUrl value
  url_accepted-IsImageUrl value none e h = ground arith
  url_accepted-IsImageUrl value (some parsed) e h = record {
    parsed = parsed;
    splits = e;
    scheme =
        ground (
          arith,
          text_eq-eq parsed.scheme (codes "http"),
          text_eq-eq parsed.scheme (codes "https"),
        );
    has_netloc = ground arith;
    has_hostname = ground arith;
    no_credentials = ground arith;
    no_backslash = ground arith;
    plain = ground arith;
    port = ground arith;
  }

  validated : (u t : Text) → validate_image_url platform u ≡ some t → (u ≡ t) × IsImageUrl u
  unfolding validate_image_url
  validated u t h = elim (Bool-cases (url_accepted platform u (urlsplit u))) [
    | inl yes_url ↦ (ground arith, url_accepted-IsImageUrl u (urlsplit u) refl yes_url)
    | inr no_url ↦ absurd (ground arith)
  ]

  pub image_url_of-IsImageUrl :
      (o : Option Text) (t : Text) → image_url_of platform o ≡ some t → (o ≡ some t) × IsImageUrl t
  image_url_of-IsImageUrl none t h = ground arith
  image_url_of-IsImageUrl (some u) t h =
      let (same, url) = validated u t h in (ap some same, rw (← same) url)
