-- ===== src/Items/Schemas/Bounds.antt =====
-- Which query parameters are accepted.
use platinum_gold_backend.Prelude.{
  Text, codes, negsuc, ◌≤◌, arith, text_eq, text_eq-eq, ◌∙◌, ℤ, pos, lebℤ, Bool, true, Option, none,
  some, ◌≡◌, refl, sym, ap, ◌↔◌, Bool-cases, inl, inr, if◌then◌else◌,
}
use platinum_gold_backend.Prelude.Options.{>>=-some, some-injective}
use platinum_gold_backend.Items.Schemas.{
  ItemFilterParams, ItemListParams, RawListParams, in_range, quality_ok, sort_of, order_of,
  limit_of, offset_of, validate_filter_params, validate_list_params, SortField, by_name, by_quality,
  by_game_id, SortOrder, asc, desc,
}

-- A value that was given is kept, one that was not is the default.
abbrev pub given_or : {A : Type 0} → A → Option A → A
given_or default none = default
given_or default (some a) = a

-- The words of the API for the fields and the directions of a sort.
abbrev pub field_word : SortField → Text
field_word by_name = codes "name"
field_word by_quality = codes "quality"
field_word by_game_id = codes "game_id"

abbrev pub order_word : SortOrder → Text
order_word asc = codes "asc"
order_word desc = codes "desc"

-- The word that was given, or the default of one that was left out.
abbrev pub IsField : Option Text → SortField → Type 0
IsField none f = f ≡ by_name
IsField (some s) f = s ≡ field_word f

abbrev pub IsOrder : Option Text → SortOrder → Type 0
IsOrder none o = o ≡ asc
IsOrder (some s) o = s ≡ order_word o

-- no quality, or one of 0 to 4
abbrev pub IsQuality : Option ℤ → Type 0
IsQuality none = Unit
IsQuality (some (pos q)) = q ≤ 4
IsQuality (some (negsuc q)) = ⊥

pub record IsChecked (r : RawListParams) (p : ItemListParams) : Type 0 where
  pub search : p.search ≡ r.search
  pub quality : p.quality ≡ r.quality
  pub type : p.type ≡ r.type
  pub version : p.version ≡ r.version
  pub quality_bounds : IsQuality p.quality
  pub limit : p.limit ≡ given_or (pos 20) r.limit
  pub limit_bounds : in_range (pos 1) (pos 100) p.limit ≡ true
  pub offset : p.offset ≡ given_or (pos 0) r.offset
  pub offset_bound : lebℤ (pos 0) p.offset ≡ true
  pub sort : IsField r.sort p.sort
  pub order : IsOrder r.order p.order

quality_ok-IsQuality : (q : Option ℤ) → (quality_ok q ≡ true) ↔ IsQuality q
unfolding quality_ok
quality_ok-IsQuality none = (λ h. tt, λ h. refl)
quality_ok-IsQuality (some (pos q)) = (λ h. ground arith, λ h. ground arith)
quality_ok-IsQuality (some (negsuc q)) = (λ h. absurd (ground arith), λ h. absurd h)

sort_of-field_word : (f : SortField) → sort_of (some (field_word f)) ≡ some f
unfolding sort_of text_eq
sort_of-field_word by_name = refl
sort_of-field_word by_quality = refl
sort_of-field_word by_game_id = refl

word_of-field : (s : Text) (f : SortField) → sort_of (some s) ≡ some f → s ≡ field_word f
unfolding sort_of
word_of-field s f h = elim (Bool-cases (text_eq s (codes "name"))) [
  | inl a ↦ text_eq-eq s _ a ∙ ap field_word (some-injective (rw a at h))
  | inr a ↦ elim (Bool-cases (text_eq s (codes "quality"))) [
    | inl b ↦ text_eq-eq s _ b ∙ ap field_word (some-injective (rw (a, b) at h))
    | inr b ↦ elim (Bool-cases (text_eq s (codes "game_id"))) [
      | inl c ↦ text_eq-eq s _ c ∙ ap field_word (some-injective (rw (a, b, c) at h))
      | inr c ↦ let never = (rw (a, b, c) at h) in cc
    ]
  ]
]

order_of-order_word : (o : SortOrder) → order_of (some (order_word o)) ≡ some o
unfolding order_of text_eq
order_of-order_word asc = refl
order_of-order_word desc = refl

word_of-order : (s : Text) (o : SortOrder) → order_of (some s) ≡ some o → s ≡ order_word o
unfolding order_of
word_of-order s o h = elim (Bool-cases (text_eq s (codes "asc"))) [
  | inl a ↦ text_eq-eq s _ a ∙ ap order_word (some-injective (rw a at h))
  | inr a ↦ elim (Bool-cases (text_eq s (codes "desc"))) [
    | inl b ↦ text_eq-eq s _ b ∙ ap order_word (some-injective (rw (a, b) at h))
    | inr b ↦ let never = (rw (a, b) at h) in cc
  ]
]

sort_of-IsField : (o : Option Text) (f : SortField) → (sort_of o ≡ some f) ↔ IsField o f
unfolding sort_of
sort_of-IsField none f = (λ h. sym (some-injective h), λ h. rw h)
sort_of-IsField (some s) f = (word_of-field s f, λ h. ap sort_of (ap some h) ∙ sort_of-field_word f)

order_of-IsOrder : (o : Option Text) (d : SortOrder) → (order_of o ≡ some d) ↔ IsOrder o d
unfolding order_of
order_of-IsOrder none d = (λ h. sym (some-injective h), λ h. rw h)
order_of-IsOrder (some s) d =
    (word_of-order s d, λ h. ap order_of (ap some h) ∙ order_of-order_word d)

-- A test that lets a value through.
kept_if :
    (test : ℤ → Bool) (m n : ℤ)
    → (if test m then some m else none) ≡ some n
    → (n ≡ m) × (test n ≡ true)
kept_if test m n h = elim (Bool-cases (test m)) [
  | inl e ↦ let same = of_some (rw e at h) in (sym same, rw (← same) e)
  | inr e ↦ absurd (none-ne-some (rw e at h))
]
  where
    of_some : {a b : ℤ} → some a ≡ some b → a ≡ b
    of_some x = cc

    none-ne-some : {a : ℤ} → none ≡ some a → ⊥
    none-ne-some x = cc

limit_of-some :
    (o : Option ℤ) (n : ℤ)
    → limit_of o ≡ some n
    → (n ≡ given_or (pos 20) o) × (in_range (pos 1) (pos 100) n ≡ true)
unfolding limit_of
limit_of-some none n h = kept_if (in_range (pos 1) (pos 100)) (pos 20) n h
limit_of-some (some m) n h = kept_if (in_range (pos 1) (pos 100)) m n h

offset_of-some :
    (o : Option ℤ) (n : ℤ)
    → offset_of o ≡ some n
    → (n ≡ given_or (pos 0) o) × (lebℤ (pos 0) n ≡ true)
unfolding offset_of
offset_of-some none n h = kept_if (lebℤ (pos 0)) (pos 0) n h
offset_of-some (some m) n h = kept_if (lebℤ (pos 0)) m n h

limit_of-given :
    (o : Option ℤ) (n : ℤ)
    → n ≡ given_or (pos 20) o
    → in_range (pos 1) (pos 100) n ≡ true
    → limit_of o ≡ some n
unfolding limit_of
limit_of-given none n e h = rw e
limit_of-given (some m) n e h = rw (← e) (rw h)

offset_of-given :
    (o : Option ℤ) (n : ℤ) → n ≡ given_or (pos 0) o → lebℤ (pos 0) n ≡ true → offset_of o ≡ some n
unfolding offset_of
offset_of-given none n e h = rw e
offset_of-given (some m) n e h = rw (← e) (rw h)

abbrev filters_of : RawListParams → ItemFilterParams
filters_of r = record { search = r.search; quality = r.quality; type = r.type; version = r.version }

filters_of-ok :
    (r : RawListParams) (f : ItemFilterParams)
    → validate_filter_params r ≡ some f
    → (filters_of r ≡ f) × (quality_ok r.quality ≡ true)
unfolding validate_filter_params
filters_of-ok r f h = elim (Bool-cases (quality_ok r.quality)) [
  | inl e ↦ (of_some (rw e at h), e)
  | inr e ↦ absurd (none-ne-some (rw e at h))
]
  where
    of_some : {a b : ItemFilterParams} → some a ≡ some b → a ≡ b
    of_some x = cc

    none-ne-some : {a : ItemFilterParams} → none ≡ some a → ⊥
    none-ne-some x = cc

accepted :
    (r : RawListParams) (p : ItemListParams) → validate_list_params r ≡ some p → IsChecked r p
unfolding validate_list_params
accepted r p h =
    let (f, ef, h1) = >>=-some (validate_filter_params r) _ p h in
    let (s, es, h2) = >>=-some (sort_of r.sort) _ p h1 in
    let (o, eo, h3) = >>=-some (order_of r.order) _ p h2 in
    let (l, el, h4) = >>=-some (limit_of r.limit) _ p h3 in
    let (n, en, h5) = >>=-some (offset_of r.offset) _ p h4 in
    built f s o l n (filters_of-ok r f ef) es eo (limit_of-some r.limit l el)
      (offset_of-some r.offset n en) h5
  where
    built :
        (f : ItemFilterParams) (s : SortField) (o : SortOrder) (l n : ℤ)
        → (filters_of r ≡ f) × (quality_ok r.quality ≡ true)
        → sort_of r.sort ≡ some s
        → order_of r.order ≡ some o
        → (l ≡ given_or (pos 20) r.limit) × (in_range (pos 1) (pos 100) l ≡ true)
        → (n ≡ given_or (pos 0) r.offset) × (lebℤ (pos 0) n ≡ true)
        → some (record { filters = f; sort = s; order = o; limit = l; offset = n }) ≡ some p
        → IsChecked r p
    built f s o l n (kept, ok) es eo (gl, bl) (gn, bn) e = rw (← of_some e) (record {
      search = ap (λ (x : ItemFilterParams). x.search) (sym kept);
      quality = ap (λ (x : ItemFilterParams). x.quality) (sym kept);
      type = ap (λ (x : ItemFilterParams). x.type) (sym kept);
      version = ap (λ (x : ItemFilterParams). x.version) (sym kept);
      quality_bounds = (quality_ok-IsQuality _).0 (rw (← kept) ok);
      limit = gl;
      limit_bounds = bl;
      offset = gn;
      offset_bound = bn;
      sort = (sort_of-IsField r.sort s).0 es;
      order = (order_of-IsOrder r.order o).0 eo;
    })
      where
        of_some : {a b : ItemListParams} → some a ≡ some b → a ≡ b
        of_some x = cc

accepts : (r : RawListParams) (p : ItemListParams) → IsChecked r p → validate_list_params r ≡ some p
unfolding validate_list_params validate_filter_params
accepts r p c = rw (← c.quality) (
    rw ((quality_ok-IsQuality p.quality).1 c.quality_bounds) (
      rw ((sort_of-IsField r.sort p.sort).1 c.sort, (order_of-IsOrder r.order p.order).1 c.order)
        (rw (limit_of-given r.limit p.limit c.limit c.limit_bounds) (
          rw (offset_of-given r.offset p.offset c.offset c.offset_bound)
            (rw (c.search, c.type, c.version) refl)))))

-- The query parameters are accepted as p exactly if p has the given filters, sort and order, a
-- quality in 0 to 4 if there is one, a limit in 1 to 100 and an offset of at least 0, where a
-- parameter that is left out has its default.
pub validate_list_params-IsChecked_iff :
    (r : RawListParams) (p : ItemListParams) → (validate_list_params r ≡ some p) ↔ IsChecked r p
validate_list_params-IsChecked_iff r p = (accepted r p, accepts r p)
