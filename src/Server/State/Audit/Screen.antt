-- ===== src/Server/State/Audit/Screen.antt =====
-- `assert_safe_audit_payload` of src/worktree_review/server/audit.py. `str.lower`,
-- `scrub_secret_content` and the length of the canonical encoding are parameters; an error message
-- does not name the place in the payload.
use worktree_review.Base.{
  ℕ, String, Bool, true, false, not, ◌&&◌, ◌||◌, List, [], ◌∷◌, ◌++◌, any, all, contains, ltb, ◌==◌,
  string_eq, if◌then◌else◌, ◌≡◌, refl, arith,
}
use worktree_review.Base.Exec.{Result, ok, err}
use worktree_review.Server.Json.{
  Json, null, bool, num, str, arr, obj, Items, nil, cons, Fields, end, field,
}

-- `_FORBIDDEN_PAYLOAD_KEYS`
abbrev pub forbidden_payload_keys : List String
forbidden_payload_keys =
    "token" ∷ "access_token" ∷ "refresh_token" ∷ "secret" ∷ "webhook_secret" ∷ "password"
    ∷ "credential" ∷ "credentials" ∷ "authorization" ∷ "api_key" ∷ "apikey" ∷ "private_key" ∷ []

-- `_FORBIDDEN_PAYLOAD_KEY_SUFFIXES`
abbrev pub forbidden_payload_key_suffixes : List String
forbidden_payload_key_suffixes = "_token" ∷ "_secret" ∷ "_password" ∷ []

-- `_MAX_AUDIT_PAYLOAD_BYTES`
abbrev pub max_audit_payload_bytes : ℕ
max_audit_payload_bytes = 32768

-- `text.endswith(suffix)`
unfoldable pub has_suffix : String → String → Bool
has_suffix suffix String.[] = suffix == ""
has_suffix suffix (String.◌∷◌ c text) = suffix == String.◌∷◌ c text || has_suffix suffix text

-- Nothing, or the `ValueError`.
abbrev pub Verdict : Type 0
Verdict = Result {0, 0} String Unit

-- What the screen asks of the standard library and of the scrubber.
pub record Screen : Type 0 where
  pub lower : String → String
  pub scrub_secret_content : String → String
  pub encoded_bytes : Fields → ℕ

module _ (screen : Screen) where
  unfoldable pub is_forbidden : String → Bool
  unfolding has_suffix
  is_forbidden key =
      let normalized = screen.lower key in
      contains forbidden_payload_keys normalized
      || any (λ suffix. has_suffix suffix normalized) forbidden_payload_key_suffixes

  abbrev pub is_secret : String → Bool
  is_secret text = not (screen.scrub_secret_content text == text)

  -- What follows a part of the walk that raised nothing.
  abbrev pub then_walk : Verdict → Verdict → Verdict
  then_walk (ok done) rest = rest
  then_walk (err detail) rest = err detail

  -- `_walk_payload`
  unfoldable mutual
    pub walk_payload : Json → Verdict
    walk_payload null = ok tt
    walk_payload (bool b) = ok tt
    walk_payload (num n) = ok tt
    walk_payload (str text) =
        if is_secret text then err "audit payload contains secret-shaped content" else ok tt
    walk_payload (arr items) = walk_items items
    walk_payload (obj fields) = walk_fields fields

    pub walk_items : Items → Verdict
    walk_items nil = ok tt
    walk_items (cons item rest) = then_walk (walk_payload item) (walk_items rest)

    pub walk_fields : Fields → Verdict
    walk_fields end = ok tt
    walk_fields (field key item rest) =
        then_walk (if is_forbidden key then err "audit payload contains forbidden key" else ok tt)
          (then_walk (walk_payload item) (walk_fields rest))

  -- `assert_safe_audit_payload`. Every value of the model has an encoding.
  unfoldable pub assert_safe_audit_payload : Fields → Verdict
  unfolding walk_payload
  assert_safe_audit_payload payload = then_walk (walk_fields payload) (
      if ltb max_audit_payload_bytes (screen.encoded_bytes payload)
      then err "audit payload exceeds the maximum size"
      else ok tt)

-- The keys and the texts at every depth.
mutual
  pub keys_of : Json → List String
  keys_of (arr items) = item_keys items
  keys_of (obj fields) = field_keys fields
  keys_of _ = []

  pub item_keys : Items → List String
  item_keys nil = []
  item_keys (cons item rest) = keys_of item ++ item_keys rest

  pub field_keys : Fields → List String
  field_keys end = []
  field_keys (field key item rest) = key ∷ keys_of item ++ field_keys rest

mutual
  pub texts_of : Json → List String
  texts_of (str text) = text ∷ []
  texts_of (arr items) = item_texts items
  texts_of (obj fields) = field_texts fields
  texts_of _ = []

  pub item_texts : Items → List String
  item_texts nil = []
  item_texts (cons item rest) = texts_of item ++ item_texts rest

  pub field_texts : Fields → List String
  field_texts end = []
  field_texts (field key item rest) = texts_of item ++ field_texts rest

abbrev pub is_accepted : Verdict → Bool
is_accepted (ok done) = true
is_accepted (err detail) = false

all-append :
    (test : String → Bool) (xs ys : List String)
    → all test (xs ++ ys) ≡ (all test xs && all test ys)
all-append test [] ys = refl
all-append test (x ∷ xs) ys = ground (arith, all-append test xs ys)

module _ (screen : Screen) where
  abbrev are_safe : List String → List String → Bool
  are_safe keys texts =
      all (λ key. not (is_forbidden screen key)) keys
      && all (λ text. not (is_secret screen text)) texts

  are_safe-append :
      (ks ls ts us : List String)
      → are_safe (ks ++ ls) (ts ++ us) ≡ (are_safe ks ts && are_safe ls us)
  are_safe-append ks ls ts us = ground (
    arith,
    all-append (λ key. not (is_forbidden screen key)) ks ls,
    all-append (λ text. not (is_secret screen text)) ts us,
  )

  then_walk-accepted :
      (first rest : Verdict)
      → is_accepted (then_walk screen first rest) ≡ (is_accepted first && is_accepted rest)
  then_walk-accepted (ok done) rest = refl
  then_walk-accepted (err detail) rest = refl

  mutual
    unfolding walk_payload keys_of texts_of

    walk_payload-safe :
        (value : Json)
        → is_accepted (walk_payload screen value) ≡ are_safe (keys_of value) (texts_of value)
    walk_payload-safe null = refl
    walk_payload-safe (bool b) = refl
    walk_payload-safe (num n) = refl
    walk_payload-safe (str text) = ground arith
    walk_payload-safe (arr items) = walk_items-safe items
    walk_payload-safe (obj fields) = walk_fields-safe fields

    walk_items-safe :
        (items : Items)
        → is_accepted (walk_items screen items) ≡ are_safe (item_keys items) (item_texts items)
    walk_items-safe nil = refl
    walk_items-safe (cons item rest) = ground (
      arith,
      then_walk-accepted (walk_payload screen item) (walk_items screen rest),
      walk_payload-safe item,
      walk_items-safe rest,
      are_safe-append (keys_of item) (item_keys rest) (texts_of item) (item_texts rest),
    )

    walk_fields-safe :
        (fields : Fields)
        → is_accepted (walk_fields screen fields)
          ≡ are_safe (field_keys fields) (field_texts fields)
    walk_fields-safe end = refl
    walk_fields-safe (field key item rest) = ground (
      arith,
      then_walk-accepted (walk_payload screen item) (walk_fields screen rest),
      walk_payload-safe item,
      walk_fields-safe rest,
      are_safe-append (keys_of item) (field_keys rest) (texts_of item) (field_texts rest),
    )

-- The screen accepts a payload exactly where no key at any depth is forbidden, the scrubber leaves
-- every text at any depth as it is, and the encoding is no longer than the maximum.
pub screen_reads_every_depth :
    (screen : Screen) (payload : Fields)
    → is_accepted (assert_safe_audit_payload screen payload) ≡ (
        all (λ key. not (is_forbidden screen key)) (field_keys payload)
        && all (λ text. not (is_secret screen text)) (field_texts payload)
        && not (ltb max_audit_payload_bytes (screen.encoded_bytes payload)))
unfolding assert_safe_audit_payload
screen_reads_every_depth screen payload = ground (arith, walk_fields-safe screen payload)
