-- ===== src/Config/Secrets.antt =====
-- What is left of the secrets of the storage in a masked configuration.
use lightningstream.Base.{
  ◌≡◌, refl, ap, arith, inl, inr, if◌then◌else◌, Option, none, some, List, [], ◌∷◌, is_empty,
  Bool-cases,
}
use lightningstream.Base.Bytes.{Bytes, equal_bytes}
use lightningstream.Base.Maps.{find, contains, any, find-assign, eq_of_equal_bytes}
use lightningstream.Config.{
  Config, OptionValue, text, other, secret_keys, stars, mask_option, mask_options, masked_config,
}

-- A text is replaced unless it is empty.
unfoldable pub mask_value : Option OptionValue → Option OptionValue
mask_value none = none
mask_value (some other) = some other
mask_value (some (text v)) = if is_empty v then some (text v) else some (text stars)

find-mask_option_at :
    (i key : Bytes) (opt : List (Bytes × OptionValue)) (o : Option OptionValue)
    → find key opt ≡ o
    → find i (mask_option opt key) ≡ (if equal_bytes i key then mask_value o else find i opt)
unfolding mask_option mask_value
find-mask_option_at i key opt none e = elim (Bool-cases (equal_bytes i key)) [
  | inl t ↦ ground (arith, e, t, ap (λ z. find z opt) (eq_of_equal_bytes i key t))
  | inr t ↦ ground (arith, e, t)
]
find-mask_option_at i key opt (some other) e = elim (Bool-cases (equal_bytes i key)) [
  | inl t ↦ ground (arith, e, t, ap (λ z. find z opt) (eq_of_equal_bytes i key t))
  | inr t ↦ ground (arith, e, t)
]
find-mask_option_at i key opt (some (text v)) e = elim (Bool-cases (equal_bytes i key)) [
  | inl t ↦ ground (
    arith,
    e,
    t,
    ap (λ z. find z opt) (eq_of_equal_bytes i key t),
    find-assign i key (text stars) opt,
  )
  | inr t ↦ ground (arith, e, t, find-assign i key (text stars) opt)
]

mask_value_twice : (o : Option OptionValue) → mask_value (mask_value o) ≡ mask_value o
unfolding mask_value
mask_value_twice none = refl
mask_value_twice (some other) = refl
mask_value_twice (some (text [])) = refl
mask_value_twice (some (text (c ∷ cs))) = refl

find-mask_option :
    (i key : Bytes) (opt : List (Bytes × OptionValue))
    → find i (mask_option opt key)
      ≡ (if equal_bytes i key then mask_value (find i opt) else find i opt)
find-mask_option i key opt = elim (Bool-cases (equal_bytes i key)) [
  | inl t ↦ ground (
    arith,
    t,
    find-mask_option_at i key opt (find key opt) refl,
    ap (λ z. mask_value (find z opt)) (eq_of_equal_bytes i key t),
  )
  | inr t ↦ ground (arith, t, find-mask_option_at i key opt (find key opt) refl)
]

find-mask_options :
    (i : Bytes) (opt : List (Bytes × OptionValue)) (keys : List Bytes)
    → find i (mask_options opt keys)
      ≡ (if contains i keys then mask_value (find i opt) else find i opt)
unfolding mask_options contains any
find-mask_options i opt [] = refl
find-mask_options i opt (key ∷ keys) = elim (Bool-cases (equal_bytes i key)) [
  | inl t ↦ ground (
    arith,
    t,
    find-mask_option i key opt,
    find-mask_options i (mask_option opt key) keys,
    mask_value_twice (find i opt),
  )
  | inr t ↦
      ground (arith, t, find-mask_option i key opt, find-mask_options i (mask_option opt key) keys)
]

-- The options that hold a secret, written out: "password", "secret" and "secret_key".
abbrev pub secret_names : List Bytes
secret_names =
    (112 ∷ 97 ∷ 115 ∷ 115 ∷ 119 ∷ 111 ∷ 114 ∷ 100 ∷ [])
    ∷ (115 ∷ 101 ∷ 99 ∷ 114 ∷ 101 ∷ 116 ∷ [])
    ∷ (115 ∷ 101 ∷ 99 ∷ 114 ∷ 101 ∷ 116 ∷ 95 ∷ 107 ∷ 101 ∷ 121 ∷ [])
    ∷ []

-- The keys that the code goes through are these names.
secret_keys-secret_names : (i : Bytes) → contains i secret_keys ≡ contains i secret_names
unfolding contains any
secret_keys-secret_names i = ground arith

-- In the configuration that String prints, a text at one of the keys secret_key, secret and password
-- of the options of the storage is replaced by the stars unless it is empty; every other option is
-- as it was.
pub find-masked_config :
    (c : Config) (i : Bytes)
    → find i (masked_config c).storage.options ≡ (
        if contains i secret_names
        then mask_value (find i c.storage.options)
        else find i c.storage.options)
unfolding masked_config
find-masked_config c i =
    rw (← secret_keys-secret_names i) (find-mask_options i c.storage.options secret_keys)
