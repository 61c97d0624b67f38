-- ===== src/Storage/Compare/Keys.antt =====
-- src/storage/value.cpp: a text for each value that has its place in the order.
use tiny_sql.Prelude.{
  ℕ, ◌+◌, ◌%◌, ◌^◌, ◌<◌, Bool, true, false, [], ◌∷◌, ◌≡◌, refl, ap, arith, ◌==◌, if◌then◌else◌,
  Bytes, str_eq, get_or,
}
use tiny_sql.Storage.Value.{
  Value, null_value, int_value, bigint_value, float_value, double_value, string_value, bool_value,
}
use tiny_sql.Storage.Compare.{
  Floats, get_index, signed_lt, string_lt, bool_lt, bool_eq, less_same, equal_same, less_than,
  equals,
}

-- No floating-point number, and numbers of their widths.
abbrev pub IsExact : Value → Type 0
IsExact (int_value x) = x < 2 ^ 32
IsExact (bigint_value x) = x < 2 ^ 64
IsExact (float_value x) = ⊥
IsExact (double_value x) = ⊥
IsExact _ = Unit

abbrev bool_code : Bool → ℕ
bool_code false = 0
bool_code true = 1

-- A text for each value: the alternative, and a number moved up by half its range.
pub key : Value → Bytes
key null_value = 0 ∷ []
key (int_value x) = 1 ∷ (x + 2 ^ 31) % 2 ^ 32 ∷ []
key (bigint_value x) = 2 ∷ (x + 2 ^ 63) % 2 ^ 64 ∷ []
key (float_value x) = 3 ∷ []
key (double_value x) = 4 ∷ []
key (string_value s) = 5 ∷ s
key (bool_value b) = 6 ∷ bool_code b ∷ []

bool_lt-code : (b c : Bool) → bool_lt b c ≡ string_lt (bool_code b ∷ []) (bool_code c ∷ [])
unfolding bool_lt string_lt
bool_lt-code false false = refl
bool_lt-code false true = refl
bool_lt-code true false = refl
bool_lt-code true true = refl

abbrev pub Agrees : Floats → Value → Value → Type 0
Agrees F a b = IsExact b → less_than F a b ≡ string_lt (key a) (key b)

abbrev pub SameKeys : Floats → Value → Value → Type 0
SameKeys F a b = IsExact b → equals F a b ≡ str_eq (key a) (key b)

bool_eq-code : (b c : Bool) → bool_eq b c ≡ str_eq (bool_code b ∷ []) (bool_code c ∷ [])
unfolding bool_eq str_eq
bool_eq-code false false = refl
bool_eq-code false true = refl
bool_eq-code true false = refl
bool_eq-code true true = refl

-- The value of a text.
pub unkey : Bytes → Value
unkey [] = null_value
unkey (i ∷ s) =
    if i == 1
    then int_value ((get_or s 0 0 + 2 ^ 31) % 2 ^ 32)
    else if i == 2
    then bigint_value ((get_or s 0 0 + 2 ^ 63) % 2 ^ 64)
    else if i == 5
    then string_value s
    else if i == 6
    then bool_value (get_or s 0 0 == 1)
    else null_value

pub unkey-key : (a : Value) → IsExact a → unkey (key a) ≡ a
unfolding unkey key
unkey-key null_value h = refl
unkey-key (int_value x) h = ap int_value (omega arith)
unkey-key (bigint_value x) h = ap bigint_value (omega arith)
unkey-key (float_value x) h = absurd h
unkey-key (double_value x) h = absurd h
unkey-key (string_value s) h = refl
unkey-key (bool_value false) h = refl
unkey-key (bool_value true) h = refl

module _ (F : Floats) where
  -- By the alternatives of the two values.
  pub less_than-key : (a b : Value) → IsExact a → Agrees F a b
  unfolding less_than less_same string_lt key get_index signed_lt bool_lt
  less_than-key null_value b ha = elim b as (Agrees F null_value) [
    | null_value ↦ λ h. refl
    | int_value y ↦ λ h. refl
    | bigint_value y ↦ λ h. refl
    | float_value y ↦ λ h. refl
    | double_value y ↦ λ h. refl
    | string_value t ↦ λ h. refl
    | bool_value c ↦ λ h. refl
  ]
  less_than-key (int_value x) b ha = elim b as (Agrees F (int_value x)) [
    | null_value ↦ λ h. refl
    | int_value y ↦ λ h. ground arith
    | bigint_value y ↦ λ h. refl
    | float_value y ↦ λ h. refl
    | double_value y ↦ λ h. refl
    | string_value t ↦ λ h. refl
    | bool_value c ↦ λ h. refl
  ]
  less_than-key (bigint_value x) b ha = elim b as (Agrees F (bigint_value x)) [
    | null_value ↦ λ h. refl
    | int_value y ↦ λ h. refl
    | bigint_value y ↦ λ h. ground arith
    | float_value y ↦ λ h. refl
    | double_value y ↦ λ h. refl
    | string_value t ↦ λ h. refl
    | bool_value c ↦ λ h. refl
  ]
  less_than-key (string_value s) b ha = elim b as (Agrees F (string_value s)) [
    | null_value ↦ λ h. refl
    | int_value y ↦ λ h. refl
    | bigint_value y ↦ λ h. refl
    | float_value y ↦ λ h. refl
    | double_value y ↦ λ h. refl
    | string_value t ↦ λ h. refl
    | bool_value c ↦ λ h. refl
  ]
  less_than-key (bool_value x) b ha = elim b as (Agrees F (bool_value x)) [
    | null_value ↦ λ h. refl
    | int_value y ↦ λ h. refl
    | bigint_value y ↦ λ h. refl
    | float_value y ↦ λ h. refl
    | double_value y ↦ λ h. refl
    | string_value t ↦ λ h. refl
    | bool_value c ↦ λ h. bool_lt-code x c
  ]
  less_than-key (float_value x) b ha = absurd ha
  less_than-key (double_value x) b ha = absurd ha

  pub equals-key : (a b : Value) → IsExact a → SameKeys F a b
  unfolding equals equal_same key get_index str_eq
  equals-key null_value b ha = elim b as (SameKeys F null_value) [
    | null_value ↦ λ h. refl
    | int_value y ↦ λ h. refl
    | bigint_value y ↦ λ h. refl
    | float_value y ↦ λ h. refl
    | double_value y ↦ λ h. refl
    | string_value t ↦ λ h. refl
    | bool_value c ↦ λ h. refl
  ]
  equals-key (int_value x) b ha = elim b as (SameKeys F (int_value x)) [
    | null_value ↦ λ h. refl
    | int_value y ↦ λ h. ground arith
    | bigint_value y ↦ λ h. refl
    | float_value y ↦ λ h. refl
    | double_value y ↦ λ h. refl
    | string_value t ↦ λ h. refl
    | bool_value c ↦ λ h. refl
  ]
  equals-key (bigint_value x) b ha = elim b as (SameKeys F (bigint_value x)) [
    | null_value ↦ λ h. refl
    | int_value y ↦ λ h. refl
    | bigint_value y ↦ λ h. ground arith
    | float_value y ↦ λ h. refl
    | double_value y ↦ λ h. refl
    | string_value t ↦ λ h. refl
    | bool_value c ↦ λ h. refl
  ]
  equals-key (string_value s) b ha = elim b as (SameKeys F (string_value s)) [
    | null_value ↦ λ h. refl
    | int_value y ↦ λ h. refl
    | bigint_value y ↦ λ h. refl
    | float_value y ↦ λ h. refl
    | double_value y ↦ λ h. refl
    | string_value t ↦ λ h. refl
    | bool_value c ↦ λ h. refl
  ]
  equals-key (bool_value x) b ha = elim b as (SameKeys F (bool_value x)) [
    | null_value ↦ λ h. refl
    | int_value y ↦ λ h. refl
    | bigint_value y ↦ λ h. refl
    | float_value y ↦ λ h. refl
    | double_value y ↦ λ h. refl
    | string_value t ↦ λ h. refl
    | bool_value c ↦ λ h. bool_eq-code x c
  ]
  equals-key (float_value x) b ha = absurd ha
  equals-key (double_value x) b ha = absurd ha
