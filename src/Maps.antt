-- ===== src/Maps.antt =====
-- `std::unordered_map` with strings for keys, as an association list. No order is relied on.
use tiny_sql.Prelude.{
  true, false, Option, none, some, List, [], ◌∷◌, ◌≡◌, ◌≢◌, refl, sym, ◌∙◌, inl, inr, if◌then◌else◌,
  Bytes, str_eq, str_eq_iff, Bool-cases,
}

module _ {A : Type 0} where
  unfoldable pub find : Bytes → List (Bytes × A) → Option A
  find k [] = none
  find k ((j, a) ∷ m) = if str_eq j k then some a else find k m

  -- `m[k] = a`
  unfoldable pub assign : Bytes → A → List (Bytes × A) → List (Bytes × A)
  assign k a [] = (k, a) ∷ []
  assign k a ((j, b) ∷ m) = if str_eq j k then (j, a) ∷ m else (j, b) ∷ assign k a m

  unfoldable pub erase : Bytes → List (Bytes × A) → List (Bytes × A)
  erase k [] = []
  erase k ((j, b) ∷ m) = if str_eq j k then erase k m else (j, b) ∷ erase k m

pub str_eq_refl : (k : Bytes) → str_eq k k ≡ true
str_eq_refl k = (str_eq_iff k k).1 refl

pub str_eq-ne : (j k : Bytes) → j ≢ k → str_eq j k ≡ false
str_eq-ne j k h = elim (Bool-cases (str_eq j k)) [
  | inl e ↦ absurd (h ((str_eq_iff j k).0 e))
  | inr e ↦ e
]

module _ {A : Type 0} where
  pub find-assign : (k : Bytes) (a : A) (m : List (Bytes × A)) → find k (assign k a m) ≡ some a
  unfolding find assign
  find-assign k a [] = rw (str_eq_refl k) refl
  find-assign k a ((j, b) ∷ m) = elim (Bool-cases (str_eq j k)) [
    | inl e ↦ rw (e, e) refl
    | inr e ↦ rw (e, e) (find-assign k a m)
  ]

  pub find-assign_other :
      (i k : Bytes) (a : A) (m : List (Bytes × A)) → k ≢ i → find i (assign k a m) ≡ find i m
  unfolding find assign
  find-assign_other i k a [] h = rw (str_eq-ne k i h) refl
  find-assign_other i k a ((j, b) ∷ m) h = elim (Bool-cases (str_eq j k)) [
    | inl e ↦
        let ji : str_eq j i ≡ false = str_eq-ne j i (λ z. h (sym ((str_eq_iff j k).0 e) ∙ z)) in
        rw (e, ji) refl
    | inr e ↦ elim (Bool-cases (str_eq j i)) [
      | inl f ↦ rw (e, f) refl
      | inr f ↦ rw (e, f) (find-assign_other i k a m h)
    ]
  ]

  pub find-erase : (k : Bytes) (m : List (Bytes × A)) → find k (erase k m) ≡ none
  unfolding find erase
  find-erase k [] = refl
  find-erase k ((j, b) ∷ m) = elim (Bool-cases (str_eq j k)) [
    | inl e ↦ rw e (find-erase k m)
    | inr e ↦ rw (e, e) (find-erase k m)
  ]

  pub find-erase_other :
      (i k : Bytes) (m : List (Bytes × A)) → k ≢ i → find i (erase k m) ≡ find i m
  unfolding find erase
  find-erase_other i k [] h = refl
  find-erase_other i k ((j, b) ∷ m) h = elim (Bool-cases (str_eq j k)) [
    | inl e ↦
        let ji : str_eq j i ≡ false = str_eq-ne j i (λ z. h (sym ((str_eq_iff j k).0 e) ∙ z)) in
        rw (e, ji) (find-erase_other i k m h)
    | inr e ↦ elim (Bool-cases (str_eq j i)) [
      | inl f ↦ rw (e, f) refl
      | inr f ↦ rw (e, f) (find-erase_other i k m h)
    ]
  ]
