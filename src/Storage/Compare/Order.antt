-- ===== src/Storage/Compare/Order.antt =====
-- src/storage/value.cpp: the order of values.
use tiny_sql.Prelude.{
  true, false, not, ◌&&◌, ◌||◌, [], ◌∷◌, ◌≡◌, refl, sym, ◌∙◌, ap, arith, Bytes, str_eq, ◌↔◌,
  str_eq_iff,
}
use tiny_sql.Storage.Value.{Value}
use tiny_sql.Storage.Compare.{
  Floats, string_lt, less_than, equals, less_equal, greater_than, greater_equal,
}
use tiny_sql.Storage.Compare.Keys.{IsExact, key, unkey, unkey-key, less_than-key, equals-key}

string_lt_irrefl : (s : Bytes) → string_lt s s ≡ false
unfolding string_lt
string_lt_irrefl [] = refl
string_lt_irrefl (c ∷ s) = ground (arith, string_lt_irrefl s)

string_lt_trans :
    (s t u : Bytes) → string_lt s t ≡ true → string_lt t u ≡ true → string_lt s u ≡ true
unfolding string_lt
string_lt_trans s t [] h k = cc
string_lt_trans s [] (e ∷ u) h k = cc
string_lt_trans [] (d ∷ t) (e ∷ u) h k = refl
string_lt_trans (c ∷ s) (d ∷ t) (e ∷ u) h k = ground (arith, string_lt_trans s t u)

string_lt_chain : (s t u : Bytes) → (string_lt s t && string_lt t u && not (string_lt s u)) ≡ false
string_lt_chain s t u = ground (arith, string_lt_trans s t u)

-- One of two texts is before the other, or they are the same.
string_le-lt : (s t : Bytes) → (string_lt s t || str_eq s t) ≡ not (string_lt t s)
unfolding string_lt str_eq
string_le-lt [] [] = refl
string_le-lt [] (d ∷ t) = refl
string_le-lt (c ∷ s) [] = refl
string_le-lt (c ∷ s) (d ∷ t) = ground (arith, string_le-lt s t)

module _ (F : Floats) where
  equals_iff : (a b : Value) → IsExact a → IsExact b → (equals F a b ≡ true) ↔ (a ≡ b)
  equals_iff a b ha hb = (
    λ h.
        sym (unkey-key a ha)
        ∙ ap unkey ((str_eq_iff (key a) (key b)).0 (sym (equals-key F a b ha hb) ∙ h))
        ∙ unkey-key b hb,
    λ h. equals-key F a b ha hb ∙ (str_eq_iff (key a) (key b)).1 (ap key h),
  )

  less_equal-key :
      (a b : Value)
      → IsExact a
      → IsExact b
      → less_equal F a b ≡ (string_lt (key a) (key b) || str_eq (key a) (key b))
  unfolding less_equal
  less_equal-key a b ha hb = rw (less_than-key F a b ha hb, equals-key F a b ha hb)

  -- On values that are not floating-point numbers the comparison operators are those of a strict
  -- total order, across all types: no value is less than itself, `<` is transitive, `==` is true
  -- exactly on the same value, `>` is `<` the other way round, and `<=` and `>=` are the negations
  -- of `>` and `<`.
  pub compare-IsTotal :
      (a b c : Value)
      → IsExact a
      → IsExact b
      → IsExact c
      → (less_than F a a ≡ false)
        × ((less_than F a b && less_than F b c && not (less_than F a c)) ≡ false)
        × ((equals F a b ≡ true) ↔ (a ≡ b))
        × (greater_than F a b ≡ less_than F b a)
        × (less_equal F a b ≡ not (less_than F b a))
        × (greater_equal F a b ≡ not (less_than F a b))
  unfolding greater_than greater_equal
  compare-IsTotal a b c ha hb hc =
      let le : less_equal F a b ≡ not (less_than F b a) =
        less_equal-key a b ha hb
        ∙ string_le-lt (key a) (key b)
        ∙ ap not (sym (less_than-key F b a hb ha)) in
      (
        less_than-key F a a ha ha ∙ string_lt_irrefl (key a),
        rw (less_than-key F a b ha hb, less_than-key F b c hb hc, less_than-key F a c ha hc)
            (string_lt_chain (key a) (key b) (key c)),
        equals_iff a b ha hb,
        ap not le ∙ ground arith,
        le,
        refl,
      )
