-- ===== src/Dict.antt =====
-- A Python dict with str keys, as the list of its entries in the order of insertion.
use hedge_desk.Prelude.{
  ◌+◌, ◌≤◌, ◌≡◌, refl, subst, String, Bool, false, ◌||◌, Option, none, some, List, [], ◌∷◌, length,
  arith, str_eq, eq_iff, if◌then◌else◌, Bool-cases, inl, inr,
}

abbrev pub Dict {ℓ} : Type ℓ → Type ℓ
Dict V = List (String × V)

module _ {ℓ} {V : Type ℓ} where
  -- key in d
  unfoldable pub contains : String → Dict V → Bool
  contains k [] = false
  contains k ((j, v) ∷ d) = str_eq j k || contains k d

  -- d.get(key)
  unfoldable pub get : String → Dict V → Option V
  get k [] = none
  get k ((j, v) ∷ d) = if str_eq j k then some v else get k d

  -- d[key] = value
  unfoldable pub put : String → V → Dict V → Dict V
  put k v [] = (k, v) ∷ []
  put k v ((j, w) ∷ d) = if str_eq j k then (j, v) ∷ d else (j, w) ∷ put k v d

  -- d.pop(key, None)
  unfoldable pub remove : String → Dict V → Dict V
  remove k [] = []
  remove k ((j, v) ∷ d) = if str_eq j k then d else (j, v) ∷ remove k d

  -- The entries whose values pass a test.
  unfoldable pub keep_values : (V → Bool) → Dict V → Dict V
  keep_values test [] = []
  keep_values test ((j, v) ∷ d) = if test v then (j, v) ∷ keep_values test d else keep_values test d

  -- No key stands twice.
  abbrev pub IsDict : Dict V → Type 0
  IsDict [] = Unit {0}
  IsDict ((j, v) ∷ d) = (contains j d ≡ false) × IsDict d

module _ {ℓ} {V : Type ℓ} where
  pub get-put :
      (k j : String) (v : V) (d : Dict V)
      → get j (put k v d) ≡ (if str_eq k j then some v else get j d)
  unfolding get put
  get-put k j v [] = refl
  get-put k j v ((i, w) ∷ d) = ground (arith, eq_iff i k, eq_iff i j, eq_iff k j, get-put k j v d)

  get-none : (k : String) (d : Dict V) → contains k d ≡ false → get k d ≡ none
  unfolding get contains
  get-none k [] h = refl
  get-none k ((i, w) ∷ d) h = ground (arith, get-none k d)

  pub get-remove :
      (k j : String) (d : Dict V)
      → IsDict d
      → get j (remove k d) ≡ (if str_eq k j then none else get j d)
  unfolding get remove
  get-remove k j [] h = ground arith
  get-remove k j ((i, w) ∷ d) h =
      ground (arith, eq_iff i k, eq_iff i j, eq_iff k j, get-remove k j d, get-none k d)

  abbrev when_passes : (V → Bool) → Option V → Option V
  when_passes test none = none
  when_passes test (some v) = if test v then some v else none

  pub get-keep_values :
      (test : V → Bool) (j : String) (d : Dict V)
      → IsDict d
      → get j (keep_values test d) ≡ when_passes test (get j d)
  unfolding get keep_values
  get-keep_values test j [] h = refl
  get-keep_values test j ((i, w) ∷ d) h = elim (Bool-cases (str_eq i j)) [
    | inl own ↦
        let gone : get j d ≡ none =
          subst (λ x. get x d ≡ none) ((eq_iff i j).0 own) (get-none i d h.0) in
        ground (arith, own, gone, get-keep_values test j d h.1)
    | inr other ↦ ground (arith, other, get-keep_values test j d h.1)
  ]

  pub contains-put :
      (k j : String) (v : V) (d : Dict V) → contains j (put k v d) ≡ (str_eq k j || contains j d)
  unfolding contains put
  contains-put k j v [] = refl
  contains-put k j v ((i, w) ∷ d) =
      ground (arith, eq_iff i k, eq_iff i j, eq_iff k j, contains-put k j v d)

  pub put-IsDict : (k : String) (v : V) (d : Dict V) → IsDict d → IsDict (put k v d)
  unfolding contains put
  put-IsDict k v [] h = (refl, tt)
  put-IsDict k v ((i, w) ∷ d) h =
      ground (arith, eq_iff i k, eq_iff k i, contains-put k i v d, put-IsDict k v d)

  contains-remove :
      (k j : String) (d : Dict V) → contains j d ≡ false → contains j (remove k d) ≡ false
  unfolding contains remove
  contains-remove k j [] h = refl
  contains-remove k j ((i, w) ∷ d) h = ground (arith, contains-remove k j d)

  pub remove-IsDict : (k : String) (d : Dict V) → IsDict d → IsDict (remove k d)
  unfolding contains remove
  remove-IsDict k [] h = tt
  remove-IsDict k ((i, w) ∷ d) h = ground (arith, contains-remove k i d, remove-IsDict k d)

  contains-keep_values :
      (test : V → Bool) (j : String) (d : Dict V)
      → contains j d ≡ false
      → contains j (keep_values test d) ≡ false
  unfolding contains keep_values
  contains-keep_values test j [] h = refl
  contains-keep_values test j ((i, w) ∷ d) h = ground (arith, contains-keep_values test j d)

  pub keep_values-IsDict : (test : V → Bool) (d : Dict V) → IsDict d → IsDict (keep_values test d)
  unfolding contains keep_values
  keep_values-IsDict test [] h = tt
  keep_values-IsDict test ((i, w) ∷ d) h =
      ground (arith, contains-keep_values test i d, keep_values-IsDict test d)

  pub length-put :
      (k : String) (v : V) (d : Dict V)
      → length (put k v d) ≡ (if contains k d then length d else length d + 1)
  unfolding contains put
  length-put k v [] = refl
  length-put k v ((i, w) ∷ d) = ground (arith, length-put k v d)

  pub length-keep_values-le :
      (test : V → Bool) (d : Dict V) → length (keep_values test d) ≤ length d
  unfolding keep_values
  length-keep_values-le test [] = omega arith
  length-keep_values-le test ((i, w) ∷ d) = ground (arith, length-keep_values-le test d)

  pub length-remove-le : (k : String) (d : Dict V) → length (remove k d) ≤ length d
  unfolding remove
  length-remove-le k [] = omega arith
  length-remove-le k ((i, w) ∷ d) = ground (arith, length-remove-le k d)
