-- ===== src/GlWindow/Distinct.antt =====
-- The table of gl_window.cc keeps keys apart.
use friendviewer.Prelude.{
  ℕ, ◌==◌, ==_iff, ◌≢◌, ◌≡◌, inl, inr, refl, sym, ap, ◌∙◌, Bool, true, false, Bool-cases, List, [],
  ◌∷◌, arith, if◌then◌else◌,
}
use friendviewer.Prelude.Words.{ℤ, pos, same_int, same_int_eq}
use friendviewer.GlWindow.Mapping.{GlfwKey, switch, find_case, get_key_mapping, is_label}

-- Whether a case returns this number, and whether no two cases return the same one but 0.
abbrev has_value : ℕ → List (GlfwKey × ℕ) → Bool
has_value v [] = false
has_value v ((key, value) ∷ cases) = if value == v then true else has_value v cases

abbrev values_differ : List (GlfwKey × ℕ) → Bool
values_differ [] = true
values_differ ((key, value) ∷ cases) =
    if value == 0
    then values_differ cases
    else if has_value value cases
    then false
    else values_differ cases

module _ (code : GlfwKey → ℤ) where
  find_case-has_value :
      (cases : List (GlfwKey × ℕ)) (x : ℤ)
      → is_label code cases x ≡ true
      → (v : ℕ) × (find_case code cases x ≡ pos v) × (has_value v cases ≡ true)
  unfolding find_case
  find_case-has_value [] x h = absurd (ground arith)
  find_case-has_value ((key, value) ∷ cases) x h = elim (Bool-cases (same_int x (code key))) [
    | inl here ↦ (value, ground arith, ground (arith, (==_iff value value).1 refl))
    | inr later ↦
        let (v, found, has) = find_case-has_value cases x (ground arith) in
        (v, ground arith, ground arith)
  ]

  find_case_apart :
      (key : GlfwKey) (value : ℕ) (cases : List (GlfwKey × ℕ)) (x : ℤ)
      → values_differ ((key, value) ∷ cases) ≡ true
      → is_label code cases x ≡ true
      → find_case code cases x ≢ pos 0
      → find_case code cases x ≢ pos value
  find_case_apart key value cases x differ label sends same =
      let (v, found, has) = find_case-has_value cases x label in
      let v_value : v ≡ value = ground arith in
      let again : has_value value cases ≡ true = ap (λ n. has_value n cases) (sym v_value) ∙ has in
      elim (Bool-cases (value == 0)) [
        | inl zero_value ↦ sends (same ∙ ap pos ((==_iff value 0).0 zero_value))
        | inr other ↦ absurd (ground arith)
      ]

  find_case_injective :
      (cases : List (GlfwKey × ℕ)) (x y : ℤ)
      → values_differ cases ≡ true
      → is_label code cases x ≡ true
      → is_label code cases y ≡ true
      → find_case code cases x ≢ pos 0
      → find_case code cases x ≡ find_case code cases y
      → x ≡ y
  unfolding find_case
  find_case_injective [] x y differ lx ly sends same = absurd (ground arith)
  find_case_injective ((key, value) ∷ cases) x y differ lx ly sends same =
      elim (Bool-cases (same_int x (code key))) [
        | inl x_here ↦ elim (Bool-cases (same_int y (code key))) [
          | inl y_here ↦ same_int_eq x (code key) x_here ∙ sym (same_int_eq y (code key) y_here)
          | inr y_later ↦ absurd (
              find_case_apart key value cases y differ (ground arith) (ground arith) (ground arith))
        ]
        | inr x_later ↦ elim (Bool-cases (same_int y (code key))) [
          | inl y_here ↦ absurd (
              find_case_apart key value cases x differ (ground arith) (ground arith) (ground arith))
          | inr y_later ↦
              find_case_injective cases x y (ground arith) (ground arith) (ground arith)
                (ground arith) (ground arith)
        ]
      ]

  -- Two keys of the switch, given by GLFW's numbers, that are mapped to the same number other than 0
  -- are the same key: no two keys of the switch reach the other side as one.
  pub get_key_mapping_injective :
      (x y : ℤ)
      → is_label code switch x ≡ true
      → is_label code switch y ≡ true
      → get_key_mapping code x ≢ pos 0
      → get_key_mapping code x ≡ get_key_mapping code y
      → x ≡ y
  unfolding get_key_mapping
  get_key_mapping_injective x y = find_case_injective switch x y refl
