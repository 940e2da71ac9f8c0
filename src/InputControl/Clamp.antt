-- ===== src/InputControl/Clamp.antt =====
-- Where the cursor can be set.
use friendviewer.Prelude.{◌≡◌, refl, inl, inr, true, false, Bool-cases, ◌⊎◌, arith, ◌∷◌, []}
use friendviewer.InputControl.{Desktop, sets_cursor, clamp, set_cursor_location}

module _ (w : Desktop) where
  open w use {Float, float_zero, float_one, float_lt}

  -- 0, 1 or a number between them. `<` is false when one side is not a number.
  abbrev pub IsUnit : Float → Type 0
  IsUnit u =
      (u ≡ float_zero)
      ⊎ (u ≡ float_one)
      ⊎ ((float_lt float_zero u ≡ true) × (float_lt u float_one ≡ true))

  -- What becomes of a coordinate: itself strictly inside; 1 where it is not below 1, as when it is
  -- not a number; and else 0.
  abbrev pub Follows : Float → Float → Type 0
  Follows x u =
      ((float_lt float_zero x ≡ true) × (float_lt x float_one ≡ true) × (u ≡ x))
      ⊎ ((float_lt x float_one ≡ false) × (u ≡ float_one))
      ⊎ ((float_lt x float_one ≡ true) × (float_lt float_zero x ≡ false) × (u ≡ float_zero))

  clamp-Follows : (x : Float) → float_lt float_zero float_one ≡ true → Follows x (clamp w x)
  unfolding clamp
  clamp-Follows x l = elim (Bool-cases (float_lt x float_one)) [
    | inr a ↦ inr (inl (a, ground arith))
    | inl a ↦ elim (Bool-cases (float_lt float_zero x)) [
      | inl b ↦ inl (b, a, ground arith)
      | inr b ↦ inr (inr (a, b, ground arith))
    ]
  ]

  Follows-IsUnit : (x u : Float) → Follows x u → IsUnit u
  Follows-IsUnit x u (inl (b, a, e)) = inr (inr (rw (e, b), rw (e, a)))
  Follows-IsUnit x u (inr (inl (a, e))) = inr (inl e)
  Follows-IsUnit x u (inr (inr (a, b, e))) = inl e

  -- With 0 below 1: wherever a client points, the cursor is set to a part of the monitor's width and
  -- height that is 0, 1 or a number strictly between them, also when a coordinate of the client is
  -- not a number. The part is the client's coordinate where this is strictly between 0 and 1; it is
  -- 1 where the coordinate is not below 1, or not a number; and it is 0 elsewhere.
  pub set_cursor_location-IsUnit :
      (x y : Float)
      → float_lt float_zero float_one ≡ true
      → (u v : Float) × (set_cursor_location w x y
          ≡ sets_cursor (w.scale u w.width) (w.scale v w.height) ∷ [])
        × IsUnit u
        × IsUnit v
        × Follows x u
        × Follows y v
  unfolding set_cursor_location
  set_cursor_location-IsUnit x y l =
      let fx = clamp-Follows x l in
      let fy = clamp-Follows y l in
      (clamp w x, clamp w y, refl, Follows-IsUnit x _ fx, Follows-IsUnit y _ fy, fx, fy)
