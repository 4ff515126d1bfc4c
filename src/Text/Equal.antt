-- ===== src/Text/Equal.antt =====
-- `equal` is equality.
use cpdn_control.Prelude.{◌≡◌, refl, sym, ap, ◌∙◌, true, false, [], ◌∷◌, arith}
use cpdn_control.Text.{Bytes, equal}

pub equal_sound : (s t : Bytes) → equal s t ≡ true → s ≡ t
unfolding equal
equal_sound [] [] h = refl
equal_sound [] (y ∷ t) h = ground arith
equal_sound (x ∷ s) [] h = ground arith
equal_sound (x ∷ s) (y ∷ t) h = ground (arith, equal_sound s t)

pub equal_refl : (s : Bytes) → equal s s ≡ true
unfolding equal
equal_refl [] = refl
equal_refl (x ∷ s) = ground (arith, equal_refl s)

pub equal_swap : (s t u : Bytes) → equal s t ≡ false → equal s u ≡ true → equal t u ≡ false
equal_swap s t u h k = ground (arith, differ)
  where
    differ : equal t u ≡ true → ⊥
    differ e =
        let same : s ≡ t = equal_sound s u k ∙ sym (equal_sound t u e) in
        let both : equal s t ≡ true = ap (equal s) (sym same) ∙ equal_refl s in ground (arith, both)
