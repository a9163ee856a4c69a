-- ===== src/Event/Values/Equal.antt =====
-- The equality of texts, which Go has as `==` on strings, is the equality of lists.
use mathlib.Core.Bool.{false≢true}
use fibratus.Prelude.{◌≡◌, refl, true, [], ◌∷◌, ==_refl, arith}
use fibratus.Event.Values.{Text, eq_text}

pub eq_text_refl : (a : Text) → eq_text a a ≡ true
eq_text_refl [] = refl
eq_text_refl (x ∷ a) = rw (==_refl x) (eq_text_refl a)

pub eq_text_same : (a b : Text) → eq_text a b ≡ true → a ≡ b
eq_text_same [] [] h = refl
eq_text_same [] (y ∷ b) h = absurd (false≢true h)
eq_text_same (x ∷ a) [] h = absurd (false≢true h)
eq_text_same (x ∷ a) (y ∷ b) h = ground (arith, eq_text_same a b)

pub eq_text_sym : (a b : Text) → eq_text a b ≡ eq_text b a
eq_text_sym [] [] = refl
eq_text_sym [] (y ∷ b) = refl
eq_text_sym (x ∷ a) [] = refl
eq_text_sym (x ∷ a) (y ∷ b) = ground (arith, eq_text_sym a b)
