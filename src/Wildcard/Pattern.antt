-- ===== src/Wildcard/Pattern.antt =====
-- pkg/util/wildcard: what a pattern means, with no search in it, for texts of single-byte characters.
use fibratus.Prelude.{ℕ, ◌<◌, ◌≡◌, ◌≢◌, refl, ◌↔◌, ◌⊎◌, true, [], ◌∷◌, All, arith}
use fibratus.Event.Values.{Text}
use fibratus.Wildcard.{only_stars}

abbrev pub star : ℕ
star = b'*'

abbrev pub any : ℕ
any = b'?'

-- A character of the pattern other than a star stands for a character of the text.
abbrev pub Stands : ℕ → ℕ → Type 0
Stands x c = (x ≡ any) ⊎ (x ≡ c)

-- A star stands for any run of characters, `?` for one of them, any other character for itself.
pub data Matches : Text → Text → Type 0 where
  end : Matches [] []
  char : {x c : ℕ} {p s : Text} → x ≢ star → Stands x c → Matches p s → Matches (x ∷ p) (c ∷ s)
  skip : {x : ℕ} {p s : Text} → x ≡ star → Matches p s → Matches (x ∷ p) s
  more : {x c : ℕ} {p s : Text} → x ≡ star → Matches (x ∷ p) s → Matches (x ∷ p) (c ∷ s)

abbrev pub IsAscii : Text → Type 0
IsAscii = All (λ c. c < 128)

module _ {x : ℕ} {p : Text} where
  pub Matches-tail :
      {c : ℕ} {s : Text} → x ≢ star → Matches (x ∷ p) (c ∷ s) → Stands x c × Matches p s
  Matches-tail n (char _ h d) = (h, d)
  Matches-tail n (skip e d) = absurd (n e)
  Matches-tail n (more e d) = absurd (n e)

  pub not-Matches-nil : x ≢ star → ¬ Matches (x ∷ p) []
  not-Matches-nil n (skip e d) = n e

module _ {p : Text} where
  pub Matches-skip : Matches (star ∷ p) [] → Matches p []
  Matches-skip (skip _ d) = d

  pub Matches-more :
      {c : ℕ} {s : Text} → Matches (star ∷ p) (c ∷ s) → ¬ Matches p (c ∷ s) → Matches (star ∷ p) s
  Matches-more (char n _ d) no_match = absurd (n refl)
  Matches-more (skip _ d) no_match = absurd (no_match d)
  Matches-more (more _ d) no_match = d

-- Two stars in a row say no more than one.
pub Matches-star-star : {p s : Text} → Matches (star ∷ star ∷ p) s → Matches (star ∷ p) s
Matches-star-star (char n _ d) = absurd (n refl)
Matches-star-star (skip _ d) = d
Matches-star-star (more _ d) = more refl (Matches-star-star d)

-- Wherever a character behind a star finds its place, the rest begins after the first character of
-- the text, so the star may give its first place away.
pub Matches-drop :
    {x c : ℕ} {p : Text} (s : Text)
    → x ≢ star
    → Matches (star ∷ x ∷ p) (c ∷ s)
    → Matches (star ∷ p) s
Matches-drop s n (char m _ d) = absurd (m refl)
Matches-drop s n (skip _ d) = skip refl (Matches-tail n d).1
Matches-drop [] n (more _ d) = absurd (not-Matches-nil n (Matches-skip d))
Matches-drop (b ∷ s) n (more _ d) = more refl (Matches-drop s n d)

only_stars→Matches : (p : Text) → only_stars p ≡ true → Matches p []
unfolding only_stars
only_stars→Matches [] h = end
only_stars→Matches (x ∷ p) h = skip (ground arith) (only_stars→Matches p (ground arith))

Matches→only_stars : (p : Text) → Matches p [] → only_stars p ≡ true
unfolding only_stars
Matches→only_stars [] d = refl
Matches→only_stars (x ∷ p) (skip e d) = ground (arith, Matches→only_stars p d)

pub only_stars_iff : (p : Text) → (only_stars p ≡ true) ↔ Matches p []
only_stars_iff p = (only_stars→Matches p, Matches→only_stars p)
