-- ===== src/Wildcard/Decision.antt =====
-- pkg/util/wildcard: the search, which goes back to the last star only, decides what the pattern means
-- on single-byte characters.
use fibratus.Prelude.{
  ℕ, zero, suc, ◌+◌, ◌*◌, ◌≤◌, ◌<◌, ◌≡◌, ◌≢◌, refl, ◌↔◌, inl, inr, Bool, true, false, [], ◌∷◌,
  Option, none, some, ◌==◌, if◌then◌else◌, length, Bool-cases, ==_iff, arith, subst,
}
use mathlib.Core.Bool.{false≢true}
use fibratus.Event.Values.{Text}
use fibratus.Wildcard.{consume, Saved, Rest, backtrack, proceed, only_stars, loop, match}
use fibratus.Wildcard.Pattern.{
  star, any, Stands, Matches, skip, more, char, IsAscii, Matches-tail, Matches-skip, Matches-more,
  Matches-star-star, Matches-drop, only_stars_iff,
}

-- On single-byte characters a step takes one of each, or is a mismatch.
consume_ascii :
    (x : ℕ) (p : Text) (c : ℕ) (s : Text)
    → x < 128
    → c < 128
    → consume x p c s ≡ (if x == any then some (p, s) else if x == c then some (p, s) else none)
unfolding consume
consume_ascii x p c s hx hc = ground arith

not-Stands : (x c : ℕ) → (x == any) ≡ false → (x == c) ≡ false → ¬ Stands x c
not-Stands x c h h' (inl e) = ground arith
not-Stands x c h h' (inr e) = ground arith

-- The search ended with an answer, and the answer is right about `G`.
abbrev pub Answers : Type 0 → Option Bool → Type 0
Answers G none = ⊥
Answers G (some true) = G
Answers G (some false) = ¬ G

Answers-some : (G : Type 0) (b : Bool) → (b ≡ true) ↔ G → Answers G (some b)
Answers-some G true e = e.0 refl
Answers-some G false e = λ g. false≢true (e.1 g)

-- `G` is the question that the search was started with; every pattern in play is shorter than `k`.
module _ (G : Type 0) (k : ℕ) where
  -- What a saved star means for the present position. `m` bounds what is left to try.
  abbrev Meaning : ℕ → Text → Text → Saved → Type 0
  Meaning m p s none = G → Matches p s
  Meaning m p s (some (bp, bs)) =
      (G ↔ Matches (star ∷ bp) bs)
      × (Matches bp bs → Matches p s)
      × (length s ≤ length bs)
      × (length bs ≤ m)
      × (length bp < k)
      × IsAscii bp
      × IsAscii bs

  record Searching (f m : ℕ) (p s : Text) (back : Saved) : Type 0 where
    sound : Matches p s → G
    greedy : G → Matches (star ∷ p) s
    meaning : Meaning m p s back
    text_bound : length s ≤ m
    pattern_bound : length p < k
    fuel : m * k + length p < f
    ascii_pattern : IsAscii p
    ascii_text : IsAscii s

  -- From a star on, the question is whether the star and what follows it match.
  Searching-star :
      {f m : ℕ} {p s : Text}
      → G ↔ Matches (star ∷ p) s
      → length s ≤ m
      → length p < k
      → m * k + length p < f
      → IsAscii p
      → IsAscii s
      → Searching f m p s (some (p, s))
  Searching-star e hs hp hf pa ta = record {
    sound = λ d. e.1 (skip refl d);
    greedy = e.0;
    meaning = (e, λ d. d, omega arith, hs, hp, pa, ta);
    text_bound = hs;
    pattern_bound = hp;
    fuel = hf;
    ascii_pattern = pa;
    ascii_text = ta;
  }

  Meaning-tail :
      (m x c : ℕ) (p s : Text) (back : Saved)
      → x ≢ star
      → Meaning m (x ∷ p) (c ∷ s) back
      → Meaning m p s back
  Meaning-tail m x c p s none n h = λ g. (Matches-tail n (h g)).1
  Meaning-tail m x c p s (some (bp, bs)) n (e, down, hs, hm, hk, pa, ta) =
      (e, λ d. (Matches-tail n (down d)).1, omega arith, hm, hk, pa, ta)

  Searching-tail :
      {f m x c : ℕ} {p s : Text} {back : Saved}
      → x ≢ star
      → Stands x c
      → Searching (suc f) m (x ∷ p) (c ∷ s) back
      → Searching f m p s back
  Searching-tail {m} {x} {c} {p} {s} {back} n h i = record {
    sound = λ d. i.sound (char n h d);
    greedy = λ g. Matches-drop s n (i.greedy g);
    meaning = Meaning-tail m x c p s back n i.meaning;
    text_bound = omega arith;
    pattern_bound = omega arith;
    fuel = omega arith;
    ascii_pattern = i.ascii_pattern.1;
    ascii_text = i.ascii_text.1;
  }

  -- On a mismatch the saved star has to take one character more.
  backtrack-Answers :
      {f : ℕ} (m : ℕ) (p : Text) (c : ℕ) (s : Text) (back : Saved) (next : Rest)
      → ((m' : ℕ) (p' s' : Text) (b : Saved) → Searching f m' p' s' b → Answers G (next p' s' b))
      → Searching (suc f) m p (c ∷ s) back
      → ¬ Matches p (c ∷ s)
      → Answers G (backtrack back next)
  unfolding backtrack
  backtrack-Answers m p c s none next ih i no_match = λ g. no_match (i.meaning g)
  backtrack-Answers m p c s (some (bp, [])) next ih i no_match = absurd (omega arith)
  backtrack-Answers zero p c s (some (bp, b ∷ bs)) next ih i no_match = absurd (omega arith)
  backtrack-Answers (suc m) p c s (some (bp, b ∷ bs)) next ih i no_match =
      let (e, down, hs, hm, hk, pa, ta) = i.meaning in
      ih m bp bs (some (bp, bs)) (
        Searching-star (λ g. Matches-more (e.0 g) (λ d. no_match (down d)), λ d. e.1 (more refl d))
          (omega arith) (omega arith) (omega arith) pa ta.1)

  -- A star, wherever it stands, takes the question over.
  star_takes_over :
      {f m : ℕ} {p s : Text} {back : Saved}
      → Searching (suc f) m (star ∷ p) s back
      → G ↔ Matches (star ∷ p) s
  star_takes_over i = (λ g. Matches-star-star (i.greedy g), i.sound)

  -- One step over a character, in its three outcomes.
  proceed-Answers :
      {f : ℕ} (m x : ℕ) (p : Text) (c : ℕ) (s : Text) (back : Saved) (next : Rest)
      → ((m' : ℕ) (p' s' : Text) (b : Saved) → Searching f m' p' s' b → Answers G (next p' s' b))
      → Searching (suc f) m (x ∷ p) (c ∷ s) back
      → x ≢ star
      → Answers G (proceed (consume x p c s) back next)
  unfolding proceed
  proceed-Answers m x p c s back next ih i n =
      rw (consume_ascii x p c s i.ascii_pattern.0 i.ascii_text.0, proceed)
        (elim (Bool-cases (x == any)) [
          | inl wild ↦ rw wild (ih m p s back (Searching-tail n (inl ((==_iff x any).0 wild)) i))
          | inr plain ↦ elim (Bool-cases (x == c)) [
            | inl same ↦
                rw (plain, same) (ih m p s back (Searching-tail n (inr ((==_iff x c).0 same)) i))
            | inr other ↦
                rw (plain, other)
                  (backtrack-Answers m (x ∷ p) c s back next ih i
                    (λ d. not-Stands x c plain other (Matches-tail n d).0))
          ]
        ])

  loop-Answers :
      (f m : ℕ) (p s : Text) (back : Saved) → Searching f m p s back → Answers G (loop f p s back)
  unfolding loop
  loop-Answers zero m p s back i = omega arith
  loop-Answers (suc f) m p [] back i =
      let (to, from) = only_stars_iff p in
      Answers-some G (only_stars p) (λ h. i.sound (to h), λ g. from (Matches-skip (i.greedy g)))
  loop-Answers (suc f) m [] (c ∷ s) back i =
      backtrack-Answers m [] c s back (loop f) (loop-Answers f) i (λ d. elim d [ ])
  loop-Answers (suc f) m (x ∷ p) (c ∷ s) back i = elim (Bool-cases (x == star)) [
    | inl is_star ↦
        let i' =
          subst (λ y. Searching (suc f) m (y ∷ p) (c ∷ s) back) ((==_iff x star).0 is_star) i in
        rw is_star (
          loop-Answers f m p (c ∷ s) (some (p, c ∷ s)) (
            Searching-star (star_takes_over i') i.text_bound (omega arith) (omega arith)
              i.ascii_pattern.1 i.ascii_text))
    | inr no_star ↦
        rw no_star (proceed-Answers m x p c s back (loop f) (loop-Answers f) i (ground arith))
  ]

-- On a pattern and a text of single-byte characters `match` has an answer, and it is true just if
-- the pattern, read as any run of characters for a star and one character for each `?`, matches
-- the whole text.
pub match-Answers : (p s : Text) → IsAscii p → IsAscii s → Answers (Matches p s) (match p s)
unfolding match
match-Answers p s hp hs = loop-Answers (Matches p s) (length p + 1) _ (length s) p s none (record {
  sound = λ d. d;
  greedy = λ d. skip refl d;
  meaning = λ d. d;
  text_bound = omega arith;
  pattern_bound = omega arith;
  fuel = grind arith;
  ascii_pattern = hp;
  ascii_text = hs;
})
