-- ===== src/Wildcard/Total.antt =====
-- pkg/util/wildcard: the search stops on all strings, whatever bytes they hold.
use fibratus.Prelude.{
  ℕ, zero, suc, ◌+◌, ◌*◌, ◌≤◌, ◌<◌, ◌≢◌, [], ◌∷◌, Option, none, some, ◌==◌, length, drop,
  Bool-cases, inl, inr, arith,
}
use fibratus.Event.Values.{Text}
use fibratus.Wildcard.{
  decode_two, decode_three, decode_four, decode_rune, consume, Saved, Rest, backtrack, proceed,
  loop, match,
}

decode_two_pos : (b : ℕ) (s : Text) → 1 ≤ (decode_two b s).1
unfolding decode_two
decode_two_pos b [] = omega arith
decode_two_pos b (x ∷ s) = ground arith

decode_three_pos : (lo hi b : ℕ) (s : Text) → 1 ≤ (decode_three lo hi b s).1
unfolding decode_three
decode_three_pos lo hi b [] = omega arith
decode_three_pos lo hi b (x ∷ []) = omega arith
decode_three_pos lo hi b (x ∷ y ∷ s) = ground arith

decode_four_pos : (lo hi b : ℕ) (s : Text) → 1 ≤ (decode_four lo hi b s).1
unfolding decode_four
decode_four_pos lo hi b [] = omega arith
decode_four_pos lo hi b (x ∷ []) = omega arith
decode_four_pos lo hi b (x ∷ y ∷ []) = omega arith
decode_four_pos lo hi b (x ∷ y ∷ z ∷ s) = ground arith

-- A rune of a string that is not empty has a byte at least.
pub decode_rune_pos : (b : ℕ) (s : Text) → 1 ≤ (decode_rune (b ∷ s)).1
unfolding decode_rune
decode_rune_pos b s = ground (
  arith,
  decode_two_pos b s,
  decode_three_pos 0xa0 0xbf b s,
  decode_three_pos 0x80 0x9f b s,
  decode_three_pos 0x80 0xbf b s,
  decode_four_pos 0x90 0xbf b s,
  decode_four_pos 0x80 0xbf b s,
  decode_four_pos 0x80 0x8f b s,
)

length-drop-le : (n : ℕ) (s : Text) → length (drop n s) ≤ length s
length-drop-le zero s = omega arith
length-drop-le (suc n) [] = omega arith
length-drop-le (suc n) (x ∷ s) = omega (arith, length-drop-le n s)

length-drop-lt : (n x : ℕ) (s : Text) → 1 ≤ n → length (drop n (x ∷ s)) ≤ length s
length-drop-lt zero x s h = absurd (omega arith)
length-drop-lt (suc n) x s h = length-drop-le n s

-- Where a step may leave the two strings.
abbrev Shorter : ℕ → ℕ → Option (Text × Text) → Type 0
Shorter m n none = Unit
Shorter m n (some (p, s)) = (length p ≤ m) × (length s ≤ n)

consume-Shorter :
    (x : ℕ) (p : Text) (c : ℕ) (s : Text) → Shorter (length p) (length s) (consume x p c s)
unfolding consume
consume-Shorter x p c s = ground (
  arith,
  length-drop-lt (decode_rune (x ∷ p)).1 x p (decode_rune_pos x p),
  length-drop-lt (decode_rune (c ∷ s)).1 c s (decode_rune_pos c s),
)

-- Every pattern in play is shorter than `k`; `m` bounds the text that is left to try.
module _ (k : ℕ) where
  abbrev Bounded : ℕ → ℕ → Saved → Type 0
  Bounded m n none = Unit
  Bounded m n (some (bp, bs)) = (n ≤ length bs) × (length bs ≤ m) × (length bp < k)

  record Enough (f m : ℕ) (p s : Text) (back : Saved) : Type 0 where
    saved : Bounded m (length s) back
    text_bound : length s ≤ m
    pattern_bound : length p < k
    fuel : m * k + length p < f

  abbrev Stops : Rest → ℕ → Type 0
  Stops next f = (m : ℕ) (p s : Text) (b : Saved) → Enough f m p s b → next p s b ≢ none

  backtrack-ne-none :
      (f m : ℕ) (p : Text) (c : ℕ) (s : Text) (back : Saved) (next : Rest)
      → Stops next f
      → Enough (suc f) m p (c ∷ s) back
      → backtrack back next ≢ none
  unfolding backtrack
  backtrack-ne-none f m p c s none next ih i = λ e. cc
  backtrack-ne-none f m p c s (some (bp, [])) next ih i = absurd (omega arith)
  backtrack-ne-none f zero p c s (some (bp, b ∷ bs)) next ih i = absurd (omega arith)
  backtrack-ne-none f (suc m) p c s (some (bp, b ∷ bs)) next ih i =
      ih m bp bs (some (bp, bs)) (record {
        saved = omega arith;
        text_bound = omega arith;
        pattern_bound = omega arith;
        fuel = omega arith;
      })

  Bounded-le : (m n n' : ℕ) (back : Saved) → n' ≤ n → Bounded m n back → Bounded m n' back
  Bounded-le m n n' none h b = b
  Bounded-le m n n' (some (bp, bs)) h b = omega arith

  proceed-ne-none :
      (f m x : ℕ) (p : Text) (c : ℕ) (s : Text) (o : Option (Text × Text)) (back : Saved)
      (next : Rest)
      → Stops next f
      → Enough (suc f) m (x ∷ p) (c ∷ s) back
      → Shorter (length p) (length s) o
      → proceed o back next ≢ none
  unfolding proceed
  proceed-ne-none f m x p c s none back next ih i h =
      backtrack-ne-none f m (x ∷ p) c s back next ih i
  proceed-ne-none f m x p c s (some (p', s')) back next ih i h = ih m p' s' back (record {
    saved = Bounded-le m (suc (length s)) (length s') back (omega arith) i.saved;
    text_bound = omega arith;
    pattern_bound = omega arith;
    fuel = omega arith;
  })

  loop-ne-none : (f : ℕ) → Stops (loop f) f
  unfolding loop
  loop-ne-none zero m p s back i = absurd (omega arith)
  loop-ne-none (suc f) m p [] back i = λ e. cc
  loop-ne-none (suc f) m [] (c ∷ s) back i =
      backtrack-ne-none f m [] c s back (loop f) (loop-ne-none f) i
  loop-ne-none (suc f) m (x ∷ p) (c ∷ s) back i = elim (Bool-cases (x == b'*')) [
    | inl is_star ↦ rw is_star (
        loop-ne-none f m p (c ∷ s) (some (p, c ∷ s)) (record {
          saved = omega arith;
          text_bound = omega arith;
          pattern_bound = omega arith;
          fuel = omega arith;
        }))
    | inr no_star ↦ rw no_star (
        proceed-ne-none f m x p c s (consume x p c s) back (loop f) (loop-ne-none f) i
          (consume-Shorter x p c s))
  ]

-- For every pattern and every string, valid UTF-8 or not, the fuel that `match` gives its loop is
-- enough: it has an answer.
pub match-ne-none : (p s : Text) → match p s ≢ none
unfolding match
match-ne-none p s = loop-ne-none (length p + 1) _ (length s) p s none (record {
  saved = tt;
  text_bound = omega arith;
  pattern_bound = omega arith;
  fuel = grind arith;
})
