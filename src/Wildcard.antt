-- ===== src/Wildcard.antt =====
-- pkg/util/wildcard/wildcard.go: `Match`, over bytes, and the decoding of a rune (Go's unicode/utf8)
-- that it steps by. The indices into the two strings are the suffixes that they cut off.
pub mod Pattern
pub mod Decision
pub mod Total
use fibratus.Prelude.{
  ℕ, zero, suc, ◌+◌, ◌-◌, ◌*◌, ◌%◌, Bool, true, false, not, ◌&&◌, ◌||◌, List, [], ◌∷◌, Option, none,
  some, ltb, leb, ◌==◌, if◌then◌else◌, length, drop,
}
use fibratus.Event.Values.{Text}

abbrev pub rune_error : ℕ
rune_error = 65533

abbrev pub rune_self : ℕ
rune_self = 128

abbrev within : ℕ → ℕ → ℕ → Bool
within lo hi x = leb lo x && leb x hi

abbrev is_continuation : ℕ → Bool
is_continuation x = within 0x80 0xbf x

-- A rune of two, three or four bytes, if the bytes that follow fit; else the error, one byte long.
pub decode_two : ℕ → Text → ℕ × ℕ
decode_two b0 (b1 ∷ rest) =
    if is_continuation b1 then (b0 % 32 * 64 + b1 % 64, 2) else (rune_error, 1)
decode_two b0 [] = (rune_error, 1)

pub decode_three : ℕ → ℕ → ℕ → Text → ℕ × ℕ
decode_three lo hi b0 (b1 ∷ b2 ∷ rest) =
    if within lo hi b1 && is_continuation b2
    then (b0 % 16 * 4096 + b1 % 64 * 64 + b2 % 64, 3)
    else (rune_error, 1)
decode_three lo hi b0 (b1 ∷ []) = (rune_error, 1)
decode_three lo hi b0 [] = (rune_error, 1)

pub decode_four : ℕ → ℕ → ℕ → Text → ℕ × ℕ
decode_four lo hi b0 (b1 ∷ b2 ∷ b3 ∷ rest) =
    if within lo hi b1 && is_continuation b2 && is_continuation b3
    then (b0 % 8 * 262144 + b1 % 64 * 4096 + b2 % 64 * 64 + b3 % 64, 4)
    else (rune_error, 1)
decode_four lo hi b0 (b1 ∷ b2 ∷ []) = (rune_error, 1)
decode_four lo hi b0 (b1 ∷ []) = (rune_error, 1)
decode_four lo hi b0 [] = (rune_error, 1)

-- `utf8.DecodeRuneInString`: the rune and its length in bytes.
unfoldable pub decode_rune : Text → ℕ × ℕ
unfolding decode_two decode_three decode_four
decode_rune [] = (rune_error, 0)
decode_rune (b ∷ rest) =
    if ltb b 0x80
    then (b, 1)
    else if within 0xc2 0xdf b
    then decode_two b rest
    else if b == 0xe0
    then decode_three 0xa0 0xbf b rest
    else if b == 0xed
    then decode_three 0x80 0x9f b rest
    else if within 0xe1 0xef b
    then decode_three 0x80 0xbf b rest
    else if b == 0xf0
    then decode_four 0x90 0xbf b rest
    else if within 0xf1 0xf3 b
    then decode_four 0x80 0xbf b rest
    else if b == 0xf4
    then decode_four 0x80 0x8f b rest
    else (rune_error, 1)

-- One step over a pattern `x ∷ p` that is no star, and a string `c ∷ s`; `none` is a mismatch.
unfoldable pub consume : ℕ → Text → ℕ → Text → Option (Text × Text)
consume x p c s =
    if x == b'?'
    then (if ltb c rune_self && ltb x rune_self
        then some (p, s)
        else some (drop (decode_rune (x ∷ p)).1 (x ∷ p), drop (decode_rune (c ∷ s)).1 (c ∷ s)))
    else if ltb x rune_self && ltb c rune_self
    then (if x == c then some (p, s) else none)
    else if (decode_rune (x ∷ p)).0 == (decode_rune (c ∷ s)).0
    then some (drop (decode_rune (x ∷ p)).1 (x ∷ p), drop (decode_rune (c ∷ s)).1 (c ∷ s))
    else none

-- The last star seen: the pattern behind it (`wildcardIdx + 1`) and the string at `matchIdx`.
abbrev pub Saved : Type 0
Saved = Option (Text × Text)

-- What the rest of the loop answers; `none` means that the model's fuel ran out.
abbrev pub Rest : Type 0
Rest = Text → Text → Saved → Option Bool

unfoldable pub backtrack : Saved → Rest → Option Bool
backtrack none next = some false
backtrack (some (bp, bs)) next = next bp (drop 1 bs) (some (bp, drop 1 bs))

unfoldable pub proceed : Option (Text × Text) → Saved → Rest → Option Bool
unfolding backtrack
proceed none back next = backtrack back next
proceed (some (p, s)) back next = next p s back

unfoldable pub only_stars : Text → Bool
only_stars [] = true
only_stars (x ∷ p) = x == b'*' && only_stars p

unfoldable pub loop : ℕ → Rest
loop zero p s back = none
loop (suc f) p [] back = some (only_stars p)
loop (suc f) [] (c ∷ s) back = backtrack back (loop f)
loop (suc f) (x ∷ p) (c ∷ s) back =
    let starred = loop f p (c ∷ s) (some (p, c ∷ s)) in
    let stepped = proceed (consume x p c s) back (loop f) in if x == b'*' then starred else stepped

-- With a star saved, the string shrinks at each return to it, and between two returns the pattern
-- shrinks: the fuel is their product.
unfoldable pub match : Text → Text → Option Bool
unfolding loop proceed consume decode_rune only_stars
match p s = loop ((length s + 1) * (length p + 1)) p s none
