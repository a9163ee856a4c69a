-- ===== src/Ql/Texts.antt =====
-- pkg/filter/ql/ast.go: the operators on strings, addresses and lists of strings in `evalBinaryExpr`,
-- and the intersection of pkg/util/sets.
pub mod Intersection
use fibratus.Prelude.{
  Bool, true, false, not, ◌&&◌, List, [], ◌∷◌, ◌++◌, Option, none, some, ◌==◌, if◌then◌else◌,
  exists, length, drop, ◌-◌, leb, ◌||◌,
}
use fibratus.Event.Values.{Text, eq_text, ip_equal}
use fibratus.Wildcard.{match}
use fibratus.Ql.Token.{Token}
use fibratus.Ql.Value.{Value}

-- What the evaluation takes from outside: `equal_fold` and `to_lower` go by the tables of Unicode,
-- the four matchers are those of the fuzzy search library (pattern first), and the last two print and
-- read an address (an unreadable one is the empty list of bytes).
pub record Strings : Type 0 where
  pub equal_fold : Text → Text → Bool
  pub to_lower : Text → Text
  pub fuzzy : Text → Text → Bool
  pub fuzzy_fold : Text → Text → Bool
  pub fuzzy_normalized : Text → Text → Bool
  pub fuzzy_normalized_fold : Text → Text → Bool
  pub ip_string : Text → Text
  pub parse_ip : Text → Text

unfoldable pub has_prefix : Text → Text → Bool
has_prefix s [] = true
has_prefix [] (x ∷ p) = false
has_prefix (c ∷ s) (x ∷ p) = c == x && has_prefix s p

unfoldable pub has_suffix : Text → Text → Bool
has_suffix s p = leb (length p) (length s) && eq_text (drop (length s - length p) s) p

unfoldable pub contains : Text → Text → Bool
unfolding has_prefix
contains [] p = has_prefix [] p
contains (c ∷ s) p = has_prefix (c ∷ s) p || contains s p

-- `wildcard.Match`, pattern first. The search always has an answer.
unfoldable pub wildcard : Text → Text → Bool
unfolding match
wildcard p s = elim (match p s) [ some b ↦ b | none ↦ false ]

module _ (Float : Type 0) where
  -- A test against one string or any of several; false for every other type.
  unfoldable pub any_string : (Text → Bool) → Value Float → Option Bool
  any_string test (Value.str s) = some (test s)
  any_string test (Value.strs l) = some (exists test l)
  any_string test _ = some false

  unfoldable pub one_string : (Text → Bool) → Value Float → Option Bool
  one_string test (Value.str s) = some (test s)
  one_string test _ = some false

  unfoldable pub list_only : (List Text → Bool) → Value Float → Option Bool
  list_only test (Value.strs l) = some (test l)
  list_only test _ = some false

  unfoldable pub one_ip : (Text → Bool) → Value Float → Option Bool
  one_ip test (Value.ip a) = some (test a)
  one_ip test _ = some false

-- Some pair passes.
unfoldable pub any_pair : (Text → Text → Bool) → List Text → List Text → Bool
any_pair test l r = exists (λ a. exists (test a) r) l

-- The inner loop of `IntersectionStrings`: `found` are both the result and the bucket.
unfoldable pub intersect_inner : (Text → Text → Bool) → Text → List Text → List Text → List Text
intersect_inner same i [] found = found
intersect_inner same i (j ∷ s2) found =
    intersect_inner same i s2
      (if same i j && not (exists (eq_text i) found) then found ++ i ∷ [] else found)

unfoldable pub intersection : (Text → Text → Bool) → List Text → List Text → List Text → List Text
unfolding intersect_inner
intersection same [] s2 found = found
intersection same (i ∷ s1) s2 found = intersection same s1 s2 (intersect_inner same i s2 found)

module _ (st : Strings) (Float : Type 0) where
  open st use {
    equal_fold, to_lower, fuzzy, fuzzy_fold, fuzzy_normalized, fuzzy_normalized_fold, ip_string,
    parse_ip,
  }

  unfoldable pub eval_string : Token → Text → Value Float → Option Bool
  unfolding any_string one_string list_only has_suffix contains wildcard
  eval_string Token.eq a = one_string Float (λ s. eq_text a s)
  eval_string Token.ieq a = one_string Float (λ s. equal_fold a s)
  eval_string Token.neq a = one_string Float (λ s. not (eq_text a s))
  eval_string Token.contains a = any_string Float (λ s. contains a s)
  eval_string Token.icontains a = any_string Float (λ s. contains (to_lower a) (to_lower s))
  eval_string Token.in_ a = list_only Float (exists (λ i. eq_text i a))
  eval_string Token.iin a = list_only Float (exists (λ i. equal_fold i a))
  eval_string Token.startswith a = any_string Float (λ s. has_prefix a s)
  eval_string Token.istartswith a = any_string Float (λ s. has_prefix (to_lower a) (to_lower s))
  eval_string Token.endswith a = any_string Float (λ s. has_suffix a s)
  eval_string Token.iendswith a = any_string Float (λ s. has_suffix (to_lower a) (to_lower s))
  eval_string Token.matches a = any_string Float (λ p. wildcard p a)
  eval_string Token.imatches a = any_string Float (λ p. wildcard (to_lower p) (to_lower a))
  eval_string Token.fuzzy a = any_string Float (λ s. fuzzy s a)
  eval_string Token.ifuzzy a = any_string Float (λ s. fuzzy_fold s a)
  eval_string Token.fuzzynorm a = any_string Float (λ s. fuzzy_normalized s a)
  eval_string Token.ifuzzynorm a = any_string Float (λ s. fuzzy_normalized_fold s a)
  eval_string _ a = λ r. none

  unfoldable pub ip_in : Text → Value Float → Option Bool
  unfolding ip_equal
  ip_in a (Value.ips l) = some (exists (λ b. ip_equal b a) l)
  ip_in a (Value.strs l) = some (exists (λ s. ip_equal (parse_ip s) a) l)
  ip_in a _ = some false

  unfoldable pub eval_ip : Token → Text → Value Float → Option Bool
  unfolding one_ip one_string ip_in has_prefix has_suffix
  eval_ip Token.eq a = one_ip Float (λ b. ip_equal a b)
  eval_ip Token.neq a = one_ip Float (λ b. not (ip_equal a b))
  eval_ip Token.in_ a = ip_in a
  eval_ip Token.startswith a = one_string Float (λ s. has_prefix (ip_string a) s)
  eval_ip Token.endswith a = one_string Float (λ s. has_suffix (ip_string a) s)
  eval_ip _ a = λ r. none

  -- `iin` falls through to its second loop when no pair is found, with `s` the empty string.
  unfoldable pub strings_iin : List Text → Value Float → Option Bool
  unfolding any_pair
  strings_iin l (Value.str s) = some (exists (λ v. equal_fold v s) l)
  strings_iin l (Value.strs r) = some (any_pair equal_fold l r || exists (λ v. equal_fold v []) l)
  strings_iin l _ = some false

  unfoldable pub strings_contain : List Text → Value Float → Option Bool
  unfolding any_pair
  strings_contain l (Value.str s) = some (exists (λ v. contains v s) l)
  strings_contain l (Value.strs r) = some (any_pair (λ s1 s2. contains s2 s1) r l)
  strings_contain l _ = some false

  unfoldable pub strings_in : List Text → Value Float → Option Bool
  unfolding any_pair
  strings_in l (Value.str s) = some (exists (λ v. eq_text v s) l)
  strings_in l (Value.strs r) = some (any_pair eq_text l r)
  strings_in l _ = some false

  unfoldable pub eval_strings : Token → List Text → Value Float → Option Bool
  unfolding list_only any_pair intersection strings_iin strings_contain strings_in has_suffix
      contains wildcard
  eval_strings Token.contains l = strings_contain l
  eval_strings Token.icontains l =
      list_only Float (any_pair (λ s1 s2. contains (to_lower s1) (to_lower s2)) l)
  eval_strings Token.in_ l = strings_in l
  eval_strings Token.iin l = strings_iin l
  eval_strings Token.startswith l = list_only Float (λ r. any_pair (λ s1 s2. has_prefix s2 s1) r l)
  eval_strings Token.istartswith l =
      list_only Float (λ r. any_pair (λ s1 s2. has_prefix (to_lower s2) (to_lower s1)) r l)
  eval_strings Token.endswith l = list_only Float (λ r. any_pair (λ s1 s2. has_suffix s2 s1) r l)
  eval_strings Token.iendswith l =
      list_only Float (λ r. any_pair (λ s1 s2. has_suffix (to_lower s2) (to_lower s1)) r l)
  eval_strings Token.matches l = list_only Float (λ r. any_pair (λ pat val. wildcard pat val) r l)
  eval_strings Token.imatches l =
      list_only Float (λ r. any_pair (λ pat val. wildcard (to_lower pat) (to_lower val)) r l)
  eval_strings Token.intersects l =
      list_only Float (λ r. length (intersection eq_text l r []) == length r)
  eval_strings Token.iintersects l =
      list_only Float (λ r. length (intersection equal_fold l r []) == length r)
  eval_strings _ l = λ r. none
