-- ===== src/Event/Values.antt =====
-- The values that join the events of a sequence (`any` in pkg/filter/util.go), and how two of them
-- are compared. Text and addresses are lists of bytes.
pub mod Equal
pub mod Symmetry
use fibratus.Prelude.{
  ℕ, Bool, true, false, List, [], ◌∷◌, ◌++◌, ◌&&◌, ◌==◌, if◌then◌else◌, length, Option, none, some,
  exists,
}
use fibratus.Prelude.Int.{ℤ, eqb_ℤ}

abbrev pub Text : Type 0
Text = List ℕ

-- `other` is a value of any type that the comparison does not list.
pub data Link : Type 0 where
  nil : Link
  str : Text → Link
  u8 u16 u32 u64 uint : ℕ → Link
  int : ℤ → Link
  ip : Text → Link
  other : Link

abbrev pub eq_text : Text → Text → Bool
eq_text [] [] = true
eq_text [] (y ∷ ys) = false
eq_text (x ∷ xs) [] = false
eq_text (x ∷ xs) (y ∷ ys) = x == y && eq_text xs ys

-- How an IPv4 address begins in its sixteen-byte form.
abbrev pub v4_in_v6_prefix : Text
v4_in_v6_prefix = 0 ∷ 0 ∷ 0 ∷ 0 ∷ 0 ∷ 0 ∷ 0 ∷ 0 ∷ 0 ∷ 0 ∷ 255 ∷ 255 ∷ []

-- `net.IP.Equal`: an IPv4 address and its sixteen-byte form are the same address.
unfoldable pub ip_equal : Text → Text → Bool
ip_equal a b =
    if length a == length b
    then eq_text a b
    else if length a == 4 && length b == 16
    then eq_text (v4_in_v6_prefix ++ a) b
    else length a == 16 && length b == 4 && eq_text a (v4_in_v6_prefix ++ b)

-- `strings.EqualFold` is the parameter `equal_fold`: it goes by the tables of Unicode.
module _ (equal_fold : Text → Text → Bool) where
  unfoldable pub compare_seq_link : Link → Link → Bool
  unfolding ip_equal
  compare_seq_link nil b = false
  compare_seq_link (Link.str v) (Link.str s) = equal_fold v s
  compare_seq_link (Link.u8 v) (Link.u8 n) = v == n
  compare_seq_link (Link.u16 v) (Link.u16 n) = v == n
  compare_seq_link (Link.u32 v) (Link.u32 n) = v == n
  compare_seq_link (Link.u64 v) (Link.u64 n) = v == n
  compare_seq_link (Link.int v) (Link.int n) = eqb_ℤ v n
  compare_seq_link (Link.uint v) (Link.uint n) = v == n
  compare_seq_link (Link.ip v) (Link.ip a) = ip_equal v a
  compare_seq_link _ _ = false

  -- A missing set of links is `none`.
  unfoldable pub compare_seq_links : Option (List Link) → Option (List Link) → Bool
  unfolding compare_seq_link
  compare_seq_links none rhs = false
  compare_seq_links (some lhs) none = false
  compare_seq_links (some lhs) (some rhs) = exists (λ v1. exists (compare_seq_link v1) rhs) lhs

  unfoldable pub compare_seq_link_any : Link → Option (List Link) → Bool
  unfolding compare_seq_link
  compare_seq_link_any nil rhs = false
  compare_seq_link_any lhs none = false
  compare_seq_link_any lhs (some rhs) = exists (compare_seq_link lhs) rhs
