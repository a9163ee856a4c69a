-- ===== src/Examples/Filters.antt =====
-- pkg/filter/ql on concrete expressions. The floats here are whole numbers.
use fibratus.Prelude.{
  List, ◌++◌, refl, ◌%◌, ◌≡◌, true, false, [], ◌∷◌, none, some, arith, if◌then◌else◌,
}
use fibratus.Prelude.Int.{ℤ, pos, negsuc, eqb_ℤ, ltb_ℤ, leb_ℤ, u16_mod, u32_mod}
use fibratus.Event.Values.{Text, eq_text, Link, compare_seq_links}
use fibratus.Ql.Token.{Token}
use fibratus.Ql.Value.{Floats, Value}
use fibratus.Ql.Numbers.{order_ℤ, signed_unsigned, unsigned_signed, eval_uint16, eval_uint32}
use fibratus.Ql.Numbers.Order.{unsigned_signed-order, signed_unsigned-order, narrow_literal}
use fibratus.Event.Values.Equal.{eq_text_sym}
use fibratus.Event.Values.Symmetry.{compare_seq_links_sym}
use fibratus.Ql.Texts.{Strings, intersection, intersect_inner, eval_strings, list_only}
use fibratus.Ql.Texts.Intersection.{common, first_times, intersection-first_times}
use fibratus.Ql.Expr.{Expr, Valuer}
use fibratus.Ql.Eval.{eval, eval_binary}
use fibratus.Ql.Eval.Logic.{IsCondition, truth, strict, of_truth, eval-truth, eval_binary-strict}

abbrev whole : Floats
whole = record {
  Float = ℤ;
  of_ℤ = λ n. n;
  of_ℕ = pos;
  eqb_float = eqb_ℤ;
  ltb_float = ltb_ℤ;
  leb_float = leb_ℤ;
}

abbrev strings : Strings
strings = record {
  equal_fold = eq_text;
  to_lower = λ s. s;
  fuzzy = eq_text;
  fuzzy_fold = eq_text;
  fuzzy_normalized = eq_text;
  fuzzy_normalized_fold = eq_text;
  ip_string = λ a. a;
  parse_ip = λ s. s;
}

-- The field "p" is a port, and no other field has a value.
abbrev valuer : Valuer ℤ
valuer = record {
  lookup = λ name. if eq_text name (b'p' ∷ []) then some (Value.u16 443) else none;
  call = none;
}

abbrev port : Expr ℤ
port = Expr.field (b'p' ∷ []) []

abbrev missing : Expr ℤ
missing = Expr.field (b'q' ∷ []) []

-- "p < 1024 and not (q contains 'x')"
abbrev condition : Expr ℤ
condition =
    Expr.binary Token.and (Expr.binary Token.lt port (Expr.integer (pos 1024)))
      (Expr.not_ (Expr.paren (Expr.binary Token.contains missing (Expr.str (b'x' ∷ [])))))

eval-truth_example :
    eval whole strings valuer condition ≡ of_truth (truth whole strings valuer condition)
unfolding IsCondition
eval-truth_example = eval-truth whole strings valuer condition (tt, tt)

eval_binary-strict_example :
    eval_binary whole strings Token.and (Value.bool false) Value.nil
    ≡ strict whole strings Token.and (Value.bool false) Value.nil
eval_binary-strict_example =
    eval_binary-strict whole strings Token.and (Value.bool false) Value.nil tt

unsigned_signed-order_example :
    unsigned_signed u16_mod Token.lt 443 (pos 1024) ≡ order_ℤ Token.lt (pos 443) (pos 1024)
unsigned_signed-order_example = unsigned_signed-order u16_mod Token.lt 443 (pos 1024) (omega arith)

signed_unsigned-order_example :
    signed_unsigned Token.eq (negsuc 0) 18446744073709551615
    ≡ order_ℤ Token.eq (pos 18446744073709551615) (pos 18446744073709551615)
signed_unsigned-order_example =
    signed_unsigned-order Token.eq (negsuc 0) 18446744073709551615 (omega arith)

-- The code takes -1 for the largest number of 64 bits.
test_minus_one : signed_unsigned Token.eq (negsuc 0) 18446744073709551615 ≡ some true
unfolding signed_unsigned
test_minus_one = refl

-- "p < 70000" asks for a port below 4464.
narrow_literal_example :
    (eval_uint16 whole Token.lt 8080 (Value.int64 (pos 70000))
      ≡ eval_uint16 whole Token.lt 8080 (Value.u16 (70000 % u16_mod)))
    × (eval_uint32 whole Token.lt 8080 (Value.int64 (pos 70000))
        ≡ eval_uint32 whole Token.lt 8080 (Value.u32 (70000 % u32_mod)))
narrow_literal_example = narrow_literal whole Token.lt 8080 70000

abbrev ab : List Text
ab = (b'a' ∷ []) ∷ (b'b' ∷ []) ∷ []

abbrev bc : List Text
bc = (b'b' ∷ []) ∷ (b'c' ∷ []) ∷ []

intersection-first_times_example :
    intersection eq_text (ab ++ ab) bc [] ≡ first_times [] (common eq_text bc (ab ++ ab))
intersection-first_times_example = intersection-first_times eq_text (ab ++ ab) bc

-- A repeated element on the right is found once, and so `intersects` is false.
test_repeated :
    eval_strings strings ℤ Token.intersects ab (Value.strs ((b'a' ∷ []) ∷ (b'a' ∷ []) ∷ []))
    ≡ some false
unfolding eval_strings intersection intersect_inner list_only
test_repeated = refl

compare_seq_links_sym_example :
    compare_seq_links eq_text (some (Link.u32 4 ∷ [])) (some (Link.u64 4 ∷ Link.u32 4 ∷ []))
    ≡ compare_seq_links eq_text (some (Link.u64 4 ∷ Link.u32 4 ∷ [])) (some (Link.u32 4 ∷ []))
compare_seq_links_sym_example =
    compare_seq_links_sym eq_text eq_text_sym (some (Link.u32 4 ∷ []))
      (some (Link.u64 4 ∷ Link.u32 4 ∷ []))
