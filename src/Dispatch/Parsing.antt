-- ===== src/Dispatch/Parsing.antt =====
-- What `parse` makes of a command line (cli/internal/dispatch/dispatch.go).
use millstrand.Base.{
  Str, text, has_prefix, ◌≡◌, refl, sym, ap, ◌∙◌, subst, ◌⊎◌, inl, inr, true, false, List, [], ◌∷◌,
  ◌++◌, ok, err, ok-injective, arith,
}
use millstrand.Dispatch.Args.{
  Parsed, zero_parsed, ValueFlag, unknown_flag, flag_needs_argument, set_flag, Turn, next, needs,
  unknown, operation, turn, parse_from, parse,
}

-- A turn does not name an op.
next-have_op : (p q : Parsed) (a : Str) → turn p a ≡ next q → q.have_op ≡ p.have_op
unfolding turn
next-have_op p q a h = ground arith

set_flag-have_op :
    (flag : ValueFlag) (v : Str) (p : Parsed) → (set_flag flag v p).have_op ≡ p.have_op
set_flag-have_op flag v p = ground arith

operation-plain : (p : Parsed) (a : Str) → turn p a ≡ operation → has_prefix a (text "-") ≡ false
unfolding turn
operation-plain p a h = ground arith

Turn-cases :
    (t : Turn)
    → ((q : Parsed) × (t ≡ next q))
      ⊎ ((f : ValueFlag) × (t ≡ needs f))
      ⊎ (t ≡ unknown)
      ⊎ (t ≡ operation)
Turn-cases (next q) = inl (q, refl)
Turn-cases (needs f) = inr (inl (f, refl))
Turn-cases unknown = inr (inr (inl refl))
Turn-cases operation = inr (inr (inr refl))

-- The words up to the op, the op and the words behind it.
pub record Splits (p q : Parsed) (args : List Str) : Type 0 where
  pub flags : List Str
  pub whole : args ≡ flags ++ q.op_name ∷ q.argv
  pub plain : has_prefix q.op_name (text "-") ≡ false
  pub opaque :
      (argv : List Str) → parse_from p (flags ++ q.op_name ∷ argv) ≡ ok (record q { argv = argv })

module _ (p : Parsed) (a : Str) where
  pub step_next :
      (q : Parsed) (words : List Str)
      → turn p a ≡ next q
      → parse_from p (a ∷ words) ≡ parse_from q words
  unfolding parse_from
  step_next q [] e = rw (e, parse_from)
  step_next q (b ∷ words) e = rw (e, parse_from)

  pub step_needs :
      (flag : ValueFlag) (b : Str) (words : List Str)
      → turn p a ≡ needs flag
      → parse_from p (a ∷ b ∷ words) ≡ parse_from (set_flag flag b p) words
  unfolding parse_from
  step_needs flag b words e = rw (e, parse_from)

  pub step_operation :
      (words : List Str)
      → turn p a ≡ operation
      → parse_from p (a ∷ words) ≡ ok (record p { have_op = true; op_name = a; argv = words })
  unfolding parse_from
  step_operation [] e = rw (e, parse_from)
  step_operation (b ∷ words) e = rw (e, parse_from)

  step_unknown :
      (words : List Str) → turn p a ≡ unknown → parse_from p (a ∷ words) ≡ err (unknown_flag a)
  unfolding parse_from
  step_unknown [] e = rw (e, parse_from)
  step_unknown (b ∷ words) e = rw (e, parse_from)

  step_short :
      (flag : ValueFlag)
      → turn p a ≡ needs flag
      → parse_from p (a ∷ []) ≡ err (flag_needs_argument flag)
  unfolding parse_from
  step_short flag e = rw (e, parse_from)

  Splits-operation :
      (q : Parsed) (words : List Str)
      → turn p a ≡ operation
      → parse_from p (a ∷ words) ≡ ok q
      → Splits p q (a ∷ words)
  Splits-operation q words e h =
      subst (λ r. Splits p r (a ∷ words)) (ok-injective (sym (step_operation words e) ∙ h))
        (record {
          flags = [];
          whole = refl;
          plain = operation-plain p a e;
          opaque = λ argv. step_operation argv e;
        })

  Splits-next :
      (r q : Parsed) (words : List Str)
      → turn p a ≡ next r
      → Splits r q words
      → Splits p q (a ∷ words)
  Splits-next r q words e s = record {
    flags = a ∷ s.flags;
    whole = ap (◌∷◌ a) s.whole;
    plain = s.plain;
    opaque = λ argv. step_next r (s.flags ++ q.op_name ∷ argv) e ∙ s.opaque argv;
  }

  Splits-needs :
      (flag : ValueFlag) (b : Str) (q : Parsed) (words : List Str)
      → turn p a ≡ needs flag
      → Splits (set_flag flag b p) q words
      → Splits p q (a ∷ b ∷ words)
  Splits-needs flag b q words e s = record {
    flags = a ∷ b ∷ s.flags;
    whole = ap (λ t. a ∷ b ∷ t) s.whole;
    plain = s.plain;
    opaque = λ argv. step_needs flag b (s.flags ++ q.op_name ∷ argv) e ∙ s.opaque argv;
  }

parse_from-Splits :
    (p q : Parsed) (args : List Str)
    → p.have_op ≡ false
    → parse_from p args ≡ ok q
    → q.have_op ≡ true
    → Splits p q args
unfolding parse_from
parse_from-Splits p q [] n h o = absurd (ground arith)
parse_from-Splits p q (a ∷ []) n h o = elim (Turn-cases (turn p a)) [
  | inl (r, e) ↦
      Splits-next p a r q [] e
        (parse_from-Splits r q [] (next-have_op p r a e ∙ n) (sym (step_next p a r [] e) ∙ h) o)
  | inr (inl (f, e)) ↦ absurd (cc (step_short p a f e, h))
  | inr (inr (inl e)) ↦ absurd (cc (step_unknown p a [] e, h))
  | inr (inr (inr e)) ↦ Splits-operation p a q [] e h
]
parse_from-Splits p q (a ∷ b ∷ rest) n h o = elim (Turn-cases (turn p a)) [
  | inl (r, e) ↦ Splits-next p a r q (b ∷ rest) e (
      parse_from-Splits r q (b ∷ rest) (next-have_op p r a e ∙ n)
        (sym (step_next p a r (b ∷ rest) e) ∙ h) o)
  | inr (inl (f, e)) ↦ Splits-needs p a f b q rest e (
      parse_from-Splits (set_flag f b p) q rest (set_flag-have_op f b p ∙ n)
        (sym (step_needs p a f b rest e) ∙ h) o)
  | inr (inr (inl e)) ↦ absurd (cc (step_unknown p a (b ∷ rest) e, h))
  | inr (inr (inr e)) ↦ Splits-operation p a q (b ∷ rest) e h
]

-- If a command line parses and names an op, it is some words, the op, which does not begin with a
-- dash, and the op's argv as it stands; and with any other words behind the op it parses to the
-- same but for the argv.
parse-Splits :
    (q : Parsed) (args : List Str)
    → parse args ≡ ok q
    → q.have_op ≡ true
    → Splits zero_parsed q args
unfolding parse
parse-Splits q args h o = parse_from-Splits zero_parsed q args refl h o
