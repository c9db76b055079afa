-- ===== src/Ontology/Quoting.antt =====
-- `quoteIdent` (internal/ontology/link_plan.go), and how SQL reads a quoted identifier.

use Prim.Native.String.append
use Prim.Native.Char.{Char, code}
use text.Mathlib.TextLemmas.{append_assoc}
use baxi.Base.{
  ◌≡◌, refl, ◌∙◌, ap, inl, inr, Bool, true, false, Option, none, some, String, str_append,
  if◌then◌else◌, nat_eq, Bool-cases,
}

abbrev pub is_quote : Char → Bool
is_quote c = nat_eq (code c) 34

-- `strings.ReplaceAll(name, "\"", "\"\"")`.
unfoldable pub double_quotes : String → String
double_quotes String.[] = String.[]
double_quotes (String.◌∷◌ c s) =
    let rest = double_quotes s in
    if is_quote c then String.◌∷◌ c (String.◌∷◌ c rest) else String.◌∷◌ c rest

-- `quoteIdent`.
unfoldable pub quote_ident : String → String
unfolding double_quotes
quote_ident name = str_append "\"" (str_append (double_quotes name) "\"")

abbrev add_char : Char → Option (String × String) → Option (String × String)
add_char c none = none
add_char c (some (name, rest)) = some (String.◌∷◌ c name, rest)

-- How SQL reads on in a quoted identifier, where the flag says that a quote has just been read: a
-- second one stands for a quote of the name, and else the identifier has ended. The answer has the name
-- and the text after it.
abbrev pub read_on : Bool → String → Option (String × String)
read_on false String.[] = none
read_on true String.[] = some (String.[], String.[])
read_on false (String.◌∷◌ c s) =
    let closing = read_on true s in
    let more = add_char c (read_on false s) in if is_quote c then closing else more
read_on true (String.◌∷◌ c s) =
    let more = add_char c (read_on false s) in
    if is_quote c then more else some (String.[], String.◌∷◌ c s)

abbrev pub read_ident : String → Option (String × String)
read_ident String.[] = none
read_ident (String.◌∷◌ c s) = if is_quote c then read_on false s else none

abbrev pub begins_with_quote : String → Bool
begins_with_quote String.[] = false
begins_with_quote (String.◌∷◌ c s) = is_quote c

ends : (rest : String) → begins_with_quote rest ≡ false → read_on true rest ≡ some (String.[], rest)
ends String.[] apart = refl
ends (String.◌∷◌ c s) apart = rw apart refl

doubled :
    (s rest : String)
    → begins_with_quote rest ≡ false
    → read_on false (str_append (double_quotes s) (String.◌∷◌ "\"" rest)) ≡ some (s, rest)
unfolding double_quotes
doubled String.[] rest apart =
    ap (read_on false) (append.nil (String.◌∷◌ "\"" rest)) ∙ ends rest apart
doubled (String.◌∷◌ c s) rest apart = elim (Bool-cases (is_quote c)) [
  | inl quote ↦
      rw (quote, double_quotes)
        (ap (read_on false) (append.cons c (String.◌∷◌ c (double_quotes s)) (String.◌∷◌ "\"" rest))
          ∙ (ap (λ t. read_on false (String.◌∷◌ c t))
                (append.cons c (double_quotes s) (String.◌∷◌ "\"" rest))
              ∙ rw (quote, doubled s rest apart) refl))
  | inr other ↦
      rw (other, double_quotes)
        (ap (read_on false) (append.cons c (double_quotes s) (String.◌∷◌ "\"" rest))
          ∙ rw (other, doubled s rest apart) refl)
]

quote_char : (t : String) → str_append "\"" t ≡ String.◌∷◌ "\"" t
quote_char t = append.cons "\"" String.[] t ∙ ap (λ u. String.◌∷◌ "\"" u) (append.nil t)

quoted :
    (name rest : String)
    → str_append (str_append "\"" (str_append (double_quotes name) "\"")) rest
      ≡ String.◌∷◌ "\"" (str_append (double_quotes name) (String.◌∷◌ "\"" rest))
quoted name rest =
    append_assoc "\"" (str_append (double_quotes name) "\"") rest
    ∙ (ap (str_append "\"") (append_assoc (double_quotes name) "\"" rest)
        ∙ (quote_char (str_append (double_quotes name) (str_append "\"" rest))
            ∙ ap (λ t. String.◌∷◌ "\"" (str_append (double_quotes name) t)) (quote_char rest)))

-- SQL reads a quoted name back as that name and goes on right after it, whatever quotes the name has,
-- if the text after it does not begin with a quote.
pub read_ident-quote_ident :
    (name rest : String)
    → begins_with_quote rest ≡ false
    → read_ident (str_append (quote_ident name) rest) ≡ some (name, rest)
unfolding quote_ident
read_ident-quote_ident name rest apart = ap read_ident (quoted name rest) ∙ doubled name rest apart
