-- ===== src/Expr/Soundness/Tokens.antt =====
-- The tokenizer always ends: each step consumes a character.
use agentsimjs.Prelude.{
  ℕ, zero, suc, ◌+◌, ◌≤◌, ◌≡◌, ◌≢◌, Bool, true, not, ◌&&◌, ◌||◌, List, [], ◌∷◌, Result, ok, err,
  ltb, ◌==◌, length, arith, if_cases, subst,
}
use agentsimjs.Expr.Syntax.{
  Text, Numbers, ExprError, out_of_fuel, max_identifier_length, max_string_length, Sym, Token,
}
use agentsimjs.Expr.Lexer.{
  span, fraction, signed_digits, exponent, number_text, name_text, head_is, is_digit, is_space,
  starts_name, in_name, escapes, one_char, two_chars, fail, Scan, blank, token, stuck, scan_number,
  scan_string_rest, scan_string, scan_name, scan_one, scan_symbol, scan, cons_token, tokenize_from,
  tokenize,
}
use agentsimjs.Expr.Soundness.{IsSource}

-- What is left of a text of which a part is taken.
abbrev Within : ℕ → Text × Text → Type 0
Within n r = length r.1 ≤ n

span-Within : (p : ℕ → Bool) (cs : Text) → Within (length cs) (span p cs)
unfolding span
span-Within p [] = omega arith
span-Within p (c ∷ cs) =
    if_cases (Within (suc (length cs))) (p c) (λ _. let h = span-Within p cs in omega arith)
      (λ _. omega arith)

fraction-Within : (cs : Text) → Within (length cs) (fraction cs)
unfolding fraction
fraction-Within [] = omega arith
fraction-Within (c ∷ cs) =
    if_cases (Within (suc (length cs))) (c == b'.' && head_is is_digit cs)
      (λ _. let h = span-Within is_digit cs in omega arith) (λ _. omega arith)

signed_digits-Within : (cs : Text) → Within (length cs) (signed_digits cs)
unfolding signed_digits
signed_digits-Within [] = omega arith
signed_digits-Within (c ∷ cs) =
    if_cases (Within (suc (length cs))) ((c == b'+' || c == b'-') && head_is is_digit cs)
      (λ _. let h = span-Within is_digit cs in omega arith) (λ _. span-Within is_digit (c ∷ cs))

exponent-Within : (cs : Text) → Within (length cs) (exponent cs)
unfolding exponent
exponent-Within [] = omega arith
exponent-Within (c ∷ cs) =
    if_cases (Within (suc (length cs)))
      ((c == b'e' || c == b'E') && ltb 0 (length (signed_digits cs).0))
      (λ _. let h = signed_digits-Within cs in omega arith) (λ _. omega arith)

number_text-Within :
    (c : ℕ) (cs : Text) → is_digit c ≡ true → Within (length cs) (number_text (c ∷ cs))
unfolding number_text span
number_text-Within c cs d =
    let h = span-Within is_digit cs in
    let h' = fraction-Within (span is_digit cs).1 in
    let h'' = exponent-Within (fraction (span is_digit cs).1).1 in rw d (omega arith)

name_text-Within : (cs : Text) → Within (length cs) (name_text cs)
unfolding name_text
name_text-Within [] = omega arith
name_text-Within (c ∷ cs) =
    if_cases (Within (suc (length cs))) (in_name c || c == b'.' && head_is starts_name cs)
      (λ _. let h = name_text-Within cs in omega arith) (λ _. omega arith)

module _ (N : Numbers) where
  open N use {F, parse_number, is_finite, in_range}

  -- A token leaves at most `n` characters; an error is one of the source.
  abbrev pub Scans : ℕ → Scan F → Type 0
  Scans n blank = Unit {0}
  Scans n (token t k rest) = length rest ≤ n
  Scans n (stuck e) = e ≢ out_of_fuel

  scan_number-Scans :
      (i c : ℕ) (cs : Text) → is_digit c ≡ true → Scans (length cs) (scan_number N i (c ∷ cs))
  unfolding scan_number
  scan_number-Scans i c cs d =
      if_cases (Scans (length cs))
        (is_finite (parse_number (number_text (c ∷ cs)).0)
          && in_range (parse_number (number_text (c ∷ cs)).0))
        (λ _. number_text-Within c cs d) (λ _. λ e. cc)

  scan_string_rest-Scans :
      (i : ℕ) (v rest : Text) → Scans (length rest) (scan_string_rest N i v rest)
  unfolding scan_string_rest
  scan_string_rest-Scans i v [] = λ e. cc
  scan_string_rest-Scans i v (quote ∷ rest) =
      if_cases (Scans (suc (length rest))) (ltb max_string_length (length v)) (λ _. λ e. cc)
        (λ _. if_cases (Scans (suc (length rest))) (escapes v) (λ _. λ e. cc) (λ _. omega arith))

  one_char-Scans : (i : ℕ) (l : List Sym) (cs : Text) → Scans (length cs) (scan_one N i l cs)
  unfolding scan_one
  one_char-Scans i [] cs = λ e. cc
  one_char-Scans i (s ∷ _) cs = omega arith

  scan_symbol-Scans :
      (i c : ℕ) (l : List Sym) (cs : Text) → Scans (length cs) (scan_symbol N i c l cs)
  unfolding scan_symbol
  scan_symbol-Scans i c [] cs = one_char-Scans i (one_char c) cs
  scan_symbol-Scans i c (s ∷ _) [] = λ e. cc
  scan_symbol-Scans i c (s ∷ _) (d ∷ cs) = omega arith

  scan_name-Scans : (i c : ℕ) (cs : Text) → Scans (length cs) (scan_name N i c cs)
  unfolding scan_name
  scan_name-Scans i c cs =
      if_cases (Scans (length cs)) (ltb max_identifier_length (length (c ∷ (name_text cs).0)))
        (λ _. λ e. cc) (λ _. name_text-Within cs)

  scan_string-Scans : (i : ℕ) (cs : Text) → Scans (length cs) (scan_string N i cs)
  unfolding scan_string
  scan_string-Scans i cs =
      let quoted = span (λ c. not (c == b'"')) cs in
      Scans-mono (length quoted.1) (length cs) (scan_string_rest N i quoted.0 quoted.1)
        (span-Within (λ c. not (c == b'"')) cs) (scan_string_rest-Scans i quoted.0 quoted.1)
    where
      Scans-mono : (n m : ℕ) (r : Scan F) → n ≤ m → Scans n r → Scans m r
      Scans-mono n m blank l h = tt
      Scans-mono n m (token t k rest) l h = omega arith
      Scans-mono n m (stuck e) l h = h

  scan-Scans : (i c : ℕ) (cs : Text) → Scans (length cs) (scan N i c cs)
  unfolding scan
  scan-Scans i c cs =
      if_cases P (is_space c) (λ _. tt)
        (λ _.
          if_cases P (ltb 126 c || ltb c 32) (λ _. λ e. cc)
            (λ _.
              if_cases P (is_digit c) (λ d. scan_number-Scans i c cs d)
                (λ _.
                  if_cases P (c == b'"') (λ _. scan_string-Scans i cs)
                    (λ _.
                      if_cases P (starts_name c) (λ _. scan_name-Scans i c cs)
                        (λ _. scan_symbol-Scans i c (two_chars c cs) cs)))))
    where
      P : Scan F → Type 0
      P = Scans (length cs)

  abbrev Ends : Result ExprError (List (Token F)) → Type 0
  Ends (ok ts) = Unit {0}
  Ends (err e) = IsSource e

  cons_token-Ends :
      (t : Token F) (r : Result ExprError (List (Token F))) → Ends r → Ends (cons_token N t r)
  cons_token-Ends t (ok ts) h = tt
  cons_token-Ends t (err e) h = h

  tokenize_from-Ends :
      (fuel i : ℕ) (cs : Text) → length cs ≤ fuel → Ends (tokenize_from N fuel i cs)
  unfolding tokenize_from
  tokenize_from-Ends fuel i [] h = tt
  tokenize_from-Ends zero i (c ∷ cs) h = absurd (omega arith)
  tokenize_from-Ends (suc fuel) i (c ∷ cs) h =
      go (scan N i c cs) (scan-Scans i c cs)
        (λ j rest l. tokenize_from-Ends fuel j rest (omega arith))
    where
      go :
          (r : Scan F)
          → Scans (length cs) r
          → ((j : ℕ) (rest : Text) → length rest ≤ length cs → Ends (tokenize_from N fuel j rest))
          → Ends (elim r [
            | blank ↦ tokenize_from N fuel (i + 1) cs
            | token t n rest ↦ cons_token N t (tokenize_from N fuel (i + n) rest)
            | stuck e ↦ fail e i
          ])
      go blank l later = later (i + 1) cs (omega arith)
      go (token t n rest) l later =
          cons_token-Ends t (tokenize_from N fuel (i + n) rest) (later (i + n) rest l)
      go (stuck e) l later = l

  pub tokenize-IsSource : (src : Text) (e : ExprError) → tokenize N src ≡ err e → IsSource e
  unfolding tokenize
  tokenize-IsSource src e h = subst Ends h (tokenize_from-Ends (length src) 0 src (omega arith))
