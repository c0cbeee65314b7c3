-- ===== src/Expr/Lexer.antt =====
-- `tokenize` of expr.ts. The regular expressions for numbers and names are written out as greedy
-- spans of code units.
use agentsimjs.Prelude.{
  ℕ, zero, suc, ◌+◌, Bool, false, not, ◌&&◌, ◌||◌, List, [], ◌∷◌, ◌++◌, Result, ok, err, ltb, leb,
  ◌==◌, length, if◌then◌else◌,
}
use agentsimjs.Expr.Syntax.{
  Text, Numbers, ExprError, ErrorCode, bad_char, syntax, number_out_of_range, identifier_too_long,
  string_too_long, max_identifier_length, max_string_length, Sym, binary, open_paren, close_paren,
  lt_op, le_op, gt_op, ge_op, eq_op, ne_op, plus, minus, times, divide, Token, num, str, id, op,
  end,
}

pub is_digit : ℕ → Bool
is_digit c = leb b'0' c && leb c b'9'

pub starts_name : ℕ → Bool
starts_name c = leb b'A' c && leb c b'Z' || leb b'a' c && leb c b'z' || c == b'_'

pub in_name : ℕ → Bool
unfolding is_digit starts_name
in_name c = starts_name c || is_digit c

pub head_is : (ℕ → Bool) → Text → Bool
head_is p [] = false
head_is p (c ∷ cs) = p c

unfoldable pub span : (ℕ → Bool) → Text → Text × Text
span p [] = ([], [])
span p (c ∷ cs) = let (taken, rest) = span p cs in if p c then (c ∷ taken, rest) else ([], c ∷ cs)

-- `(\.\d+)?`
unfoldable pub fraction : Text → Text × Text
unfolding span head_is is_digit
fraction [] = ([], [])
fraction (c ∷ cs) =
    let (ds, rest) = span is_digit cs in
    if c == b'.' && head_is is_digit cs then (c ∷ ds, rest) else ([], c ∷ cs)

-- `[+-]?\d+`
unfoldable pub signed_digits : Text → Text × Text
unfolding span head_is is_digit
signed_digits [] = ([], [])
signed_digits (c ∷ cs) =
    let (ds, rest) = span is_digit cs in
    if (c == b'+' || c == b'-') && head_is is_digit cs
    then (c ∷ ds, rest)
    else span is_digit (c ∷ cs)

-- `([eE][+-]?\d+)?`
unfoldable pub exponent : Text → Text × Text
unfolding signed_digits
exponent [] = ([], [])
exponent (c ∷ cs) =
    let (ds, rest) = signed_digits cs in
    if (c == b'e' || c == b'E') && ltb 0 (length ds) then (c ∷ ds, rest) else ([], c ∷ cs)

-- `/^\d+(\.\d+)?([eE][+-]?\d+)?/`
unfoldable pub number_text : Text → Text × Text
unfolding span fraction exponent is_digit
number_text cs =
    let (whole, r) = span is_digit cs in
    let (frac, r') = fraction r in let (ex, r'') = exponent r' in (whole ++ (frac ++ ex), r'')

-- `[A-Za-z0-9_]*(\.[A-Za-z_][A-Za-z0-9_]*)*`, after the first character: a dot belongs to the name
-- when a name can start behind it.
unfoldable pub name_text : Text → Text × Text
unfolding in_name head_is
name_text [] = ([], [])
name_text (c ∷ cs) =
    let (taken, rest) = name_text cs in
    if in_name c || c == b'.' && head_is starts_name cs then (c ∷ taken, rest) else ([], c ∷ cs)

pub is_space : ℕ → Bool
is_space c = c == 32 || c == 9 || c == 10 || c == 13

-- a backslash, a backtick or a dollar sign
pub escapes : Text → Bool
escapes [] = false
escapes (c ∷ cs) = c == 92 || c == 96 || c == 36 || escapes cs

pub one_char : ℕ → List Sym
one_char c =
    if c == b'<'
    then binary lt_op ∷ []
    else if c == b'>'
    then binary gt_op ∷ []
    else if c == b'+'
    then binary plus ∷ []
    else if c == b'-'
    then binary minus ∷ []
    else if c == b'*'
    then binary times ∷ []
    else if c == b'/'
    then binary divide ∷ []
    else if c == b'('
    then open_paren ∷ []
    else if c == b')'
    then close_paren ∷ []
    else []

pub two_chars : ℕ → Text → List Sym
two_chars c [] = []
two_chars c (d ∷ cs) =
    if not (d == b'=')
    then []
    else if c == b'<'
    then binary le_op ∷ []
    else if c == b'>'
    then binary ge_op ∷ []
    else if c == b'='
    then binary eq_op ∷ []
    else if c == b'!'
    then binary ne_op ∷ []
    else []

abbrev pub fail : {A : Type 0} → ErrorCode → ℕ → Result ExprError A
fail c at = err (record { error_code = c; position = at })

-- One step of the scan: a white space, or a token, with what is left and how far it moved.
pub data Scan (F : Type 0) : Type 0 where
  blank : Scan F
  token : Token F → ℕ → Text → Scan F
  stuck : ErrorCode → Scan F

module _ (N : Numbers) where
  open N use {F, parse_number, is_finite, in_range}

  unfoldable pub scan_number : ℕ → Text → Scan F
  unfolding number_text
  scan_number i cs =
      let (text, rest) = number_text cs in
      let v = parse_number text in
      if is_finite v && in_range v
      then token (num v i) (length text) rest
      else stuck number_out_of_range

  unfoldable pub scan_string_rest : ℕ → Text → Text → Scan F
  unfolding escapes
  scan_string_rest i v [] = stuck syntax
  scan_string_rest i v (quote ∷ rest) =
      if ltb max_string_length (length v)
      then stuck string_too_long
      else if escapes v
      then stuck bad_char
      else token (str v i) (length v + 2) rest

  unfoldable pub scan_string : ℕ → Text → Scan F
  unfolding span scan_string_rest
  scan_string i cs = let (v, rest) = span (λ c. not (c == b'"')) cs in scan_string_rest i v rest

  unfoldable pub scan_name : ℕ → ℕ → Text → Scan F
  unfolding name_text
  scan_name i c cs =
      let (more, rest) = name_text cs in
      if ltb max_identifier_length (length (c ∷ more))
      then stuck identifier_too_long
      else token (id (c ∷ more) i) (length (c ∷ more)) rest

  unfoldable pub scan_one : ℕ → List Sym → Text → Scan F
  scan_one i [] cs = stuck bad_char
  scan_one i (s ∷ _) cs = token (op s i) 1 cs

  unfoldable pub scan_symbol : ℕ → ℕ → List Sym → Text → Scan F
  unfolding scan_one one_char
  scan_symbol i c [] cs = scan_one i (one_char c) cs
  scan_symbol i c (s ∷ _) [] = stuck bad_char
  scan_symbol i c (s ∷ _) (d ∷ cs) = token (op s i) 2 cs

  -- The body of the loop at position `i`, on the character `c` and what follows it.
  unfoldable pub scan : ℕ → ℕ → Text → Scan F
  unfolding scan_number scan_string scan_name scan_symbol two_chars is_space is_digit starts_name
  scan i c cs =
      if is_space c
      then blank
      else if ltb 126 c || ltb c 32
      then stuck bad_char
      else if is_digit c
      then scan_number i (c ∷ cs)
      else if c == b'"'
      then scan_string i cs
      else if starts_name c
      then scan_name i c cs
      else scan_symbol i c (two_chars c cs) cs

  abbrev pub cons_token :
      Token F → Result ExprError (List (Token F)) → Result ExprError (List (Token F))
  cons_token t (ok ts) = ok (t ∷ ts)
  cons_token t (err e) = err e

  -- The loop, on fuel: each step consumes a character, so the length of the text suffices.
  unfoldable pub tokenize_from : ℕ → ℕ → Text → Result ExprError (List (Token F))
  unfolding scan
  tokenize_from fuel i [] = ok (end i ∷ [])
  tokenize_from zero i (c ∷ cs) = fail ErrorCode.out_of_fuel i
  tokenize_from (suc fuel) i (c ∷ cs) = elim (scan i c cs) [
    | blank ↦ tokenize_from fuel (i + 1) cs
    | token t n rest ↦ cons_token t (tokenize_from fuel (i + n) rest)
    | stuck e ↦ fail e i
  ]

  unfoldable pub tokenize : Text → Result ExprError (List (Token F))
  unfolding tokenize_from
  tokenize src = tokenize_from (length src) 0 src
