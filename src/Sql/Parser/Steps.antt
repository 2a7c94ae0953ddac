-- ===== src/Sql/Parser/Steps.antt =====
-- A parser that stands at a list of tokens, and what `consume` does there.
use golang_db.Base.{ℕ, ◌≡◌, refl, ap, ◌∙◌, Bool, true, false, List, [], ◌∷◌, ok, arith}
use golang_db.Base.Bytes.{Bytes, cmp, cmp_refl, str_eq, str_eq-ne}
use golang_db.Base.Text.{codes}
use golang_db.Sql.Tokeniser.{
  TokenType, Token, is_alphanumeric, is_digit, is_letter, is_keyword, same_type,
}
use golang_db.Sql.Tokeniser.Spells.{IsToken, Spells, next_token-Spells, next_token-end}
use golang_db.Sql.Parser.{Parser, advance, accepts, consume, skip_comma, value_is}

-- The first of the tokens is read, and the text spells the others.
abbrev pub At : List Token → Parser → Type 0
At [] p = p.current_token ≡ record { token_type = TokenType.eof; value = [] }
At (t ∷ ts) p =
    (p.current_token ≡ t) × IsToken t.token_type t.value p.tokeniser × Spells ts p.tokeniser

pub advance-At : (ts : List Token) (text : Bytes) → Spells ts text → At ts (advance text)
unfolding advance
advance-At [] text h = rw (next_token-end text h) refl
advance-At (t ∷ ts) text h =
    let (rest, e, token, more) = next_token-Spells t ts text h in rw e (refl, token, more)

-- A token that is asked for is taken.
pub consume-At :
    (t : Token) (ts : List Token) (p : Parser) (tt : TokenType) (expected identifier_type : Bytes)
    → At (t ∷ ts) p
    → accepts t tt expected ≡ true
    → (p' : Parser) × (consume p tt expected identifier_type ≡ ok p')
      × (p.current_token ≡ t)
      × At ts p'
unfolding consume
consume-At t ts p tt expected identifier_type (e, token, more) h =
    (advance p.tokeniser, rw (e, h) refl, e, advance-At ts p.tokeniser more)

abbrev pub symbol_token : Bytes → Token
symbol_token s = record { token_type = TokenType.symbol; value = s }

abbrev pub keyword_token : Bytes → Token
keyword_token s = record { token_type = TokenType.keyword; value = s }

abbrev pub identifier_token : Bytes → Token
identifier_token s = record { token_type = TokenType.identifier; value = s }

abbrev pub operator_token : Bytes → Token
operator_token s = record { token_type = TokenType.conditional_operator; value = s }

keyword_accepted : (w : Bytes) → accepts (keyword_token w) TokenType.keyword w ≡ true
unfolding accepts same_type cmp
keyword_accepted w = ground (arith, cmp_refl w)

pub keyword-At :
    (w : Bytes) (ts : List Token) (p : Parser)
    → At (keyword_token w ∷ ts) p
    → (p' : Parser) × (consume p TokenType.keyword w [] ≡ ok p') × At ts p'
keyword-At w ts p h =
    let (p', e, current, there) =
      consume-At (keyword_token w) ts p TokenType.keyword w [] h (keyword_accepted w) in
    (p', e, there)

symbol_accepted : (w : Bytes) → accepts (symbol_token w) TokenType.symbol w ≡ true
unfolding accepts same_type cmp
symbol_accepted w = ground (arith, cmp_refl w)

pub symbol-At :
    (w : Bytes) (ts : List Token) (p : Parser)
    → At (symbol_token w ∷ ts) p
    → (p' : Parser) × (consume p TokenType.symbol w [] ≡ ok p') × At ts p'
symbol-At w ts p h =
    let (p', e, current, there) =
      consume-At (symbol_token w) ts p TokenType.symbol w [] h (symbol_accepted w) in
    (p', e, there)

identifier_accepted : (w : Bytes) → accepts (identifier_token w) TokenType.identifier [] ≡ true
unfolding accepts same_type cmp
identifier_accepted w = ground (arith, cmp_refl w)

pub identifier-At :
    (w : Bytes) (identifier_type : Bytes) (ts : List Token) (p : Parser)
    → At (identifier_token w ∷ ts) p
    → (p' : Parser) × (consume p TokenType.identifier [] identifier_type ≡ ok p')
      × (p.current_token.value ≡ w)
      × At ts p'
identifier-At w identifier_type ts p h =
    let (p', e, current, there) =
      consume-At (identifier_token w) ts p TokenType.identifier [] identifier_type h
        (identifier_accepted w) in
    (p', e, ap (λ (t : Token). t.value) current, there)

operator_accepted :
    (w : Bytes) → accepts (operator_token w) TokenType.conditional_operator [] ≡ true
unfolding accepts same_type cmp
operator_accepted w = ground (arith, cmp_refl w)

pub operator-At :
    (w : Bytes) (ts : List Token) (p : Parser)
    → At (operator_token w ∷ ts) p
    → (p' : Parser) × (consume p TokenType.conditional_operator [] [] ≡ ok p')
      × (p.current_token.value ≡ w)
      × At ts p'
operator-At w ts p h =
    let (p', e, current, there) =
      consume-At (operator_token w) ts p TokenType.conditional_operator [] [] h
        (operator_accepted w) in
    (p', e, ap (λ (t : Token). t.value) current, there)

-- A text that the value of an identifier cannot be.
pub identifier-keyword :
    (v rest w : Bytes)
    → IsToken TokenType.identifier v rest
    → is_keyword w ≡ true
    → str_eq v w ≡ false
identifier-keyword v rest w (run, word, stop) h = str_eq-ne v w (λ e. cc)

pub identifier-rune :
    (v rest : Bytes) (c : ℕ)
    → IsToken TokenType.identifier v rest
    → is_alphanumeric c ≡ false
    → str_eq v (c ∷ []) ≡ false
identifier-rune v rest c ((d, s, e, h, run), word, stop) k = str_eq-ne v (c ∷ []) (λ e'. cc)

pub identifier-nonempty :
    (v rest : Bytes) → IsToken TokenType.identifier v rest → str_eq v [] ≡ false
identifier-nonempty v rest ((d, s, e, h, run), word, stop) = str_eq-ne v [] (λ e'. cc)

-- The test of the current value, where the parser stands at a token.
pub value_is-At :
    (t : Token) (ts : List Token) (p : Parser) (text : Bytes) (b : Bool)
    → At (t ∷ ts) p
    → str_eq t.value text ≡ b
    → value_is p text ≡ b
value_is-At t ts p text b (e, token, more) h = ap (λ (t' : Token). str_eq t'.value text) e ∙ h

skip_comma_lem :
    (p p' : Parser)
    → value_is p (codes ",") ≡ true
    → consume p TokenType.symbol (codes ",") [] ≡ ok p'
    → skip_comma p ≡ p'
unfolding skip_comma
skip_comma_lem p p' h e = rw (h, e) refl

-- A comma is skipped, and an identifier is not.
pub skip_comma-At :
    (ts : List Token) (p : Parser) → At (symbol_token (codes ",") ∷ ts) p → At ts (skip_comma p)
unfolding cmp
skip_comma-At ts p h =
    let (p', e, there) = symbol-At (codes ",") ts p h in
    let comma = value_is-At (symbol_token (codes ",")) ts p (codes ",") true h refl in
    rw (skip_comma_lem p p' comma e) there

pub skip_comma-identifier :
    (v : Bytes) (ts : List Token) (p : Parser) → At (identifier_token v ∷ ts) p → skip_comma p ≡ p
unfolding skip_comma is_alphanumeric is_digit is_letter
skip_comma-identifier v ts p h =
    let other =
      value_is-At (identifier_token v) ts p (codes ",") false h
        (identifier-rune v p.tokeniser 44 (h.1) refl) in
    rw other refl
