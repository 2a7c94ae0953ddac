-- ===== src/Sql/Tokeniser/Spells.antt =====
-- Which texts spell a list of tokens, whatever the spaces between them, and that the tokeniser reads the
-- tokens off such a text.
use golang_db.Base.{
  ℕ, ◌≡◌, refl, sym, ap, append-nil, Bool, true, false, List, [], ◌∷◌, ◌++◌, All, arith,
}
use golang_db.Base.Bytes.{Bytes}
use golang_db.Sql.Tokeniser.{
  TokenType, Token, contains_rune, is_space, is_digit, is_letter, is_alphanumeric, is_symbol,
  is_operator, is_keyword, take_while, drop_while, word_token, token_at, next_token,
}

abbrev pub Passes : (ℕ → Bool) → Bytes → Type 0
Passes test s = All (λ (c : ℕ). test c ≡ true) s

-- The text does not go on with a rune of the class.
abbrev pub Stops : (ℕ → Bool) → Bytes → Type 0
Stops test [] = Unit {0}
Stops test (c ∷ s) = test c ≡ false

-- A non-empty run of the class.
abbrev pub IsRun : (ℕ → Bool) → Bytes → Type 0
IsRun test s = (c : ℕ) × (rest : Bytes) × (s ≡ c ∷ rest) × (test c ≡ true) × Passes test rest

-- The text of the token, with `rest` behind it.
abbrev pub IsToken : TokenType → Bytes → Bytes → Type 0
IsToken TokenType.symbol value rest = (c : ℕ) × (value ≡ c ∷ []) × (is_symbol c ≡ true)
IsToken TokenType.conditional_operator value rest = IsRun is_operator value × Stops is_operator rest
IsToken TokenType.identifier value rest =
    IsRun is_alphanumeric value × (is_keyword value ≡ false) × Stops is_alphanumeric rest
IsToken TokenType.keyword value rest =
    IsRun is_alphanumeric value × (is_keyword value ≡ true) × Stops is_alphanumeric rest
IsToken TokenType.eof value rest = ⊥

abbrev pub Spells : List Token → Bytes → Type 0
Spells [] text = Passes is_space text
Spells (t ∷ ts) text =
    (gap rest : Bytes) × (text ≡ gap ++ (t.value ++ rest))
    × Passes is_space gap
    × IsToken t.token_type t.value rest
    × Spells ts rest

module _ (test : ℕ → Bool) where
  pub take_while-append :
      (s rest : Bytes) → Passes test s → Stops test rest → take_while test (s ++ rest) ≡ s
  unfolding take_while
  take_while-append [] [] h stop = refl
  take_while-append [] (c ∷ rest) h stop = rw stop refl
  take_while-append (c ∷ s) rest h stop =
      rw (h.0) (ap (λ (l : Bytes). c ∷ l) (take_while-append s rest h.1 stop))

  pub drop_while-append :
      (s rest : Bytes) → Passes test s → Stops test rest → drop_while test (s ++ rest) ≡ rest
  unfolding drop_while
  drop_while-append [] [] h stop = refl
  drop_while-append [] (c ∷ rest) h stop = rw stop refl
  drop_while-append (c ∷ s) rest h stop = rw (h.0) (drop_while-append s rest h.1 stop)

alphanumeric-space : (c : ℕ) → is_alphanumeric c ≡ true → is_space c ≡ false
unfolding is_alphanumeric is_digit is_letter is_space
alphanumeric-space c h = ground arith

alphanumeric-symbol : (c : ℕ) → is_alphanumeric c ≡ true → is_symbol c ≡ false
unfolding is_alphanumeric is_digit is_letter contains_rune
alphanumeric-symbol c h = ground arith

alphanumeric-operator : (c : ℕ) → is_alphanumeric c ≡ true → is_operator c ≡ false
unfolding is_alphanumeric is_digit is_letter contains_rune
alphanumeric-operator c h = ground arith

symbol-space : (c : ℕ) → is_symbol c ≡ true → is_space c ≡ false
unfolding is_space contains_rune
symbol-space c h = ground arith

operator-space : (c : ℕ) → is_operator c ≡ true → is_space c ≡ false
unfolding is_space contains_rune
operator-space c h = ground arith

operator-symbol : (c : ℕ) → is_operator c ≡ true → is_symbol c ≡ false
unfolding contains_rune
operator-symbol c h = ground arith

-- A token starts with a rune that is no space, and is read off the front.
token_at-IsToken :
    (tt : TokenType) (value rest : Bytes)
    → IsToken tt value rest
    → token_at (value ++ rest) ≡ (record { token_type = tt; value = value }, rest)
unfolding token_at word_token
token_at-IsToken TokenType.symbol value rest (c, e, h) = rw (e, h) refl
token_at-IsToken TokenType.conditional_operator value rest ((c, s, e, h, run), stop) =
    let all : Passes is_operator (c ∷ s) = (h, run) in
    rw
      (
        e,
        operator-symbol c h,
        h,
        take_while-append is_operator (c ∷ s) rest all stop,
        drop_while-append is_operator (c ∷ s) rest all stop,
      )
      refl
token_at-IsToken TokenType.identifier value rest ((c, s, e, h, run), word, stop) =
    let all : Passes is_alphanumeric (c ∷ s) = (h, run) in
    let word' : is_keyword (c ∷ s) ≡ false = rw e at word in
    rw
      (
        e,
        alphanumeric-symbol c h,
        alphanumeric-operator c h,
        take_while-append is_alphanumeric (c ∷ s) rest all stop,
        drop_while-append is_alphanumeric (c ∷ s) rest all stop,
        word',
      )
      refl
token_at-IsToken TokenType.keyword value rest ((c, s, e, h, run), word, stop) =
    let all : Passes is_alphanumeric (c ∷ s) = (h, run) in
    let word' : is_keyword (c ∷ s) ≡ true = rw e at word in
    rw
      (
        e,
        alphanumeric-symbol c h,
        alphanumeric-operator c h,
        take_while-append is_alphanumeric (c ∷ s) rest all stop,
        drop_while-append is_alphanumeric (c ∷ s) rest all stop,
        word',
      )
      refl
token_at-IsToken TokenType.eof value rest h = elim h [ ]

IsToken-Stops :
    (tt : TokenType) (value rest more : Bytes)
    → IsToken tt value rest
    → Stops is_space (value ++ more)
IsToken-Stops TokenType.symbol value rest more (c, e, h) = rw e (symbol-space c h)
IsToken-Stops TokenType.conditional_operator value rest more ((c, s, e, h, run), stop) =
    rw e (operator-space c h)
IsToken-Stops TokenType.identifier value rest more ((c, s, e, h, run), word, stop) =
    rw e (alphanumeric-space c h)
IsToken-Stops TokenType.keyword value rest more ((c, s, e, h, run), word, stop) =
    rw e (alphanumeric-space c h)
IsToken-Stops TokenType.eof value rest more h = elim h [ ]

-- The next token of a text is the first of those that it spells.
pub next_token-Spells :
    (t : Token) (ts : List Token) (text : Bytes)
    → Spells (t ∷ ts) text
    → (rest : Bytes) × (next_token text ≡ (t, rest))
      × IsToken t.token_type t.value rest
      × Spells ts rest
unfolding next_token
next_token-Spells t ts text (gap, rest, e, spaces, token, more) = (
  rest,
  rw
      (
        e,
        drop_while-append is_space gap (t.value ++ rest) spaces
            (IsToken-Stops t.token_type t.value rest rest token),
        token_at-IsToken t.token_type t.value rest token,
      )
      refl,
  token,
  more,
)

-- Behind the last token there is only the end.
pub next_token-end :
    (text : Bytes)
    → Passes is_space text
    → next_token text ≡ (record { token_type = TokenType.eof; value = [] }, [])
unfolding next_token token_at
next_token-end text spaces =
    let e : drop_while is_space text ≡ [] =
      rw (sym (append-nil text)) (drop_while-append is_space text [] spaces tt) in
    rw e refl
