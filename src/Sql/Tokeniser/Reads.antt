-- ===== src/Sql/Tokeniser/Reads.antt =====
-- The texts that spell a list of tokens are those off which the tokeniser reads them.
use mathlib.Core.Path.{subst}
use golang_db.Base.{
  ℕ, ◌≡◌, ◌↔◌, refl, sym, ap, ◌∙◌, inl, inr, Bool, true, not, ◌&&◌, zero, suc, length, Bool-cases,
  List, [], ◌∷◌, ◌++◌, append-nil, arith,
}
use golang_db.Base.Bytes.{Bytes, cmp, str_eq}
use golang_db.Sql.Tokeniser.{
  TokenType, Token, is_space, is_alphanumeric, is_symbol, is_operator, is_keyword, take_while,
  drop_while, word_token, token_at, next_token,
}
use golang_db.Sql.Tokeniser.Spells.{
  Passes, Stops, IsRun, IsToken, Spells, next_token-Spells, next_token-end,
}

module _ (test : ℕ → Bool) where
  take_while-append-drop_while : (s : Bytes) → take_while test s ++ drop_while test s ≡ s
  unfolding take_while drop_while
  take_while-append-drop_while [] = refl
  take_while-append-drop_while (c ∷ s) = elim (Bool-cases (test c)) [
    | inl e ↦ rw e (ap (λ (l : Bytes). c ∷ l) (take_while-append-drop_while s))
    | inr e ↦ rw e refl
  ]

  take_while-Passes : (s : Bytes) → Passes test (take_while test s)
  unfolding take_while
  take_while-Passes [] = tt
  take_while-Passes (c ∷ s) = elim (Bool-cases (test c)) [
    | inl e ↦ rw e (e, take_while-Passes s)
    | inr e ↦ rw e tt
  ]

  pub drop_while-Stops : (s : Bytes) → Stops test (drop_while test s)
  unfolding drop_while
  drop_while-Stops [] = tt
  drop_while-Stops (c ∷ s) = elim (Bool-cases (test c)) [
    | inl e ↦ rw e (drop_while-Stops s)
    | inr e ↦ rw e e
  ]

abbrev pub NonEmpty : Bytes → Type 0
NonEmpty [] = ⊥
NonEmpty (c ∷ s) = Unit {0}

-- The tokeniser reads the tokens, none of them empty, and then the end.
abbrev pub Reads : List Token → Bytes → Type 0
Reads [] text = (next_token text).0 ≡ record { token_type = TokenType.eof; value = [] }
Reads (t ∷ ts) text = ((next_token text).0 ≡ t) × NonEmpty t.value × Reads ts ((next_token text).1)

NonEmpty-IsRun :
    (test : ℕ → Bool) (s : Bytes) → NonEmpty (take_while test s) → IsRun test (take_while test s)
unfolding take_while
NonEmpty-IsRun test [] h = elim h [ ]
NonEmpty-IsRun test (c ∷ s) h = elim (Bool-cases (test c)) [
  | inl e ↦ rw e (c, take_while test s, refl, e, take_while-Passes test s)
  | inr e ↦ elim (rw e at h) [ ]
]

abbrev IsSplit : Token → Bytes → Bytes → Type 0
IsSplit t rest text = (text ≡ t.value ++ rest) × IsToken t.token_type t.value rest

word-IsSplit :
    (val rest text : Bytes)
    → text ≡ val ++ rest
    → IsRun is_alphanumeric val
    → Stops is_alphanumeric rest
    → IsSplit (word_token val) rest text
unfolding word_token
word-IsSplit val rest text e run stop = elim (Bool-cases (is_keyword val)) [
  | inl k ↦ rw k (e, (run, k, stop))
  | inr k ↦ rw k (e, (run, k, stop))
]

token_at-IsSplit :
    (text : Bytes)
    → NonEmpty ((token_at text).0.value)
    → IsSplit ((token_at text).0) ((token_at text).1) text
unfolding token_at word_token
token_at-IsSplit [] h = elim h [ ]
token_at-IsSplit (c ∷ s) h = elim (Bool-cases (is_symbol c)) [
  | inl e ↦ rw e (refl, (c, refl, e))
  | inr e ↦ elim (Bool-cases (is_operator c)) [
    | inl e' ↦
        let some_runes : NonEmpty (take_while is_operator (c ∷ s)) = rw (e, e') at h in
        rw (e, e')
          (
            sym (take_while-append-drop_while is_operator (c ∷ s)),
            (NonEmpty-IsRun is_operator (c ∷ s) some_runes, drop_while-Stops is_operator (c ∷ s)),
          )
    | inr e' ↦
        let some_runes : NonEmpty (take_while is_alphanumeric (c ∷ s)) = rw (e, e') at h in
        rw (e, e')
          (word-IsSplit (take_while is_alphanumeric (c ∷ s)) (drop_while is_alphanumeric (c ∷ s))
            (c ∷ s) (sym (take_while-append-drop_while is_alphanumeric (c ∷ s)))
            (NonEmpty-IsRun is_alphanumeric (c ∷ s) some_runes)
            (drop_while-Stops is_alphanumeric (c ∷ s)))
  ]
]

token_at-end :
    (text : Bytes)
    → (token_at text).0 ≡ record { token_type = TokenType.eof; value = [] }
    → text ≡ []
unfolding token_at word_token
token_at-end [] h = refl
token_at-end (c ∷ s) h =
    let kind : (token_at (c ∷ s)).0.token_type ≡ TokenType.eof =
      ap (λ (t : Token). t.token_type) h in
    elim (Bool-cases (is_symbol c)) [
      | inl e ↦ let k : TokenType.symbol ≡ TokenType.eof = rw e at kind in cc
      | inr e ↦ elim (Bool-cases (is_operator c)) [
        | inl e' ↦ let k : TokenType.conditional_operator ≡ TokenType.eof = rw (e, e') at kind in cc
        | inr e' ↦ elim (Bool-cases (is_keyword (take_while is_alphanumeric (c ∷ s)))) [
          | inl w ↦ let k : TokenType.keyword ≡ TokenType.eof = rw (e, e', w) at kind in cc
          | inr w ↦ let k : TokenType.identifier ≡ TokenType.eof = rw (e, e', w) at kind in cc
        ]
      ]
    ]

pub Reads-Spells : (ts : List Token) (text : Bytes) → Reads ts text → Spells ts text
unfolding next_token
Reads-Spells [] text h =
    let front = take_while-append-drop_while is_space text in
    let all : take_while is_space text ≡ text =
      sym (append-nil (take_while is_space text))
      ∙ ap (λ (l : Bytes). take_while is_space text ++ l)
          (sym (token_at-end (drop_while is_space text) h))
      ∙ front in
    rw all at (take_while-Passes is_space text)
Reads-Spells (t ∷ ts) text (e, some_runes, more) =
    let behind = drop_while is_space text in
    let some_runes' : NonEmpty ((token_at behind).0.value) =
      subst (λ (t' : Token). NonEmpty t'.value) (sym e) some_runes in
    let split : IsSplit t ((token_at behind).1) behind =
      rw e at (token_at-IsSplit behind some_runes') in
    (
      take_while is_space text,
      (token_at behind).1,
      rw (sym (split.0)) (sym (take_while-append-drop_while is_space text)),
      take_while-Passes is_space text,
      split.1,
      Reads-Spells ts ((token_at behind).1) more,
    )

IsToken-NonEmpty :
    (kind : TokenType) (value rest : Bytes) → IsToken kind value rest → NonEmpty value
IsToken-NonEmpty TokenType.symbol value rest (c, e, h) = rw e tt
IsToken-NonEmpty TokenType.conditional_operator value rest ((c, s, e, h, run), stop) = rw e tt
IsToken-NonEmpty TokenType.identifier value rest ((c, s, e, h, run), word, stop) = rw e tt
IsToken-NonEmpty TokenType.keyword value rest ((c, s, e, h, run), word, stop) = rw e tt
IsToken-NonEmpty TokenType.eof value rest h = elim h [ ]

Spells-Reads : (ts : List Token) (text : Bytes) → Spells ts text → Reads ts text
Spells-Reads [] text h = rw (next_token-end text h) refl
Spells-Reads (t ∷ ts) text h =
    let (rest, e, token, more) = next_token-Spells t ts text h in
    rw e (refl, IsToken-NonEmpty t.token_type t.value rest token, Spells-Reads ts rest more)

-- The tokens of the first calls of NextToken, one more than `n`.
unfoldable pub read_tokens : ℕ → Bytes → List Token
read_tokens zero text = (next_token text).0 ∷ []
read_tokens (suc n) text = (next_token text).0 ∷ read_tokens n ((next_token text).1)

abbrev pub end_token : Token
end_token = record { token_type = TokenType.eof; value = [] }

unfoldable pub no_empty : List Token → Bool
no_empty [] = true
no_empty (t ∷ ts) = not (str_eq t.value []) && no_empty ts

no_empty-NonEmpty : (value : Bytes) → not (str_eq value []) ≡ true → NonEmpty value
unfolding cmp
no_empty-NonEmpty [] h = cc
no_empty-NonEmpty (c ∷ s) h = tt

NonEmpty-no_empty : (value : Bytes) → NonEmpty value → not (str_eq value []) ≡ true
unfolding cmp
NonEmpty-no_empty [] h = elim h [ ]
NonEmpty-no_empty (c ∷ s) h = refl

-- NextToken gives the tokens, none of them empty, and the end behind them.
abbrev pub GivesTokens : List Token → Bytes → Type 0
GivesTokens ts text = (read_tokens (length ts) text ≡ ts ++ end_token ∷ []) × (no_empty ts ≡ true)

GivesTokens-Reads : (ts : List Token) (text : Bytes) → GivesTokens ts text → Reads ts text
unfolding read_tokens no_empty
GivesTokens-Reads [] text (e, some_runes) = cc
GivesTokens-Reads (t ∷ ts) text (e, some_runes) =
    let first : (next_token text).0 ≡ t = cc in
    let others : read_tokens (length ts) ((next_token text).1) ≡ ts ++ end_token ∷ [] = cc in
    (
      first,
      no_empty-NonEmpty t.value (ground arith),
      GivesTokens-Reads ts ((next_token text).1) (others, ground arith),
    )

Reads-GivesTokens : (ts : List Token) (text : Bytes) → Reads ts text → GivesTokens ts text
unfolding read_tokens no_empty
Reads-GivesTokens [] text h = (rw h refl, refl)
Reads-GivesTokens (t ∷ ts) text (e, some_runes, more) =
    let (others, some_runes') = Reads-GivesTokens ts ((next_token text).1) more in
    (rw (e, others) refl, rw (NonEmpty-no_empty t.value some_runes) some_runes')

-- A text spells a list of tokens, with gaps of spaces and each word and operator as long as it can
-- be, exactly when NextToken gives these tokens one after the other, none of them empty, and EOF behind
-- them.
pub Spells-iff-GivesTokens : (ts : List Token) (text : Bytes) → Spells ts text ↔ GivesTokens ts text
Spells-iff-GivesTokens ts text = (
  λ h. Reads-GivesTokens ts text (Spells-Reads ts text h),
  λ h. Reads-Spells ts text (GivesTokens-Reads ts text h),
)
