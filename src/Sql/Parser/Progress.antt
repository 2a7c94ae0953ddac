-- ===== src/Sql/Parser/Progress.antt =====
-- How much `consume` takes.
use golang_db.Base.{
  ℕ, ◌+◌, ◌≤◌, Bool-cases, inl, inr, length, arith, Ensures, Result, bind-Ensures, ◌>>=◌,
}
use golang_db.Base.Bytes.{Bytes}
use golang_db.Sql.Tokeniser.{TokenType}
use golang_db.Sql.Tokeniser.Progress.{next_token_le}
use golang_db.Sql.Parser.{Parser, advance, accepts, consume, skip_comma}

-- The runes that are still to be taken, those of the current token included.
abbrev pub left : Parser → ℕ
left p = length p.current_token.value + length p.tokeniser

pub left-advance : (text : Bytes) → left (advance text) ≤ length text
unfolding advance
left-advance text = next_token_le text

pub consume-Ensures :
    (p : Parser) (expected_type : TokenType) (expected identifier_type : Bytes)
    → Ensures
        (λ (p' : Parser). left p' ≤ length p.tokeniser)
        (consume p expected_type expected identifier_type)
unfolding consume
consume-Ensures p expected_type expected identifier_type =
    elim (Bool-cases (accepts p.current_token expected_type expected)) [
      | inl e ↦ rw e (left-advance p.tokeniser)
      | inr e ↦ rw e (λ h. cc)
    ]

-- What follows `consume` has less to take.
pub consume-bind {ℓ} :
    {W : Type ℓ} (Q : W → Type 0) (p : Parser) (expected_type : TokenType)
    (expected identifier_type : Bytes) (next : Parser → Result W)
    → ((p' : Parser) → left p' ≤ length p.tokeniser → Ensures Q (next p'))
    → Ensures Q (consume p expected_type expected identifier_type >>= next)
consume-bind Q p expected_type expected identifier_type next h =
    bind-Ensures (λ (p' : Parser). left p' ≤ length p.tokeniser) Q
      (consume p expected_type expected identifier_type) next
      (consume-Ensures p expected_type expected identifier_type) h

pub left-skip_comma : (p : Parser) → left (skip_comma p) ≤ left p
unfolding skip_comma consume
left-skip_comma p = ground (arith, left-advance p.tokeniser)
