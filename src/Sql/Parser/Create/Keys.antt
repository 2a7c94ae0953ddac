-- ===== src/Sql/Parser/Create/Keys.antt =====
-- The name of the primary key in a statement, and the position that it stands for.
use golang_db.Base.{
  ℕ, zero, suc, ◌+◌, ◌<◌, ◌≡◌, ◌≢◌, refl, if◌then◌else◌, ◌∙◌, true, false, Option, none, some, List,
  [], ◌∷◌, All, drop, get_elem?, arith, ok, ◌==◌,
}
use golang_db.Base.Bytes.{Bytes, str_eq, str_eq_iff, str_eq-ne}
use golang_db.Base.Text.{codes}
use golang_db.Db.Schema.{Column}
use golang_db.Sql.Tokeniser.{Token}
use golang_db.Sql.Tokeniser.Spells.{Spells, IsToken}
use golang_db.Sql.Parser.Steps.{symbol_token, keyword_token, identifier_token, identifier-nonempty}
use golang_db.Sql.Parser.Create.{last_position, primary_key_position}
use golang_db.Sql.Parser.Create.Tokens.{type_word, more_columns, key_tokens, create_tokens}

-- No column has the name.
abbrev pub IsAbsent : Bytes → List Column → Type 0
IsAbsent name cols = All (λ (c : Column). c.column_name ≢ name) cols

last_position-absent :
    (name : Bytes) (cols : List Column) (i position : ℕ)
    → IsAbsent name cols
    → last_position name cols i position ≡ position
unfolding last_position
last_position-absent name [] i position h = refl
last_position-absent name (c ∷ cols) i position h =
    rw (str_eq-ne c.column_name name (h.0)) (last_position-absent name cols (i + 1) position (h.1))

pub last_position-found :
    (name : Bytes) (cols : List Column) (i position n : ℕ) (d : Column)
    → get_elem? cols n ≡ some d
    → d.column_name ≡ name
    → IsAbsent name (drop (suc n) cols)
    → last_position name cols i position ≡ i + n
unfolding last_position
last_position-found name [] i position n d there e h = cc
last_position-found name (c ∷ cols) i position zero d there e h =
    let same : str_eq c.column_name name ≡ true = (str_eq_iff c.column_name name).1 cc in
    let n0 : i + 0 ≡ i = omega arith in rw (same, n0) (last_position-absent name cols (i + 1) i h)
last_position-found name (c ∷ cols) i position (suc n) d there e h =
    last_position-found name cols (i + 1) (if str_eq c.column_name name then i else position) n d
      there e h
    ∙ (omega arith)

-- The position of the column that the key names, and 0 without a key.
abbrev pub IsKeyPosition : Option Bytes → List Column → ℕ → Type 0
IsKeyPosition none cols position = position ≡ 0
IsKeyPosition (some name) cols position =
    (0 < position)
    × ((d : Column) × (get_elem? cols position ≡ some d) × (d.column_name ≡ name))
    × IsAbsent name (drop (suc position) cols)

-- What is behind the first token is spelled behind it.
behind_first :
    (t : Token) (ts : List Token) (text : Bytes)
    → Spells (t ∷ ts) text
    → (rest : Bytes) × IsToken t.token_type t.value rest × Spells ts rest
behind_first t ts text (gap, rest, e, spaces, token, more) = (rest, token, more)

-- The name of the key has runes.
Spells-key :
    (name : Bytes) (cols : List Column) (ts : List Token) (text : Bytes)
    → Spells (more_columns cols (key_tokens (some name) ts)) text
    → str_eq name [] ≡ false
Spells-key name [] ts text h =
    let ts₄ = identifier_token name ∷ symbol_token (codes ")") ∷ ts in
    let ts₃ = symbol_token (codes "(") ∷ ts₄ in
    let ts₂ = keyword_token (codes "KEY") ∷ ts₃ in
    let (r₁, t₁, h₁) =
      behind_first (symbol_token (codes ",")) (keyword_token (codes "PRIMARY") ∷ ts₂) text h in
    let (r₂, t₂, h₂) = behind_first (keyword_token (codes "PRIMARY")) ts₂ r₁ h₁ in
    let (r₃, t₃, h₃) = behind_first (keyword_token (codes "KEY")) ts₃ r₂ h₂ in
    let (r₄, t₄, h₄) = behind_first (symbol_token (codes "(")) ts₄ r₃ h₃ in
    let (r₅, t₅, h₅) = behind_first (identifier_token name) (symbol_token (codes ")") ∷ ts) r₄ h₄ in
    identifier-nonempty name r₅ t₅
Spells-key name (c ∷ cols) ts text h =
    let ts₃ = more_columns cols (key_tokens (some name) ts) in
    let ts₂ = identifier_token (type_word c.data_type) ∷ ts₃ in
    let (r₁, t₁, h₁) =
      behind_first (symbol_token (codes ",")) (identifier_token c.column_name ∷ ts₂) text h in
    let (r₂, t₂, h₂) = behind_first (identifier_token c.column_name) ts₂ r₁ h₁ in
    let (r₃, t₃, h₃) = behind_first (identifier_token (type_word c.data_type)) ts₃ r₂ h₂ in
    Spells-key name cols ts r₃ h₃

pub statement-key :
    (name key : Bytes) (c : Column) (cols : List Column) (behind : List Token) (text : Bytes)
    → Spells (create_tokens name c cols (some key) behind) text
    → str_eq key [] ≡ false
statement-key name key c cols behind text h =
    let ts₆ = more_columns cols (key_tokens (some key) (symbol_token (codes ")") ∷ behind)) in
    let ts₅ = identifier_token (type_word c.data_type) ∷ ts₆ in
    let ts₄ = identifier_token c.column_name ∷ ts₅ in
    let ts₃ = symbol_token (codes "(") ∷ ts₄ in
    let ts₂ = identifier_token name ∷ ts₃ in
    let (r₁, t₁, h₁) =
      behind_first (keyword_token (codes "CREATE")) (keyword_token (codes "TABLE") ∷ ts₂) text h in
    let (r₂, t₂, h₂) = behind_first (keyword_token (codes "TABLE")) ts₂ r₁ h₁ in
    let (r₃, t₃, h₃) = behind_first (identifier_token name) ts₃ r₂ h₂ in
    let (r₄, t₄, h₄) = behind_first (symbol_token (codes "(")) ts₄ r₃ h₃ in
    let (r₅, t₅, h₅) = behind_first (identifier_token c.column_name) ts₅ r₄ h₄ in
    let (r₆, t₆, h₆) = behind_first (identifier_token (type_word c.data_type)) ts₆ r₅ h₅ in
    Spells-key key cols (symbol_token (codes ")") ∷ behind) r₆ h₆

pub primary_key_position-found :
    (name : Bytes) (cols : List Column) (position : ℕ)
    → str_eq name [] ≡ false
    → IsKeyPosition (some name) cols position
    → primary_key_position name cols ≡ ok position
unfolding primary_key_position
primary_key_position-found name cols position named (pos, (d, there, e), absent) =
    let found : last_position name cols 0 0 ≡ position =
      last_position-found name cols 0 0 position d there e absent ∙ (omega arith) in
    let positive : (position == 0) ≡ false = ground arith in rw (named, found, positive) refl
