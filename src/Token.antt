-- ===== src/Token.antt =====
-- include/tiny_sql/sql/token.h and src/sql/token.cpp: the tokens of the SQL lexer.
--
-- The enumerators keep their names; `_token` is added where a name is taken (`use_token`).
use tiny_sql.Prelude.{
  ℕ, ◌-◌, Bool, true, false, ◌&&◌, List, [], ◌∷◌, leb, if◌then◌else◌, map, Bytes, codes, ◌≡◌, ◌↔◌,
  refl, str_eq,
}

pub data TokenType : Type 0 where
  eof_token illegal identifier number string select from where_token insert into : TokenType
  values update delete create table drop alter index database use_token show : TokenType
  tables databases describe desc int integer varchar char text float double : TokenType
  decimal date datetime timestamp boolean bool primary key foreign unique : TokenType
  not_token null_token default auto_increment plus minus asterisk slash percent : TokenType
  eq ne lt le gt ge and or comma semicolon dot lparen rparen as_token limit : TokenType
  offset order by group having join left right inner outer on distinct : TokenType
  all_token count sum_token avg max_token min_token in_token between like is : TokenType
  asc ascending descending : TokenType

-- `==` of two token types.
unfoldable pub TokenType-discrete : Discrete TokenType
TokenType-discrete = hlevel

-- The Boolean of a decision.
unfoldable pub decided {ℓ} : {P : Type ℓ} → Dec P → Bool
decided (yes p) = true
decided (no p) = false

pub decided_iff {ℓ} : {P : Type ℓ} (d : Dec P) → (decided d ≡ true) ↔ P
unfolding decided
decided_iff (yes p) = ((λ _. p), (λ _. refl))
decided_iff (no p) = ((λ e. cc), (λ q. absurd (p q)))

unfoldable pub is_type : TokenType → TokenType → Bool
unfolding TokenType-discrete decided
is_type s t = decided (TokenType-discrete s t)

pub is_type_iff : (s t : TokenType) → (is_type s t ≡ true) ↔ (s ≡ t)
unfolding is_type
is_type_iff s t = decided_iff (TokenType-discrete s t)

pub record Token : Type 0 where
  pub type : TokenType
  pub literal : Bytes
  pub line : ℕ
  pub column : ℕ

-- `tokenTypeToString`, for the messages of the parser.
pub token_type_to_string : TokenType → Bytes
token_type_to_string eof_token = codes "EOF"
token_type_to_string illegal = codes "ILLEGAL"
token_type_to_string identifier = codes "IDENTIFIER"
token_type_to_string number = codes "NUMBER"
token_type_to_string string = codes "STRING"
token_type_to_string select = codes "SELECT"
token_type_to_string from = codes "FROM"
token_type_to_string where_token = codes "WHERE"
token_type_to_string insert = codes "INSERT"
token_type_to_string into = codes "INTO"
token_type_to_string values = codes "VALUES"
token_type_to_string update = codes "UPDATE"
token_type_to_string delete = codes "DELETE"
token_type_to_string create = codes "CREATE"
token_type_to_string table = codes "TABLE"
token_type_to_string drop = codes "DROP"
token_type_to_string database = codes "DATABASE"
token_type_to_string use_token = codes "USE"
token_type_to_string show = codes "SHOW"
token_type_to_string tables = codes "TABLES"
token_type_to_string databases = codes "DATABASES"
token_type_to_string int = codes "INT"
token_type_to_string varchar = codes "VARCHAR"
token_type_to_string asterisk = codes "*"
token_type_to_string comma = codes ","
token_type_to_string semicolon = codes ";"
token_type_to_string lparen = codes "("
token_type_to_string rparen = codes ")"
token_type_to_string eq = codes "="
token_type_to_string _ = codes "UNKNOWN"

-- `toupper` in the C locale.
unfoldable pub to_upper : ℕ → ℕ
to_upper c = if leb b'a' c && leb c b'z' then c - 32 else c

-- The table of `lookupKeyword`. Its keys differ, so the order does not matter.
abbrev keywords : List (Bytes × TokenType)
keywords =
    (codes "SELECT", select)
    ∷ (codes "FROM", from)
    ∷ (codes "WHERE", where_token)
    ∷ (codes "INSERT", insert)
    ∷ (codes "INTO", into)
    ∷ (codes "VALUES", values)
    ∷ (codes "UPDATE", update)
    ∷ (codes "DELETE", delete)
    ∷ (codes "CREATE", create)
    ∷ (codes "TABLE", table)
    ∷ (codes "DROP", drop)
    ∷ (codes "ALTER", alter)
    ∷ (codes "INDEX", index)
    ∷ (codes "DATABASE", database)
    ∷ (codes "USE", use_token)
    ∷ (codes "SHOW", show)
    ∷ (codes "TABLES", tables)
    ∷ (codes "DATABASES", databases)
    ∷ (codes "DESCRIBE", describe)
    ∷ (codes "DESC", desc)
    ∷ (codes "INT", int)
    ∷ (codes "INTEGER", integer)
    ∷ (codes "VARCHAR", varchar)
    ∷ (codes "CHAR", char)
    ∷ (codes "TEXT", text)
    ∷ (codes "FLOAT", float)
    ∷ (codes "DOUBLE", double)
    ∷ (codes "DECIMAL", decimal)
    ∷ (codes "DATE", date)
    ∷ (codes "DATETIME", datetime)
    ∷ (codes "TIMESTAMP", timestamp)
    ∷ (codes "BOOLEAN", boolean)
    ∷ (codes "BOOL", bool)
    ∷ (codes "PRIMARY", primary)
    ∷ (codes "KEY", key)
    ∷ (codes "FOREIGN", foreign)
    ∷ (codes "UNIQUE", unique)
    ∷ (codes "NOT", not_token)
    ∷ (codes "NULL", null_token)
    ∷ (codes "DEFAULT", default)
    ∷ (codes "AUTO_INCREMENT", auto_increment)
    ∷ (codes "AND", and)
    ∷ (codes "OR", or)
    ∷ (codes "AS", as_token)
    ∷ (codes "LIMIT", limit)
    ∷ (codes "OFFSET", offset)
    ∷ (codes "ORDER", order)
    ∷ (codes "BY", by)
    ∷ (codes "GROUP", group)
    ∷ (codes "HAVING", having)
    ∷ (codes "JOIN", join)
    ∷ (codes "LEFT", left)
    ∷ (codes "RIGHT", right)
    ∷ (codes "INNER", inner)
    ∷ (codes "OUTER", outer)
    ∷ (codes "ON", on)
    ∷ (codes "DISTINCT", distinct)
    ∷ (codes "ALL", all_token)
    ∷ (codes "COUNT", count)
    ∷ (codes "SUM", sum_token)
    ∷ (codes "AVG", avg)
    ∷ (codes "MAX", max_token)
    ∷ (codes "MIN", min_token)
    ∷ (codes "IN", in_token)
    ∷ (codes "BETWEEN", between)
    ∷ (codes "LIKE", like)
    ∷ (codes "IS", is)
    ∷ (codes "ASC", asc)
    ∷ []

find_keyword : Bytes → List (Bytes × TokenType) → TokenType
find_keyword s [] = identifier
find_keyword s ((k, t) ∷ rest) = if str_eq k s then t else find_keyword s rest

unfoldable pub lookup_keyword : Bytes → TokenType
unfolding find_keyword to_upper str_eq
lookup_keyword s = find_keyword (map to_upper s) keywords
