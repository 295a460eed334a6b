-- ===== src/Tokenizer.antt =====
-- `readToken` and its helpers in src/compiler/parser.cc. The input is the list of its characters up
-- to the NUL.
pub mod Laws
mod Tests
use tails.Prelude.{ℕ, Bool, true, false, ◌&&◌, ◌||◌, List, [], ◌∷◌, leb, ◌==◌, if◌then◌else◌}

-- `isspace` in the C locale.
unfoldable pub is_space : ℕ → Bool
is_space c = c == 32 || leb 9 c && leb c 13

unfoldable pub skip_whitespace : List ℕ → List ℕ
unfolding is_space
skip_whitespace [] = []
skip_whitespace (c ∷ cs) = let rest = skip_whitespace cs in if is_space c then rest else c ∷ cs

-- What ends a general token.
abbrev pub ends_token : ℕ → Bool
ends_token c = is_space c || c == b')' || c == b'}' || c == b']'

-- The loop of a general token, after its first character, and that of a string literal.
unfoldable pub read_general : List ℕ → List ℕ × List ℕ
unfolding is_space
read_general [] = ([], [])
read_general (c ∷ cs) =
    let (token, rest) = read_general cs in if ends_token c then ([], c ∷ cs) else (c ∷ token, rest)

unfoldable pub read_string : List ℕ → List ℕ × List ℕ
read_string [] = ([], [])
read_string (c ∷ cs) =
    let (token, rest) = read_string cs in if c == b'"' then (c ∷ [], cs) else (c ∷ token, rest)

-- `readToken` after the white space.
unfoldable pub read_from : List ℕ → List ℕ × List ℕ
unfolding read_general read_string
read_from [] = ([], [])
read_from (c ∷ cs) =
    let (text, after_string) = read_string cs in
    let (token, after_token) = read_general cs in
    if c == b'"'
    then (c ∷ text, after_string)
    else if c == b'(' || c == b'{' || c == b'['
    then (c ∷ [], cs)
    else (c ∷ token, after_token)

unfoldable pub read_token : List ℕ → List ℕ × List ℕ
unfolding skip_whitespace read_from
read_token input = read_from (skip_whitespace input)

-- `peek`: the next character, if there is one, after the white space.
unfoldable pub peek_is : ℕ → List ℕ → Bool
peek_is c [] = false
peek_is c (d ∷ cs) = c == d
