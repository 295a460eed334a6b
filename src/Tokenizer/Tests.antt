-- ===== src/Tokenizer/Tests.antt =====
-- A token after white space and before a closing brace.
use tails.Prelude.{ℕ, ◌≡◌, ◌<◌, ◌⊎◌, true, List, [], ◌∷◌, ◌++◌, length}
use tails.Tokenizer.{is_space, read_token}
use tails.Tokenizer.Laws.{All, IsToken, read_token-IsToken}

abbrev after_space : List ℕ
after_space = b' ' ∷ b'a' ∷ b'}' ∷ b'b' ∷ []

read_token-IsToken_example :
    (spaces : List ℕ) × (after_space
      ≡ spaces ++ ((read_token after_space).0 ++ (read_token after_space).1))
    × All is_space true spaces
    × IsToken (read_token after_space).0 (read_token after_space).1
    × (((read_token after_space).0 ≡ []) ⊎ (length (read_token after_space).1 < length after_space))
read_token-IsToken_example = read_token-IsToken after_space
