-- ===== src/Util/Text/Tests.antt =====
-- The functions on strings at concrete inputs.
use upanix_os.Base.{ℕ, ◌≡◌, refl, List, [], ◌∷◌, some, map, length, arith}
use upanix_os.Base.Int.{pos}
use upanix_os.Util.Text.{
  end_token, tokenize_loop, string_tokenize, chr_loop, string_chr, from_num_loop, string_from_num,
}
use upanix_os.Util.Text.Number.{reverse_of, IsText, string_from_num-IsText}
use upanix_os.Util.Text.Tokenize.{Numbered, fields, nonempty, text_of, string_tokenize_lem}

-- "/a//b" at '/'.
abbrev path : List ℕ
path = 47 ∷ 97 ∷ 47 ∷ 47 ∷ 98 ∷ []

path_tokens : map (text_of path) (string_tokenize path 47).0 ≡ (97 ∷ []) ∷ (98 ∷ []) ∷ []
unfolding string_tokenize tokenize_loop end_token
path_tokens = refl

string_tokenize_example :
    (map (text_of path) (string_tokenize path 47).0 ≡ nonempty (fields 47 [] path))
    × Numbered 0 (string_tokenize path 47).0
    × ((string_tokenize path 47).1 ≡ length (string_tokenize path 47).0)
string_tokenize_example = string_tokenize_lem path 47

second_letter : string_chr path 98 ≡ pos 4
unfolding string_chr chr_loop
second_letter = refl

text_of_number : string_from_num reverse_of 4096 ≡ some (52 ∷ 48 ∷ 57 ∷ 54 ∷ [])
unfolding string_from_num from_num_loop
text_of_number = refl

string_from_num_example : IsText 4096 10 (string_from_num reverse_of 4096)
string_from_num_example = string_from_num-IsText reverse_of (λ text. refl) 4096 (omega arith)
