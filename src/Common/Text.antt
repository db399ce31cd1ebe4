-- ===== src/Common/Text.antt =====
-- What the program uses of Go's `strings` and `net` on text.
use Prim.Native.Char.{code}
use Prim.Native.String
use Prim.Native.String.{String, [], ◌∷◌}
use Prim.Native.Nat.{ℕ}
use mathlib.Core.Bool.{Bool, true, false, ◌||◌, ◌&&◌}
use mathlib.Core.List.{List}
use cftun.Common.Tests.{leb, ◌==◌, if◌then◌else◌}

infixr 60 ◌<>◌
abbrev pub ◌<>◌ : String → String → String
s <> t = String.◌++◌ s t

-- `strings.Contains(s, c)` of a text of one ASCII character.
unfoldable pub contains : ℕ → String → Bool
contains c [] = false
contains c (ch ∷ s) = code ch == c || contains c s

-- `strings.Split(s, c)[0]`
unfoldable pub before : ℕ → String → String
before c [] = ""
before c (ch ∷ s) = if code ch == c then "" else ch ∷ before c s

-- `s != ""`
abbrev pub is_empty : String → Bool
is_empty [] = true
is_empty (ch ∷ s) = false

-- `net.JoinHostPort`
unfoldable pub join_host_port : String → String → String
unfolding contains
join_host_port host port =
    if contains b':' host || contains b'%' host
    then "[" <> host <> "]:" <> port
    else host <> ":" <> port

-- `strings.Split(s, c)`: the text up to the first separator, and the others.
split_first : ℕ → String → String × List String
split_first c [] = ("", List.[])
split_first c (ch ∷ s) =
    let (w, ws) = split_first c s in if code ch == c then ("", List.◌∷◌ w ws) else (ch ∷ w, ws)

unfoldable pub split : ℕ → String → List String
unfolding split_first
split c s = let (w, ws) = split_first c s in List.◌∷◌ w ws

-- `unicode.IsSpace`
abbrev is_space : ℕ → Bool
is_space n =
    leb 9 n && leb n 13
    || n == 32
    || n == 133
    || n == 160
    || n == 5760
    || leb 8192 n && leb n 8202
    || n == 8232
    || n == 8233
    || n == 8239
    || n == 8287
    || n == 12288

abbrev push_word : String → List String → List String
push_word w ws = if is_empty w then ws else List.◌∷◌ w ws

words : String → String × List String
words [] = ("", List.[])
words (ch ∷ s) =
    let (w, ws) = words s in if is_space (code ch) then ("", push_word w ws) else (ch ∷ w, ws)

-- `strings.Fields`
unfoldable pub fields : String → List String
unfolding words
fields s = let (w, ws) = words s in push_word w ws

-- `strings.HasPrefix(s, p)`
unfoldable pub has_prefix : String → String → Bool
has_prefix s [] = true
has_prefix [] (ch ∷ p) = false
has_prefix (d ∷ s) (ch ∷ p) = code d == code ch && has_prefix s p

-- `strings.Contains(s, p)`
unfoldable pub contains_text : String → String → Bool
unfolding has_prefix
contains_text [] p = has_prefix [] p
contains_text (d ∷ s) p = has_prefix (d ∷ s) p || contains_text s p
