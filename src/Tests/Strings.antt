-- ===== src/Tests/Strings.antt =====
-- src/kernel/string.c on a memory that holds two texts.
use bax_os_dev.Base.{ℕ, ◌≡◌, refl, arith, some, none, List, [], ◌∷◌, get_or}
use bax_os_dev.Bytes.{
  Memory, memset, set_head, set_words, set_bytes, memcmp_from, memcpy, memmove, copy_back,
  copy_head, copy_words, copy_bytes,
}
use bax_os_dev.Bytes.Moves.{Copied, memmove-Copied}
use bax_os_dev.CString.{IsString, strlen, strcmp, strchr, strrchr, str_word}
use bax_os_dev.CString.Words.{Cut, str_word-Cut}

-- "ls  a" at 0, and "ls b" at 8.
abbrev texts : List ℕ
texts = b'l' ∷ b's' ∷ b' ' ∷ b' ' ∷ b'a' ∷ 0 ∷ 0 ∷ 0 ∷ b'l' ∷ b's' ∷ b' ' ∷ b'b' ∷ 0 ∷ []

abbrev memory : Memory
memory a = get_or texts a 0

abbrev ls_a : List ℕ
ls_a = b'l' ∷ b's' ∷ b' ' ∷ b' ' ∷ b'a' ∷ []

abbrev ls_b : List ℕ
ls_b = b'l' ∷ b's' ∷ b' ' ∷ b'b' ∷ []

ls_a-IsString : IsString memory 0 ls_a
ls_a-IsString = ground arith

ls_b-IsString : IsString memory 8 ls_b
ls_b-IsString = ground arith

-- Forward over an address that words begin at, and backward.
memmove-Copied_example : Copied 2 0 12 memory (memmove 2 0 12 memory)
memmove-Copied_example = memmove-Copied 2 0 12 memory

set_across : memset 3 7 20 memory 22 ≡ 7
unfolding memset set_head set_words set_bytes
set_across = refl

moved_back : memmove 2 0 12 memory 13 ≡ b'b'
unfolding memmove copy_back
moved_back = refl

moved_forward : memmove 0 8 5 memory 3 ≡ b'b'
unfolding memmove memcpy copy_head copy_words copy_bytes
moved_forward = refl

compared : memcmp_from 0 8 5 memory ≡ (b' ', b'b')
unfolding memcmp_from
compared = refl

differ : strcmp 6 0 8 memory ≡ some (b' ', b'b')
unfolding strcmp
differ = refl

str_word-Cut_example : Cut 0 ls_a (str_word 6 0 memory)
str_word-Cut_example = str_word-Cut 6 0 ls_a memory ls_a-IsString (omega arith)

five_long : strlen 6 0 memory ≡ some 5
unfolding strlen
five_long = refl

found_last : strrchr 6 none 0 b' ' memory ≡ some (some 3)
unfolding strrchr
found_last = refl

found_first : strchr 6 0 b' ' memory ≡ some (some 2)
unfolding strchr
found_first = refl
