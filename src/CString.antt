-- ===== src/CString.antt =====
-- src/kernel/string.c, the functions on strings. A string is the bytes from an address up to a NUL.
-- The fuel bounds the bytes looked at: `none` is a string that has not ended by then.
pub mod Compare
pub mod Words
use mathlib.Core.Option
use bax_os_dev.Base.{
  ℕ, zero, suc, ◌+◌, Option, none, some, ◌||◌, ◌&&◌, ◌==◌, if◌then◌else◌, not, List, [], ◌∷◌, ◌≡◌,
  ◌≢◌,
}
use bax_os_dev.Bytes.{Memory, store}

-- The bytes of a string.
abbrev pub IsString : Memory → ℕ → List ℕ → Type 0
IsString m s [] = m s ≡ 0
IsString m s (c ∷ cs) = (m s ≡ c) × (c ≢ 0) × IsString m (s + 1) cs

-- `strlen`
unfoldable pub strlen : ℕ → ℕ → Memory → Option ℕ
strlen zero s m = none
strlen (suc fuel) s m =
    let rest = strlen fuel (s + 1) m in if m s == 0 then some 0 else Option.map suc rest

-- `strcmp`: it returns the first number less the second.
unfoldable pub strcmp : ℕ → ℕ → ℕ → Memory → Option (ℕ × ℕ)
strcmp zero a b m = none
strcmp (suc fuel) a b m =
    let rest = strcmp fuel (a + 1) (b + 1) m in
    if not (m a == 0) && m a == m b then rest else some (m a, m b)

-- `strcpy`
unfoldable pub strcpy : ℕ → ℕ → ℕ → Memory → Option Memory
strcpy zero dest src m = none
strcpy (suc fuel) dest src m =
    let rest = strcpy fuel (dest + 1) (src + 1) (store dest (m src) m) in
    if m src == 0 then some (store dest (m src) m) else rest

-- `strchr`: what it returns, NULL being `none`.
unfoldable pub strchr : ℕ → ℕ → ℕ → Memory → Option (Option ℕ)
strchr zero s c m = none
strchr (suc fuel) s c m =
    let rest = strchr fuel (s + 1) c m in
    if m s == c then some (some s) else if m s == 0 then some none else rest

-- `strrchr`, with what was found so far.
unfoldable pub strrchr : ℕ → Option ℕ → ℕ → ℕ → Memory → Option (Option ℕ)
strrchr zero found s c m = none
strrchr (suc fuel) found s c m =
    let found' = if m s == c then some s else found in
    let rest = strrchr fuel found' (s + 1) c m in if m s == 0 then some found' else rest

-- The loops of `str_word`: to the end of a word, and past spaces.
unfoldable pub word_end : ℕ → ℕ → Memory → Option ℕ
word_end zero p m = none
word_end (suc fuel) p m =
    let rest = word_end fuel (p + 1) m in if m p == 0 || m p == b' ' then some p else rest

unfoldable pub past_spaces : ℕ → ℕ → Memory → Option ℕ
past_spaces zero p m = none
past_spaces (suc fuel) p m =
    let rest = past_spaces fuel (p + 1) m in if m p == b' ' then rest else some p

-- `str_word`: where the rest of the text is, and the memory with the word cut off.
unfoldable pub str_word : ℕ → ℕ → Memory → Option (ℕ × Memory)
str_word fuel text m = elim (word_end fuel text m) [
  | none ↦ none
  | some p ↦
      let m' = if m p == 0 then m else store p 0 m in
      let p' = if m p == 0 then p else p + 1 in Option.map (λ q. (q, m')) (past_spaces fuel p' m')
]
