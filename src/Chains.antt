-- ===== src/Chains.antt =====
-- Chains through the entries of an array: one-based links, 0 at the end, from heads in a table.
-- src/kernel/share.c finds its pages through them and src/modules/storage/cache.c its lines.
pub mod Sets
pub mod Updates
pub mod Links
pub mod Tables
pub mod Removal
use bax_os_dev.Base.{
  ℕ, zero, suc, ◌-◌, ◌≡◌, Bool, true, false, ◌||◌, not, ◌&&◌, List, [], ◌∷◌, ◌==◌, if◌then◌else◌,
}

-- What a `uint32_t *at` of the loops points to: a head, or the link of an entry.
pub data Place : Type 0 where
  head : ℕ → Place
  after : ℕ → Place

-- `*at`, from the heads and the entries' links.
unfoldable pub value : (ℕ → ℕ) → (ℕ → ℕ) → Place → ℕ
value heads next (head h) = heads h
value heads next (after i) = next i

abbrev pub update {ℓ} : {A : Type ℓ} → (ℕ → A) → ℕ → A → ℕ → A
update f i x j = if j == i then x else f j

-- The heads and the links behind `*at = v`.
unfoldable pub put_head : Place → ℕ → (ℕ → ℕ) → ℕ → ℕ
put_head (head h) v heads = update heads h v
put_head (after i) v heads = heads

unfoldable pub put_next : Place → ℕ → (ℕ → ℕ) → ℕ → ℕ
put_next (head h) v next = next
put_next (after i) v next = update next i v

-- while (*at != 0 && !hit(*at - 1)) at = &next[*at - 1];
unfoldable pub seek : ℕ → (ℕ → Bool) → (ℕ → ℕ) → (ℕ → ℕ) → Place → Place
seek zero hit heads next at = at
seek (suc fuel) hit heads next at =
    let v = value heads next at in
    let rest = seek fuel hit heads next (after (v - 1)) in
    if v == 0 || hit (v - 1) then at else rest

-- for (at = head; at != 0; at = next[at - 1]) if (hit(at - 1)) return at;
unfoldable pub lookup : ℕ → (ℕ → Bool) → (ℕ → ℕ) → ℕ → ℕ
lookup zero hit next at = 0
lookup (suc fuel) hit next at =
    let rest = lookup fuel hit next (next (at - 1)) in if at == 0 || hit (at - 1) then at else rest

-- From `at` the links lead through the entries `xs` to the end.
abbrev pub Chain : (ℕ → ℕ) → ℕ → List ℕ → Type 0
Chain next at [] = at ≡ 0
Chain next at (x ∷ xs) = (at ≡ suc x) × Chain next (next x) xs
