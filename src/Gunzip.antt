-- ===== src/Gunzip.antt =====
-- src/tuxpac/unpack.c, `gunzip`: the header, the blocks and the window. The fuel bounds the rounds of
-- a loop whose end depends on the source; `none` is fuel that has run out.
pub mod Ends
pub mod Stored
use mathlib.Core.Option
use bax_os_dev.Base.{
  ℕ, zero, suc, ◌+◌, ◌-◌, ◌*◌, ◌/◌, ◌%◌, ◌^◌, Bool, true, false, not, ◌&&◌, ◌||◌, Option, none,
  some, List, [], ◌∷◌, ◌++◌, length, get_or, set, take, drop, replicate, ltb, leb, ◌==◌,
  if◌then◌else◌, bit_and,
}
use bax_os_dev.Source.{Source, src_byte, src_read}
use bax_os_dev.Window.{Window, Sink, window_open, window_close}
use bax_os_dev.Inflate.{Huff}
use bax_os_dev.Deflate.{Inflate, is_bad, get_bits, stored, fixed}
use bax_os_dev.Dynamic.{dynamic}

-- The loop that skips the name or the comment.
unfoldable pub skip_text : ℕ → Source → Option Source
skip_text zero s = none
skip_text (suc fuel) s =
    let (b, s') = src_byte s in
    let rest = skip_text fuel s' in if b == 0 || s'.bad then some s' else rest

abbrev pub skip_if : Bool → ℕ → Source → Option Source
skip_if flag fuel s = if flag then skip_text fuel s else some s

-- The header's fields behind the first ten bytes, by the flags.
unfoldable pub skip_fields : ℕ → ℕ → Source → Option Source
skip_fields fuel flags s =
    let (n0, s1) = src_byte s in
    let (n1, s2) = src_byte s1 in
    let (_, _, s3) = src_read (n0 + n1 * 2 ^ 8) s2 in
    let s4 = if bit_and flags 4 == 0 then s else s3 in
    elim (skip_if (not (bit_and flags 8 == 0)) fuel s4) [
      | none ↦ none
      | some s5 ↦ elim (skip_if (not (bit_and flags 16 == 0)) fuel s5) [
        | none ↦ none
        | some s6 ↦ let (_, _, s7) = src_read 2 s6 in some (if bit_and flags 2 == 0 then s6 else s7)
      ]
    ]

-- The tables before the first block: no code reads them.
unfoldable pub no_table : Huff
no_table = record { count = replicate 16 0; symbol = replicate 288 0 }

module _ (sink : Sink) where
  -- A block of `gunzip`, by its kind.
  unfoldable pub block : ℕ → ℕ → Inflate → Option (Bool × Inflate)
  block fuel kind z =
      if kind == 0
      then some (stored sink z)
      else if kind == 1
      then fixed sink fuel z
      else if kind == 2
      then dynamic sink fuel z
      else some (false, z)

  -- The loop of `gunzip` over the blocks.
  unfoldable pub blocks : ℕ → Inflate → Option (Bool × Inflate)
  blocks zero z = none
  blocks (suc fuel) z =
      let (last, z1) = get_bits 1 z in
      let (kind, z2) = get_bits 2 z1 in
      elim (block fuel kind z2) [
        | none ↦ none
        | some (ok, z3) ↦
            let rest = blocks fuel z3 in if ok && last == 0 then rest else some (ok, z3)
      ]

  -- `gunzip` behind the header, where `xalloc` found the memory for the window.
  unfoldable pub inflate : ℕ → Source → Option (Bool × Window)
  inflate fuel s =
      let start : Inflate = record {
        reader = record { bitbuf = 0; bitcnt = 0; source = s };
        lencode = no_table;
        distcode = no_table;
        window = window_open 32768;
      } in
      Option.map (λ (r : Bool × Inflate). window_close sink r.0 (is_bad r.1) r.1.window)
        (blocks fuel start)

  -- `gunzip`: `some none` is a return with false before there is a window.
  unfoldable pub gunzip : ℕ → Source → Option (Option (Bool × Window))
  gunzip fuel src =
      let (whole, h, s) = src_read 10 src in
      if not whole
        || not (get_or h 0 0 == 0x1F)
        || (not (get_or h 1 0 == 0x8B) || not (get_or h 2 0 == 8))
      then some none
      else elim (skip_fields fuel (get_or h 3 0) s) [
        | none ↦ none
        | some s' ↦ Option.map some (inflate fuel s')
      ]
