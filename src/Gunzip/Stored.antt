-- ===== src/Gunzip/Stored.antt =====
-- What `gunzip` of src/tuxpac/unpack.c makes of a file of stored blocks.
use mathlib.Core.Option
use bax_os_dev.Base.{
  ℕ, zero, suc, ◌+◌, ◌-◌, ◌*◌, ◌/◌, ◌%◌, ◌^◌, ◌<◌, ◌≡◌, refl, sym, ◌∙◌, subst, arith, Bool, true,
  false, not, List, [], ◌∷◌, ◌++◌, append_assoc, length, get_or, Option, some, none, ◌==◌, ◌||◌,
  if◌then◌else◌, if-true, if-false,
}
use bax_os_dev.Source.{Source, src_byte, src_read}
use bax_os_dev.Window.{Window, Sink, put, window_open, window_close}
use bax_os_dev.Window.Fed.{
  onto, onto-append, written-onto, Has, Goes, Has-byte, Has-whole, put-Goes, window_open-Goes,
  close-Goes,
}
use bax_os_dev.Inflate.{BitReader, fill_bits, bits}
use bax_os_dev.Deflate.{Inflate, is_bad, get_byte, get_bits, stored, stored_from}
use bax_os_dev.Gunzip.{block, blocks, skip_fields, no_table, inflate, gunzip}

-- The bytes of a block behind their length and its complement.
abbrev pub sized : List ℕ → List ℕ
sized bs =
    let n = length bs in
    (n % 2 ^ 8) ∷ ((n / 2 ^ 8) ∷ ((255 - n % 2 ^ 8) ∷ ((255 - n / 2 ^ 8) ∷ bs)))

-- How a block is written: whether it is the last, and what it has.
abbrev pub block_of : ℕ → List ℕ → List ℕ
block_of last bs = last ∷ sized bs

-- The blocks of a file, one at least.
abbrev pub blocks_of : List ℕ → List (List ℕ) → List ℕ
blocks_of bs [] = block_of 1 bs
blocks_of bs (next ∷ more) = block_of 0 bs ++ blocks_of next more

abbrev pub bytes_of : List ℕ → List (List ℕ) → List ℕ
bytes_of bs [] = bs
bytes_of bs (next ∷ more) = bs ++ bytes_of next more

-- A block has at most 65535 bytes.
abbrev pub AreSized : List ℕ → List (List ℕ) → Type 0
AreSized bs [] = length bs < 2 ^ 16
AreSized bs (next ∷ more) = (length bs < 2 ^ 16) × AreSized next more

-- A decoder between two blocks, with bytes still to be read, and a history.
record Stands (recent rest : List ℕ) (z : Inflate) : Type 0 where
  has : Has rest z.reader.source
  goes : Goes recent z.window
  empty : (z.reader.bitcnt ≡ 0) × (z.reader.bitbuf ≡ 0)

-- A result that is true, and where the decoder then stands.
abbrev Unpacks : List ℕ → List ℕ → Option (Bool × Inflate) → Type 0
Unpacks recent rest none = ⊥
Unpacks recent rest (some (ok, z)) = (ok ≡ true) × Stands recent rest z

byte-Stands :
    (b : ℕ) (recent rest : List ℕ) (z : Inflate)
    → Stands recent (b ∷ rest) z
    → let (c, z') = get_byte z in (c ≡ b) × Stands recent rest z'
byte-Stands b recent rest z i =
    let (same, h) = Has-byte b rest z.reader.source i.has in
    (same, record { has = h; goes = i.goes; empty = i.empty })

first_bits :
    (last : ℕ) (rest : List ℕ) (r : BitReader)
    → last < 2
    → (r.bitcnt ≡ 0) × (r.bitbuf ≡ 0)
    → Has (last ∷ rest) r.source
    → let (b, r1) = bits 1 r in
      let (k, r2) = bits 2 r1 in (b ≡ last) × (k ≡ 0) × (r2.source ≡ (src_byte r.source).1)
unfolding bits fill_bits
first_bits last rest r lt empty h =
    let (same, _) = Has-byte last rest r.source h in ground (arith, same)

-- What `gunzip` gives where it returns true with these bytes given to the sink.
abbrev pub Delivers : List ℕ → Option (Option (Bool × Window)) → Type 0
Delivers bytes none = ⊥
Delivers bytes (some none) = ⊥
Delivers bytes (some (some (ok, w))) = (ok ≡ true) × (w.sunk ≡ bytes)

no_fields : (fuel : ℕ) (s : Source) → skip_fields fuel 0 s ≡ some s
unfolding skip_fields
no_fields fuel s = refl

module _ (sink : Sink) (takes : (before bytes : List ℕ) → sink before bytes ≡ true) where
  stored_from-Stands :
      (bs recent rest : List ℕ) (z : Inflate)
      → Stands recent (bs ++ rest) z
      → Stands (onto bs recent) rest (stored_from sink (length bs) z)
  unfolding stored_from onto
  stored_from-Stands [] recent rest z i = i
  stored_from-Stands (b ∷ bs) recent rest z i =
      let (same, i1) = byte-Stands b recent (bs ++ rest) z i in
      let (c, z1) = get_byte z in
      let put_b : Goes (b ∷ recent) (put sink c z1.window) =
        subst (λ x. Goes (x ∷ recent) (put sink c z1.window)) same
          (put-Goes sink takes c recent z1.window i1.goes) in
      if-false (Stands (onto bs (b ∷ recent)) rest) (is_bad z) z _ i.has.sound (
        stored_from-Stands bs (b ∷ recent) rest (record z1 { window = put sink c z1.window })
          (record { has = i1.has; goes = put_b; empty = i1.empty }))

  stored-Stands :
      (bs recent rest : List ℕ) (z0 : Inflate)
      → length bs < 2 ^ 16
      → Has (sized bs ++ rest) z0.reader.source
      → Goes recent z0.window
      → ((stored sink z0).0 ≡ true) × Stands (onto bs recent) rest (stored sink z0).1
  unfolding stored
  stored-Stands bs recent rest z0 small h g =
      let n = length bs in
      let z = record z0 { reader = record z0.reader { bitbuf = 0; bitcnt = 0 } } in
      let start : Stands recent (sized bs ++ rest) z = record {
        has = h;
        goes = g;
        empty = (refl, refl);
      } in
      let z1 = (get_byte z).1 in
      let z2 = (get_byte z1).1 in
      let z3 = (get_byte z2).1 in
      let z4 = (get_byte z3).1 in
      let (e0, i1) = byte-Stands (n % 2 ^ 8) recent _ z start in
      let (e1, i2) = byte-Stands (n / 2 ^ 8) recent _ z1 i1 in
      let (e2, i3) = byte-Stands (255 - n % 2 ^ 8) recent _ z2 i2 in
      let (e3, i4) = byte-Stands (255 - n / 2 ^ 8) recent (bs ++ rest) z3 i3 in
      let len = (get_byte z).0 % 2 ^ 8 + (get_byte z1).0 % 2 ^ 8 * 2 ^ 8 in
      let nlen = (get_byte z2).0 % 2 ^ 8 + (get_byte z3).0 % 2 ^ 8 * 2 ^ 8 in
      let all : len ≡ n = omega (arith, e0, e1, small) in
      let whole : len + nlen ≡ 0xFFFF = omega (arith, all, e2, e3, small) in
      let done : Stands (onto bs recent) rest (stored_from sink len z4) =
        subst (λ k. Stands (onto bs recent) rest (stored_from sink k z4)) (sym all)
          (stored_from-Stands bs recent rest z4 i4) in
      let P : Bool × Inflate → Type 0 = λ r. (r.0 ≡ true) × Stands (onto bs recent) rest r.1 in
      if-true P (len + nlen == 0xFFFF) _ _ (ground (arith, whole))
        (ground (arith, done.has.sound), done)

  -- A stored block in the loop: what it leaves, and how the loop goes on.
  round_lem :
      (fuel last : ℕ) (bs recent rest : List ℕ) (z : Inflate)
      → length bs < 2 ^ 16
      → last < 2
      → Stands recent (last ∷ sized bs ++ rest) z
      → (z' : Inflate) × (blocks sink (suc fuel) z
          ≡ (if last == 0 then blocks sink fuel z' else some (true, z')))
        × Stands (onto bs recent) rest z'
  unfolding blocks block
  round_lem fuel last bs recent rest z small lt st =
      let (same, kind, src) = first_bits last (sized bs ++ rest) z.reader lt st.empty st.has in
      let z2 = (get_bits 2 (get_bits 1 z).1).1 in
      let h : Has (sized bs ++ rest) z2.reader.source =
        subst (Has (sized bs ++ rest)) (sym src)
          (Has-byte last (sized bs ++ rest) z.reader.source st.has).1 in
      let (ok, after) = stored-Stands bs recent rest z2 small h st.goes in
      let last_bit : (get_bits 1 z).0 ≡ last = same in
      let kind_bits : (get_bits 2 (get_bits 1 z).1).0 ≡ 0 = kind in
      ((stored sink z2).1, rw (blocks, kind_bits, block, ok, last_bit) refl, after)

  blocks-Unpacks :
      (fuel : ℕ) (bs : List ℕ) (more : List (List ℕ)) (recent rest : List ℕ) (z : Inflate)
      → AreSized bs more
      → Stands recent (blocks_of bs more ++ rest) z
      → length more < fuel
      → Unpacks (onto (bytes_of bs more) recent) rest (blocks sink fuel z)
  blocks-Unpacks zero bs more recent rest z small st lt = absurd (omega arith)
  blocks-Unpacks (suc fuel) bs [] recent rest z small st lt =
      let (z', e, after) = round_lem fuel 1 bs recent rest z small (omega arith) st in
      rw e (refl, after)
  blocks-Unpacks (suc fuel) bs (next ∷ more) recent rest z small st lt =
      let (z', e, after) =
        round_lem fuel 0 bs recent (blocks_of next more ++ rest) z small.0 (omega arith) (
          subst (λ l. Stands recent l z) (append_assoc (block_of 0 bs) (blocks_of next more) rest)
            st) in
      rw (e, onto-append bs (bytes_of next more) recent)
        (blocks-Unpacks fuel next more (onto bs recent) rest z' small.1 after (omega arith))

  closed-Delivers :
      (bytes rest : List ℕ) (r : Option (Bool × Inflate))
      → Unpacks (onto bytes []) rest r
      → Delivers bytes (
          Option.map some
            (Option.map (λ (r : Bool × Inflate). window_close sink r.0 (is_bad r.1) r.1.window) r))
  closed-Delivers bytes rest none h = h
  closed-Delivers bytes rest (some (ok, z)) (yes_ok, st) =
      rw (yes_ok, st.has.sound)
        (let (closed, sunk) = close-Goes sink takes (onto bytes []) z.window st.goes in
          (closed, sunk ∙ written-onto bytes []))

  -- For a source that has a gzip header without flags, blocks that are stored, each of fewer than
  -- 65536 bytes, and anything behind them, and a sink that takes everything, `gunzip` with more
  -- fuel than there are blocks behind the first returns true, and the sink has been given the
  -- bytes of all blocks, in order.
  pub gunzip-Delivers :
      (fuel : ℕ) (extra bs : List ℕ) (more : List (List ℕ)) (rest : List ℕ) (src : Source)
      → length extra ≡ 6
      → AreSized bs more
      → Has ((0x1F ∷ (0x8B ∷ (8 ∷ (0 ∷ extra)))) ++ (blocks_of bs more ++ rest)) src
      → length more < fuel
      → Delivers (bytes_of bs more) (gunzip sink fuel src)
  unfolding gunzip inflate
  gunzip-Delivers fuel extra bs more rest src six small h lt =
      let first : List ℕ = 0x1F ∷ (0x8B ∷ (8 ∷ (0 ∷ extra))) in
      let rest' = blocks_of bs more ++ rest in
      let ten : length first ≡ 10 = omega (arith, six) in
      let (all, bytes, has) =
        subst
          (λ n.
            let (whole, got, s) = src_read n src in (whole ≡ true) × (got ≡ first) × Has rest' s)
          ten (Has-whole first rest' src h) in
      let s = (src_read 10 src).2 in
      let start : Stands [] rest' (record {
        reader = record { bitbuf = 0; bitcnt = 0; source = s };
        lencode = no_table;
        distcode = no_table;
        window = window_open 32768;
      }) =
        record { has = has; goes = window_open-Goes 32768 (omega arith); empty = (refl, refl) } in
      let test : (not (src_read 10 src).0
            || not (get_or (src_read 10 src).1 0 0 == 0x1F)
            || (not (get_or (src_read 10 src).1 1 0 == 0x8B)
                || not (get_or (src_read 10 src).1 2 0 == 8)))
          ≡ false =
        rw (all, bytes) refl in
      let flags : get_or (src_read 10 src).1 3 0 ≡ 0 = rw bytes refl in
      if-false (Delivers (bytes_of bs more)) _ (some none) _ test (
        rw (flags, no_fields fuel s)
          (closed-Delivers (bytes_of bs more) rest _
            (blocks-Unpacks fuel bs more [] rest _ small start lt)))
