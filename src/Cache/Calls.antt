-- ===== src/Cache/Calls.antt =====
-- What src/modules/storage/cache.c does with its lines: giving back, filling, and reading.
use mathlib.Core.Option
use bax_os_dev.Base.{
  ℕ, zero, suc, ◌+◌, ◌-◌, ◌*◌, ◌/◌, ◌%◌, ◌^◌, Bool, not, ◌&&◌, Option, none, some, List, [], ◌∷◌,
  ◌++◌, ltb, ◌==◌, if◌then◌else◌,
}
use bax_os_dev.Chains.{update}
use bax_os_dev.Cache.{
  Cache, bucket_of, find, has_data, let_out, line_size, line_sectors, no_line, no_sector, oldest,
}

-- What the allocator says when it is asked for memory for a line.
pub record Answers : Type 0 where
  pub ours : Bool
  pub unused_kib : ℕ
  pub block : Bool
  pub lent : Bool

-- A round of `cap`: the memory of a line given back.
unfoldable pub give_back : ℕ → Cache → Cache
give_back i s =
    let t = let_out i s in
    record t {
      lines = update t.lines i (record (t.lines i) { sectors = none });
      count = t.count - 1;
    }

-- `most` lines are left at most; with the number given back.
unfoldable pub cap_from : ℕ → ℕ → Cache → ℕ × Cache
cap_from zero most s = (0, s)
cap_from (suc fuel) most s =
    let at = oldest s in
    let (given, t) = cap_from fuel most (give_back (at - 1) s) in
    if ltb most s.count && not (at == 0) then (suc given, t) else (0, s)

unfoldable pub cap : ℕ → Cache → ℕ × Cache
cap most s = cap_from s.count most s

unfoldable pub may_grow : Answers → Cache → Bool
may_grow m s =
    if not (s.limit == 0)
    then ltb s.count s.limit
    else if not m.ours
    then ltb s.count 256
    else ltb (8192 + 64) m.unused_kib

-- A line put before the first of its chain.
unfoldable pub hook : ℕ → Cache → Cache
hook i s =
    let h = bucket_of s.room ((s.lines i).first) in
    record s {
      lines = update s.lines i (record (s.lines i) { next = s.heads h });
      heads = update s.heads h (suc i);
    }

-- The chains built again, over the last `n` of the lines there was room for.
unfoldable pub hook_from : ℕ → ℕ → Cache → Cache
hook_from was zero s = s
hook_from was (suc n) s =
    let i = was - suc n in hook_from was n (if (s.lines i).first == no_sector then s else hook i s)

unfoldable pub enlarge : Cache → Cache
enlarge s = hook_from s.room s.room (record s {
  lines = λ i. if ltb i s.room then s.lines i else no_line;
  heads = λ h. 0;
  room = s.room * 2;
})

unfoldable pub free_below : ℕ → ℕ → Cache → ℕ
free_below room zero s = 0
free_below room (suc n) s =
    let i = room - suc n in
    let rest = free_below room n s in if has_data (s.lines i) then rest else suc i

-- More room, where every line has memory and there may be more of them.
unfoldable pub roomier : Answers → Cache → Cache
roomier m s = if may_grow m s && s.count == s.room && m.block then enlarge s else s

-- A line with memory: what that holds before it is filled is not looked at, and 0 here.
unfoldable pub bought : ℕ → Cache → Cache
bought i s = record s {
  lines = update s.lines i (record no_line { first = no_sector; sectors = some (λ k. 0) });
  count = s.count + 1;
}

-- A line with memory to fill, one-based, or 0.
unfoldable pub slot : Answers → Cache → ℕ × Cache
slot m s =
    let t = roomier m s in
    let at = free_below t.room t.room t in
    let old = oldest t in
    if may_grow m s && not (at == 0) && m.lent
    then (at, bought (at - 1) t)
    else if old == 0
    then (0, t)
    else (old, let_out (old - 1) t)

-- What the disk said, put into a line that is free for it, and the line on its chain.
unfoldable pub keep : ℕ → ℕ → (ℕ → ℕ) → Cache → Cache
keep i first f s =
    hook i (record s {
      lines = update s.lines i (record (s.lines i) { first = first; sectors = some f });
    })

-- The line with that first sector, read in if need be; 0 where the disk is read around it. `disk`
-- gives the sectors read, from 0 up, or none where it fails: what the line's memory holds then is
-- not looked at, since the line holds nothing.
unfoldable pub line_for : (ℕ → ℕ → Option (ℕ → ℕ)) → Answers → ℕ → Cache → ℕ × Cache
line_for disk m first s =
    let at = find first s in
    let (i, t) = slot m s in
    if not (at == 0)
    then (at, s)
    else if i == 0
    then (0, t)
    else elim (disk first line_sectors) [ none ↦ (0, t) | some f ↦ (i, keep (i - 1) first f t) ]

-- `n` sectors from the `from`th on.
unfoldable pub slice : (ℕ → ℕ) → ℕ → ℕ → List ℕ
slice f from zero = []
slice f from (suc n) = f from ∷ slice f (from + 1) n

unfoldable pub touch : ℕ → Cache → Cache
touch i s =
    let now = (s.clock + 1) % 2 ^ 32 in
    record s { lines = update s.lines i (record (s.lines i) { used = now }); clock = now }

abbrev pub sectors_of : ℕ → Cache → ℕ → ℕ
sectors_of i s = elim ((s.lines i).sectors) [ none ↦ (λ k. 0) | some f ↦ f ]

-- The rounds of `cache_read`, a line each; `world` is what the allocator says in each round.
unfoldable pub read_lines :
    (ℕ → ℕ → Option (ℕ → ℕ)) → (ℕ → Answers) → ℕ → ℕ → ℕ → Cache → Option (List ℕ) × Cache
read_lines disk world zero lba n s = (some [], s)
read_lines disk world (suc fuel) lba n s =
    let within = lba % line_sectors in
    let first = lba - within in
    let take = if ltb (line_sectors - within) n then line_sectors - within else n in
    let (at, t) = line_for disk (world fuel) first s in
    let u = touch (at - 1) t in
    let (rest, v) = read_lines disk world fuel ((lba + take) % 2 ^ 32) (n - take) u in
    if n == 0
    then (some [], s)
    else if at == 0
    then (Option.map (λ f. slice f 0 n) (disk lba n), t)
    else (Option.map (λ xs. slice (sectors_of (at - 1) u) within take ++ xs) rest, v)

unfoldable pub cache_read :
    (ℕ → ℕ → Option (ℕ → ℕ)) → (ℕ → Answers) → ℕ → ℕ → Cache → Option (List ℕ) × Cache
cache_read disk world lba n s =
    if s.off
    then (Option.map (λ f. slice f 0 n) (disk lba n), s)
    else read_lines disk world n lba n s

-- What the kernel asks back; the bytes given. `busy` is set inside a read.
unfoldable pub cache_shrink : Bool → ℕ → Cache → ℕ × Cache
cache_shrink busy bytes s =
    let most =
      if ltb (bytes / line_size) s.count
      then s.count - (bytes + line_size - 1) / line_size
      else 0 in
    let (given, t) = cap most s in if busy then (0, s) else (given * line_size, t)
